-- ===== src/Filesystem/Search/Budget.antt =====
-- `appendSearchMatch` over all the matches of a search.
use benchhand.Prelude.{
  ℕ, ◌+◌, ◌≤◌, true, false, List, [], ◌∷◌, ◌++◌, ◌≡◌, sym, ◌∙◌, ap, arith, append_assoc, append-nil,
  length, length-append, Bool-cases, inl, inr, ◌⊎◌,
}
use benchhand.Prelude.Text.{Text}
use benchhand.Filesystem.Search.{
  FilesystemSearchMatch, SearchState, estimated_bytes, append_search_match,
}

module _ (byte_length : Text → ℕ) (max_results max_bytes : ℕ) where
  -- The calls that a walk makes for the matches that it finds, one after another.
  unfoldable pub append_matches : List FilesystemSearchMatch → SearchState → SearchState
  append_matches [] state = state
  append_matches (match ∷ found) state =
      append_matches found (append_search_match byte_length state match max_results max_bytes)

  abbrev sum_bytes : List FilesystemSearchMatch → ℕ
  sum_bytes [] = 0
  sum_bytes (match ∷ found) = estimated_bytes byte_length match + sum_bytes found

  pub record IsWithin (state : SearchState) : Type 0 where
    pub results : length state.matches ≤ max_results
    pub bytes : state.output_bytes ≤ max_bytes
    pub counted : state.output_bytes ≡ sum_bytes state.matches

  sum_bytes-append :
      (xs : List FilesystemSearchMatch) (x : FilesystemSearchMatch)
      → sum_bytes (xs ++ x ∷ []) ≡ sum_bytes xs + estimated_bytes byte_length x
  sum_bytes-append [] x = omega arith
  sum_bytes-append (y ∷ xs) x = omega (arith, sum_bytes-append xs x)

  append-IsWithin :
      (state : SearchState) (match : FilesystemSearchMatch)
      → IsWithin state
      → IsWithin (append_search_match byte_length state match max_results max_bytes)
  unfolding append_search_match
  append-IsWithin state match h = record {
    results = ground (arith, h.results, length-append state.matches (match ∷ []));
    bytes = ground (arith, h.bytes);
    counted = ground (arith, h.counted, sum_bytes-append state.matches match);
  }

  append_truncated :
      (state : SearchState) (match : FilesystemSearchMatch)
      → state.truncated ≡ true
      → (append_search_match byte_length state match max_results max_bytes).truncated ≡ true
  unfolding append_search_match
  append_truncated state match h = ground arith

  append_matches-truncated :
      (found : List FilesystemSearchMatch) (state : SearchState)
      → state.truncated ≡ true
      → (append_matches found state).truncated ≡ true
  unfolding append_matches
  append_matches-truncated [] state h = h
  append_matches-truncated (match ∷ found) state h =
      append_matches-truncated found _ (append_truncated state match h)

  append_kept :
      (state : SearchState) (match : FilesystemSearchMatch)
      → (append_search_match byte_length state match max_results max_bytes).truncated ≡ false
      → (append_search_match byte_length state match max_results max_bytes).matches
        ≡ state.matches ++ match ∷ []
  unfolding append_search_match
  append_kept state match h = ground arith

  append_matches-all :
      (found : List FilesystemSearchMatch) (state : SearchState)
      → (append_matches found state).truncated ≡ false
      → (append_matches found state).matches ≡ state.matches ++ found
  unfolding append_matches
  append_matches-all [] state h = sym (append-nil state.matches)
  append_matches-all (match ∷ found) state h =
      elim (Bool-cases
        (append_search_match byte_length state match max_results max_bytes).truncated) [
          | inl cut ↦ cc (sym (append_matches-truncated found _ cut) ∙ h)
          | inr whole ↦
              append_matches-all found _ h
              ∙ ap (λ ms. ms ++ found) (append_kept state match whole)
              ∙ append_assoc state.matches (match ∷ []) found
        ]

  append_matches-IsWithin :
      (found : List FilesystemSearchMatch) (state : SearchState)
      → IsWithin state
      → IsWithin (append_matches found state)
  unfolding append_matches
  append_matches-IsWithin [] state h = h
  append_matches-IsWithin (match ∷ found) state h =
      append_matches-IsWithin found _ (append-IsWithin state match h)

  -- Adding matches one by one to a state within its budget keeps it within: at most the allowed
  -- number of matches and of estimated bytes, and the bytes are the sum over the kept matches. Either
  -- the state then says that it was truncated, or it holds every match added, in order, behind those
  -- that it held. What a search passes over before it adds a match is not in this.
  pub append_matches_budget :
      (found : List FilesystemSearchMatch) (state : SearchState)
      → IsWithin state
      → IsWithin (append_matches found state)
        × (((append_matches found state).truncated ≡ true)
            ⊎ ((append_matches found state).matches ≡ state.matches ++ found))
  append_matches_budget found state h = elim (Bool-cases (append_matches found state).truncated) [
    | inl cut ↦ (append_matches-IsWithin found state h, inl cut)
    | inr whole ↦
        (append_matches-IsWithin found state h, inr (append_matches-all found state whole))
  ]
