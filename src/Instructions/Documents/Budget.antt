-- ===== src/Instructions/Documents/Budget.antt =====
-- What every resolved document satisfies, and the budget of all of them.
use benchhand.Prelude.{
  ℕ, ◌+◌, ◌≤◌, false, ◌||◌, List, [], ◌∷◌, ◌++◌, ◌≡◌, ◌≢◌, refl, arith, ltb, ◌==◌, length, All,
  All-append, ok, >>=-eq-ok, guard-ok, ok-injective, subst, Bool-cases, inl, inr,
}
use benchhand.Prelude.Text.{Text, includes_nul}
use benchhand.Instructions.Documents.{
  InstructionProviderContribution, InstructionDocument, Resolved, Contributed,
  max_instruction_bytes, max_total_instruction_bytes, bad_path, insert_document, sort_documents,
  comes_after, compare_documents, normalize_contribution, normalize_all, add_documents,
  resolve_from, resolve_documents,
}

module _ (byte_length : Text → ℕ) (sha256 : Text → Text) where
  pub record IsDocument (document : InstructionDocument) : Type 0 where
    pub named : document.source_id ≢ []
    pub plain_source : includes_nul document.source_id ≡ false
    pub plain_content : includes_nul document.content ≡ false
    pub size : byte_length document.content ≤ max_instruction_bytes
    pub digest : document.sha256 ≡ sha256 document.content

  abbrev sum_bytes : List InstructionDocument → ℕ
  sum_bytes [] = 0
  sum_bytes (document ∷ documents) = byte_length document.content + sum_bytes documents

  pub record IsBudgeted (resolved : Resolved) : Type 0 where
    pub documents : All IsDocument resolved.documents
    pub counted : resolved.total_bytes ≡ sum_bytes resolved.documents
    pub bounded : resolved.total_bytes ≤ max_total_instruction_bytes

  sum_bytes-append :
      (xs : List InstructionDocument) (x : InstructionDocument)
      → sum_bytes (xs ++ x ∷ []) ≡ sum_bytes xs + byte_length x.content
  sum_bytes-append [] x = omega arith
  sum_bytes-append (y ∷ xs) x = omega (arith, sum_bytes-append xs x)

  normalize_contribution-IsDocument :
      (provider scope : Text) (c : InstructionProviderContribution) (d : InstructionDocument)
      → normalize_contribution byte_length sha256 provider scope c ≡ ok d
      → IsDocument d
  unfolding normalize_contribution
  normalize_contribution-IsDocument provider scope c d h =
      let (named, h1) = guard-ok (length c.source_id == 0 || includes_nul c.source_id) _ _ h in
      let (plain, h2) = guard-ok (includes_nul c.content) _ _ h1 in
      let (small, h3) = guard-ok (ltb max_instruction_bytes (byte_length c.content)) _ _ h2 in
      let (_, h4) = guard-ok (bad_path c.path) _ _ h3 in
      subst IsDocument (ok-injective h4) (record {
        named = λ e. ground (arith, e, named);
        plain_source = ground (arith, named);
        plain_content = plain;
        size = ground (arith, small);
        digest = refl;
      })

  normalize_all-IsDocument :
      (provider scope : Text) (cs : List InstructionProviderContribution)
      (ds : List InstructionDocument)
      → normalize_all byte_length sha256 provider scope cs ≡ ok ds
      → All IsDocument ds
  unfolding normalize_all
  normalize_all-IsDocument provider scope [] ds h = subst (All IsDocument) (ok-injective h) tt
  normalize_all-IsDocument provider scope (c ∷ cs) ds h =
      let (d, one, h1) =
        >>=-eq-ok (normalize_contribution byte_length sha256 provider scope c) _ h in
      let (rest, more, h2) = >>=-eq-ok (normalize_all byte_length sha256 provider scope cs) _ h1 in
      subst (All IsDocument) (ok-injective h2) (
        normalize_contribution-IsDocument provider scope c d one,
        normalize_all-IsDocument provider scope cs rest more,
      )

  insert_document-All :
      (d : InstructionDocument) (es : List InstructionDocument)
      → IsDocument d
      → All IsDocument es
      → All IsDocument (insert_document d es)
  unfolding insert_document
  insert_document-All d [] p h = (p, tt)
  insert_document-All d (e ∷ es) p (q, h) =
      elim (Bool-cases (comes_after (compare_documents d e))) [
        | inl after ↦ rw after (q, insert_document-All d es p h)
        | inr before ↦ rw before (p, (q, h))
      ]

  sort_documents-All :
      (ds : List InstructionDocument) → All IsDocument ds → All IsDocument (sort_documents ds)
  unfolding sort_documents
  sort_documents-All [] h = tt
  sort_documents-All (d ∷ ds) (p, h) = insert_document-All d _ p (sort_documents-All ds h)

  add_documents-IsBudgeted :
      (scope : Text) (ds : List InstructionDocument) (before after : Resolved)
      → All IsDocument ds
      → IsBudgeted before
      → add_documents byte_length sha256 scope ds before ≡ ok after
      → IsBudgeted after
  unfolding add_documents
  add_documents-IsBudgeted scope [] before after p b h = subst IsBudgeted (ok-injective h) b
  add_documents-IsBudgeted scope (d ∷ ds) before after (p, ps) b h =
      let (fits, h1) =
        guard-ok (ltb max_total_instruction_bytes (before.total_bytes + byte_length d.content)) _ _
          h in
      add_documents-IsBudgeted scope ds _ after ps
        (record {
          documents = All-append IsDocument before.documents (d ∷ []) b.documents (p, tt);
          counted = omega (arith, b.counted, sum_bytes-append before.documents d);
          bounded = ground (arith, fits);
        })
        h1

  resolve_from-IsBudgeted :
      (scope : Text) (answers : List Contributed) (before after : Resolved)
      → IsBudgeted before
      → resolve_from byte_length sha256 scope answers before ≡ ok after
      → IsBudgeted after
  unfolding resolve_from
  resolve_from-IsBudgeted scope [] before after b h = subst IsBudgeted (ok-injective h) b
  resolve_from-IsBudgeted scope (a ∷ answers) before after b h =
      let (ds, one, h1) =
        >>=-eq-ok (normalize_all byte_length sha256 a.provider_id a.scope a.contributions) _ h in
      let (mid, added, h2) =
        >>=-eq-ok (add_documents byte_length sha256 scope (sort_documents ds) before) _ h1 in
      let valid = normalize_all-IsDocument a.provider_id a.scope a.contributions ds one in
      resolve_from-IsBudgeted scope answers mid after
        (add_documents-IsBudgeted scope (sort_documents ds) before mid (sort_documents-All ds valid)
          b added)
        h2

  -- When the documents of a scope are resolved, from whatever providers answer: each document has a
  -- non-empty NUL-free source and NUL-free content of at most 256 KiB, and carries the digest of that
  -- content; the total is the sum of their sizes, and at most 1 MiB.
  pub resolve_documents-IsBudgeted :
      (scope : Text) (answers : List Contributed) (resolved : Resolved)
      → resolve_documents byte_length sha256 scope answers ≡ ok resolved
      → IsBudgeted resolved
  unfolding resolve_documents
  resolve_documents-IsBudgeted scope answers resolved h =
      resolve_from-IsBudgeted scope answers _ resolved
        (record { documents = tt; counted = refl; bounded = omega arith }) h
