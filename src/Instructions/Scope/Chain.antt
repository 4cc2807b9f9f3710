-- ===== src/Instructions/Scope/Chain.antt =====
-- The scopes of a path: the root, and then each directory on the way down to the path.
use benchhand.Prelude.{
  suc, ◌+◌, ◌≤◌, Bool, false, ◌||◌, Option, none, some, List, [], ◌∷◌, ◌++◌, ◌≡◌, ◌≢◌, refl, sym,
  ap, ap₂, ◌∙◌, arith, append_assoc, length, length-append, take, All, ok, guard-ok, ok-injective,
  ltb, Bool-cases, inl, inr,
}
use benchhand.Prelude.Text.{Text, text_eq, text_eq_iff, split, join, includes_nul, replace_unit}
use benchhand.Paths.{slash, dot, is_absolute_posix, is_absolute_win32, segments_of, has_dot_dot}
use benchhand.Paths.Segments.{IsName, segments_of-All, split-join}
use benchhand.Paths.Joined.{names_without_slash, segments_of-join}
use benchhand.Instructions.Scope.{
  max_scope_depth, joined_segments, normalize_relative_path, scopes_from, build_scope_chain,
}

-- A directory below another, or below the root.
abbrev child : Option Text → Text → Text
child none name = name
child (some parent) name = parent ++ slash ∷ name

-- The directories on the way down from a parent by these names.
abbrev pub descend : Option Text → List Text → List Text
descend parent [] = []
descend parent (name ∷ names) = child parent name ∷ descend (some (child parent name)) names

abbrev parent_of : List Text → Option Text
parent_of [] = none
parent_of (s ∷ segments) = some (join slash (s ∷ segments))

join-last :
    (s : Text) (segments : List Text) (name : Text)
    → join slash ((s ∷ segments) ++ name ∷ []) ≡ join slash (s ∷ segments) ++ slash ∷ name
unfolding join
join-last s [] name = refl
join-last s (t ∷ segments) name =
    ap (λ r. s ++ slash ∷ r) (join-last t segments name)
    ∙ sym (append_assoc s (slash ∷ join slash (t ∷ segments)) (slash ∷ name))

child_of :
    (above : List Text) (name : Text)
    → join slash (above ++ name ∷ []) ≡ child (parent_of above) name
unfolding join
child_of [] name = refl
child_of (s ∷ above) name = join-last s above name

parent_of-last :
    (above : List Text) (name : Text)
    → parent_of (above ++ name ∷ []) ≡ some (child (parent_of above) name)
unfolding join
parent_of-last [] name = refl
parent_of-last (s ∷ above) name = ap some (join-last s above name)

take-above :
    (above : List Text) (name : Text) (below : List Text)
    → take (suc (length above)) (above ++ name ∷ below) ≡ above ++ name ∷ []
take-above [] name below = refl
take-above (s ∷ above) name below = ap (λ r. s ∷ r) (take-above above name below)

scopes_from-descend :
    (above below : List Text)
    → scopes_from (length below) (suc (length above)) (above ++ below)
      ≡ descend (parent_of above) below
unfolding scopes_from
scopes_from-descend above [] = refl
scopes_from-descend above (name ∷ below) =
    let deeper : suc (length above) + 1 ≡ suc (length (above ++ name ∷ [])) =
      omega (arith, length-append above (name ∷ [])) in
    ap₂ ◌∷◌ (ap (join slash) (take-above above name below) ∙ child_of above name) (
      ap₂ (λ index segments. scopes_from (length below) index segments) deeper
        (sym (append_assoc above (name ∷ []) below))
      ∙ scopes_from-descend (above ++ name ∷ []) below
      ∙ ap (λ p. descend p below) (parent_of-last above name))

segments_of-dot : segments_of dot ≡ []
unfolding segments_of split replace_unit text_eq
segments_of-dot = refl

join-ne-dot :
    (names : List Text) → names ≢ [] → All IsName names → text_eq (join slash names) dot ≡ false
join-ne-dot names some_name h = elim (Bool-cases (text_eq (join slash names) dot)) [
  | inl same ↦ absurd (
      some_name (
        sym (segments_of-join names some_name h)
        ∙ ap segments_of ((text_eq_iff (join slash names) dot).0 same)
        ∙ segments_of-dot))
  | inr other ↦ other
]

-- The names on the way to a scope.
chain_of_names :
    (names : List Text)
    → All IsName names
    → build_scope_chain (joined_segments names) ≡ dot ∷ descend none names
unfolding build_scope_chain text_eq
chain_of_names [] h = refl
chain_of_names (n ∷ names) h =
    rw
      (
        join-ne-dot (n ∷ names) (λ e. cc e) h,
        split-join slash (n ∷ names) (λ e. cc e) (names_without_slash (n ∷ names) h),
      )
      (ap (λ scopes. dot ∷ scopes) (scopes_from-descend [] (n ∷ names)))

module _ (platform_absolute : Text → Bool) where
  -- The scope chain of a normalised path is the root and then, one below the other, each directory
  -- on the way down by the segments of the input. The segments are at most 128 names: none is
  -- empty, `.` or `..`, or holds a slash, a backslash or a NUL.
  pub build_scope_chain-descend :
      (input path : Text)
      → normalize_relative_path platform_absolute input ≡ ok path
      → (build_scope_chain path ≡ dot ∷ descend none (segments_of input))
        × All IsName (segments_of input)
        × (length (segments_of input) ≤ max_scope_depth)
  unfolding normalize_relative_path
  build_scope_chain-descend input path h =
      let (nul, h1) = guard-ok (includes_nul input) _ _ h in
      let (_, h2) =
        guard-ok (is_absolute_posix input || is_absolute_win32 input || platform_absolute input) _ _
          h1 in
      let (dots, h3) = guard-ok (has_dot_dot (segments_of input)) _ _ h2 in
      let (shallow, h4) = guard-ok (ltb max_scope_depth (length (segments_of input))) _ _ h3 in
      let names = segments_of-All input nul dots in
      (
        ap build_scope_chain (sym (ok-injective h4)) ∙ chain_of_names (segments_of input) names,
        names,
        ground (arith, shallow),
      )
