-- ===== src/Filesystem/Path/Laws.antt =====
-- Laws of `normalizeRelativePath`, `boundedInteger` and `validateSearchString`.
use benchhand.Prelude.{
  ℕ, ◌≤◌, Bool, true, false, ◌||◌, List, [], ◌∷◌, ◌≡◌, ◌≢◌, ◌↔◌, refl, sym, arith, ok, ok-injective,
  guard-ok, length, All, ◌⊎◌, inl, inr,
}
use benchhand.Prelude.Text.{Text, join, includes_nul}
use benchhand.Contracts.Value.{Number, nat, finite, infinite, nan}
use benchhand.Paths.{slash, dot, is_absolute_posix, is_absolute_win32, segments_of, has_dot_dot}
use benchhand.Paths.Segments.{IsName, segments_of-All}
use benchhand.Paths.Joined.{names-has_dot_dot, includes_nul-join, segments_of-join}
use benchhand.Filesystem.Path.{
  normalize_relative_path, join_segments, bounded_integer, validate_search_string, max_safe_integer,
}

-- `boundedInteger` returns an integer exactly when that is its argument, lies between the bounds
-- and is safe.
pub bounded_integer_iff :
    (value : Number) (minimum maximum n : ℕ)
    → (bounded_integer value minimum maximum ≡ ok n)
      ↔ ((value ≡ nat n) × (minimum ≤ n) × (n ≤ maximum) × (n ≤ max_safe_integer))
unfolding bounded_integer
bounded_integer_iff (nat value) minimum maximum n = (λ h. ground arith, λ h. ground arith)
bounded_integer_iff (finite _) minimum maximum n =
    (λ h. absurd (ground arith), λ h. absurd (ground arith))
bounded_integer_iff infinite minimum maximum n =
    (λ h. absurd (ground arith), λ h. absurd (ground arith))
bounded_integer_iff nan minimum maximum n = (λ h. absurd (ground arith), λ h. absurd (ground arith))

-- `validateSearchString` returns exactly the NUL-free strings whose length lies between the bounds.
pub validate_search_string_iff :
    (value result : Text) (minimum maximum : ℕ)
    → (validate_search_string value minimum maximum ≡ ok result) ↔ (
        (value ≡ result)
        × (minimum ≤ length value)
        × (length value ≤ maximum)
        × (includes_nul value ≡ false))
unfolding validate_search_string
validate_search_string_iff value result minimum maximum = (λ h. ground arith, λ h. ground arith)

module _ (platform_absolute : Text → Bool) where
  abbrev pub is_absolute : Text → Bool
  is_absolute input = is_absolute_posix input || is_absolute_win32 input || platform_absolute input

  joined :
      (allow_root : Bool) (input path : Text) (segments : List Text)
      → join_segments platform_absolute allow_root input segments ≡ ok path
      → ((path ≡ dot) × (allow_root ≡ true)) ⊎ ((segments ≢ []) × (path ≡ join slash segments))
  unfolding join_segments
  joined true input path [] h = inl (sym (ok-injective h), refl)
  joined false input path [] h = absurd (ground arith)
  joined allow_root input path (s ∷ segments) h = inr (λ e. cc e, sym (ok-injective h))

  -- A normalised path is either the root, `.`, where that is allowed, or the slash-joined list of
  -- one or more names: none is empty, `.` or `..`, or holds a slash, a backslash or a NUL.
  pub normalize_relative_path-All :
      (input path : Text) (allow_root : Bool)
      → normalize_relative_path platform_absolute input allow_root ≡ ok path
      → ((path ≡ dot) × (allow_root ≡ true))
        ⊎ ((names : List Text) × (names ≢ []) × All IsName names × (path ≡ join slash names))
  unfolding normalize_relative_path
  normalize_relative_path-All input path allow_root h =
      let (nul, h') = guard-ok (includes_nul input) _ _ h in
      let (relative, h'') = guard-ok (is_absolute input) _ _ h' in
      let (dots, h''') = guard-ok (has_dot_dot (segments_of input)) _ _ h'' in
      elim (joined allow_root input path (segments_of input) h''') [
        | inl root ↦ inl root
        | inr p ↦ inr (segments_of input, p.0, segments_of-All input nul dots, p.1)
      ]

  -- Normalising a path that was joined from names gives it back, if no platform takes it for an
  -- absolute path.
  pub normalize-join :
      (names : List Text) (allow_root : Bool)
      → names ≢ []
      → All IsName names
      → is_absolute (join slash names) ≡ false
      → normalize_relative_path platform_absolute (join slash names) allow_root
        ≡ ok (join slash names)
  unfolding normalize_relative_path
  normalize-join [] allow_root some_name h relative = absurd (some_name refl)
  normalize-join (n ∷ names) allow_root some_name h relative = rw (
    includes_nul-join (n ∷ names) h,
    relative,
    segments_of-join (n ∷ names) some_name h,
    names-has_dot_dot (n ∷ names) h,
  )
