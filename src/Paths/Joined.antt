-- ===== src/Paths/Joined.antt =====
-- Paths that are joined from names.
use benchhand.Prelude.{
  ℕ, true, false, List, [], ◌∷◌, ◌≡◌, ◌≢◌, refl, arith, ==_iff, All, All-append, Bool-cases, inl,
  inr,
}
use benchhand.Prelude.Text.{Text, text_eq, text_eq_iff, join, replace_unit, includes_nul}
use benchhand.Paths.{slash, backslash, dot, dot_dot, is_kept, segments_of, has_dot_dot}
use benchhand.Paths.Segments.{Free, IsPlainUnit, IsName, split-join, keep_of_All}

replace_unit-Free : (x y : ℕ) (s : Text) → Free x s → replace_unit x y s ≡ s
unfolding replace_unit
replace_unit-Free x y [] h = refl
replace_unit-Free x y (c ∷ s) (n, h) = rw (replace_unit-Free x y s h) (ground (arith, ==_iff c x))

join-All : (P : ℕ → Type 0) (x : ℕ) (ts : List Text) → P x → All (All P) ts → All P (join x ts)
unfolding join
join-All P x [] p h = tt
join-All P x (t ∷ []) p (q, h) = q
join-All P x (t ∷ u ∷ ts) p (q, h) =
    All-append P t (x ∷ join x (u ∷ ts)) q (p, join-All P x (u ∷ ts) p h)

abbrev NotBoth : ℕ → Type 0
NotBoth c = (c ≢ 0) × (c ≢ backslash)

weaken : (s : Text) → All IsPlainUnit s → All NotBoth s
weaken [] h = tt
weaken (c ∷ s) (p, h) = ((p.0, p.2), weaken s h)

plain_units_lem : (s : Text) → All IsPlainUnit s → Free slash s
plain_units_lem [] h = tt
plain_units_lem (c ∷ s) (p, h) = (p.1, plain_units_lem s h)

names-units : (ts : List Text) → All IsName ts → All (All NotBoth) ts
names-units [] h = tt
names-units (t ∷ ts) (n, h) = (weaken t n.plain, names-units ts h)

pub names_without_slash : (ts : List Text) → All IsName ts → All (Free slash) ts
names_without_slash [] h = tt
names_without_slash (t ∷ ts) (n, h) = (plain_units_lem t n.plain, names_without_slash ts h)

name-kept : (t : Text) → IsName t → is_kept t ≡ true
name-kept [] n = absurd (n.not_empty refl)
name-kept (c ∷ t) n = elim (Bool-cases (text_eq (c ∷ t) dot)) [
  | inl same ↦ absurd (n.not_dot ((text_eq_iff (c ∷ t) dot).0 same))
  | inr other ↦ rw other
]

names-kept : (ts : List Text) → All IsName ts → All (λ t. is_kept t ≡ true) ts
names-kept [] h = tt
names-kept (t ∷ ts) (n, h) = (name-kept t n, names-kept ts h)

pub names-has_dot_dot : (ts : List Text) → All IsName ts → has_dot_dot ts ≡ false
names-has_dot_dot [] h = refl
names-has_dot_dot (t ∷ ts) (n, h) = elim (Bool-cases (text_eq t dot_dot)) [
  | inl same ↦ absurd (n.not_dot_dot ((text_eq_iff t dot_dot).0 same))
  | inr other ↦ rw other (names-has_dot_dot ts h)
]

without_backslash : (s : Text) → All NotBoth s → Free backslash s
without_backslash [] h = tt
without_backslash (c ∷ s) (p, h) = (p.1, without_backslash s h)

nul_free : (s : Text) → All NotBoth s → includes_nul s ≡ false
nul_free [] h = refl
nul_free (c ∷ s) (p, h) = ground (arith, nul_free s h, p.0)

pub includes_nul-join : (ts : List Text) → All IsName ts → includes_nul (join slash ts) ≡ false
includes_nul-join ts h = nul_free _ (join-All NotBoth slash ts (omega arith) (names-units ts h))

pub segments_of-join : (ts : List Text) → ts ≢ [] → All IsName ts → segments_of (join slash ts) ≡ ts
unfolding segments_of
segments_of-join ts some_part h =
    let free = without_backslash _ (join-All NotBoth slash ts (omega arith) (names-units ts h)) in
    rw
      (
        replace_unit-Free backslash slash (join slash ts) free,
        split-join slash ts some_part (names_without_slash ts h),
      )
      (keep_of_All is_kept ts (names-kept ts h))
