-- ===== src/Paths/Segments.antt =====
-- Splitting and joining, and what the segments of a path hold.
use benchhand.Prelude.{
  ℕ, Bool, true, false, List, [], ◌∷◌, ◌++◌, ◌≡◌, ◌≢◌, refl, ap, ◌∙◌, arith, if◌then◌else◌, ◌==◌,
  ==_iff, keep, All,
}
use benchhand.Prelude.Text.{Text, text_eq_iff, split, join, replace_unit, push_head, includes_nul}
use benchhand.Paths.{slash, backslash, dot, dot_dot, is_kept, segments_of, has_dot_dot}

-- No unit of the text is `x`.
abbrev pub Free : ℕ → Text → Type 0
Free x s = All (λ c. c ≢ x) s

push_head-All :
    (P : ℕ → Type 0) (c : ℕ) (ts : List Text) → P c → All (All P) ts → All (All P) (push_head c ts)
push_head-All P c [] p ps = ((p, tt), tt)
push_head-All P c (t ∷ ts) p (q, ps) = ((p, q), ps)

-- A property of all units but the separator is one of the units of the parts.
split-All : (P : ℕ → Type 0) (x : ℕ) (s : Text) → All (λ c. c ≢ x → P c) s → All (All P) (split x s)
unfolding split
split-All P x [] h = (tt, tt)
split-All P x (c ∷ s) (p, h) = part (c == x) refl (split-All P x s h)
  where
    part :
        (b : Bool)
        → (c == x) ≡ b
        → All (All P) (split x s)
        → All (All P) (if b then [] ∷ split x s else push_head c (split x s))
    part true e ih = (tt, ih)
    part false e ih = push_head-All P c (split x s) (p (λ same. ground (arith, ==_iff c x))) ih

split-Free : (x : ℕ) (t : Text) → Free x t → split x t ≡ t ∷ []
unfolding split
split-Free x [] h = refl
split-Free x (c ∷ t) (n, h) = rw (split-Free x t h) (ground (arith, ==_iff c x))

split-append : (x : ℕ) (t s : Text) → Free x t → split x (t ++ x ∷ s) ≡ t ∷ split x s
unfolding split
split-append x [] s h = ground arith
split-append x (c ∷ t) s (n, h) = rw (split-append x t s h) (ground (arith, ==_iff c x))

-- Splitting undoes joining, where no part holds the separator.
pub split-join : (x : ℕ) (ts : List Text) → ts ≢ [] → All (Free x) ts → split x (join x ts) ≡ ts
unfolding join
split-join x [] h free = absurd (h refl)
split-join x (t ∷ []) h (f, free) = split-Free x t f
split-join x (t ∷ u ∷ ts) h (f, free) =
    split-append x t (join x (u ∷ ts)) f ∙ ap (λ r. t ∷ r) (split-join x (u ∷ ts) (λ e. cc e) free)

keep-All : {A : Type 0} (P : A → Type 0) (p : A → Bool) (xs : List A) → All P xs → All P (keep p xs)
keep-All P p [] h = tt
keep-All P p (x ∷ xs) (q, h) = kept (p x) (keep-All P p xs h)
  where
    kept : (b : Bool) → All P (keep p xs) → All P (if b then x ∷ keep p xs else keep p xs)
    kept true ih = (q, ih)
    kept false ih = ih

keep-test : {A : Type 0} (p : A → Bool) (xs : List A) → All (λ x. p x ≡ true) (keep p xs)
keep-test p [] = tt
keep-test p (x ∷ xs) = kept (p x) refl (keep-test p xs)
  where
    kept :
        (b : Bool)
        → p x ≡ b
        → All (λ x. p x ≡ true) (keep p xs)
        → All (λ x. p x ≡ true) (if b then x ∷ keep p xs else keep p xs)
    kept true e ih = (e, ih)
    kept false e ih = ih

pub keep_of_All :
    {A : Type 0} (p : A → Bool) (xs : List A) → All (λ x. p x ≡ true) xs → keep p xs ≡ xs
keep_of_All p [] h = refl
keep_of_All p (x ∷ xs) (e, h) = rw e (ap (λ r. x ∷ r) (keep_of_All p xs h))

-- What each unit of a segment is: not NUL, no slash and no backslash.
abbrev pub IsPlainUnit : ℕ → Type 0
IsPlainUnit c = (c ≢ 0) × (c ≢ slash) × (c ≢ backslash)

-- A name that stays in its directory: not empty, not `.` or `..`, of plain units.
pub record IsName (segment : Text) : Type 0 where
  pub not_empty : segment ≢ []
  pub not_dot : segment ≢ dot
  pub not_dot_dot : segment ≢ dot_dot
  pub plain : All IsPlainUnit segment

replaced_units :
    (s : Text)
    → includes_nul s ≡ false
    → All (λ c. c ≢ slash → IsPlainUnit c) (replace_unit backslash slash s)
unfolding replace_unit
replaced_units [] h = tt
replaced_units (c ∷ s) h = (λ n. ground arith, replaced_units s (ground arith))

names :
    (segments : List Text)
    → All (All IsPlainUnit) segments
    → All (λ s. is_kept s ≡ true) segments
    → has_dot_dot segments ≡ false
    → All IsName segments
names [] p k d = tt
names (s ∷ segments) (p, ps) (k, ks) d = (
  record {
    not_empty = λ e. ground arith;
    not_dot = λ e. ground (arith, text_eq_iff s dot);
    not_dot_dot = λ e. ground (arith, text_eq_iff s dot_dot);
    plain = p;
  },
  names segments ps ks (ground arith),
)

-- The segments of a NUL-free input without `..` are names.
pub segments_of-All :
    (input : Text)
    → includes_nul input ≡ false
    → has_dot_dot (segments_of input) ≡ false
    → All IsName (segments_of input)
unfolding segments_of
segments_of-All input nul dots =
    let parts = split slash (replace_unit backslash slash input) in
    names (keep is_kept parts)
      (keep-All (All IsPlainUnit) is_kept parts
        (split-All IsPlainUnit slash _ (replaced_units input nul)))
      (keep-test is_kept parts) dots
