-- ===== src/Filesystem/Patch/Occurrences.antt =====
-- `findAllOccurrences`, compared with a look at each position.
use mathlib.Core.Option
use native.Mathlib.Nat.{zero-add, suc-add}
use benchhand.Prelude.{
  ℕ, zero, suc, ◌+◌, ◌-◌, ◌≤◌, ◌<◌, Bool, true, false, ◌||◌, Option, none, some, List, [], ◌∷◌, ◌≡◌,
  ◌≢◌, ◌↔◌, refl, sym, ◌∙◌, arith, if◌then◌else◌, ◌==◌, length, length-drop, drop, Bool-cases, inl,
  inr, ◌⊎◌, ==_iff,
}
use benchhand.Prelude.Text.{
  Text, starts_with, index_of, index_of-cons, index_of-nil, index_of-lt-length, index_of_from-drop,
}
use benchhand.Filesystem.Patch.{next_round, occurrences_from, find_all_occurrences}

-- The positions, by looking at each: `base` is the position of the first unit.
pub positions : Text → Text → ℕ → List ℕ
positions [] expected base = []
positions (c ∷ s) expected base =
    let later = positions s expected (base + 1) in
    if starts_with (c ∷ s) expected then base ∷ later else later

abbrev pub elem : ℕ → List ℕ → Bool
elem i [] = false
elem i (j ∷ js) = i == j || elem i js

pub drop-drop : {A : Type 0} (m n : ℕ) (s : List A) → drop m (drop n s) ≡ drop (n + m) s
drop-drop m zero s = rw zero-add
drop-drop zero (suc n) [] = simp suc-add
drop-drop (suc m) (suc n) [] = simp suc-add
drop-drop m (suc n) (c ∷ s) = simp suc-add (drop-drop m n s)

-- The first hit of `indexOf`, and what is left to search behind it.
abbrev hits : Text → Text → ℕ → Option ℕ → List ℕ
hits s p base none = []
hits s p base (some k) = (base + k) ∷ positions (drop (suc k) s) p (base + k + 1)

hits-suc :
    (c : ℕ) (s p : Text) (base : ℕ) (o : Option ℕ)
    → hits (c ∷ s) p base (Option.map suc o) ≡ hits s p (base + 1) o
hits-suc c s p base none = refl
hits-suc c s p base (some k) = let e : base + suc k ≡ base + 1 + k = omega arith in rw e

positions-cons :
    (c : ℕ) (s p : Text) (base : ℕ)
    → positions (c ∷ s) p base ≡ (
        if starts_with (c ∷ s) p then base ∷ positions s p (base + 1) else positions s p (base + 1))
unfolding positions
positions-cons c s p base = refl

positions-index_of :
    (s : Text) (u : ℕ) (p : Text) (base : ℕ)
    → positions s (u ∷ p) base ≡ hits s (u ∷ p) base (index_of s (u ∷ p))
positions-index_of [] u p base = rw index_of-nil (unfold positions in refl)
positions-index_of (c ∷ s) u p base = elim (Bool-cases (starts_with (c ∷ s) (u ∷ p))) [
  | inl here ↦ let e : base + 0 ≡ base = omega arith in rw (positions-cons, index_of-cons, here, e)
  | inr further ↦
      rw (positions-cons, index_of-cons, further)
        (positions-index_of s u p (base + 1) ∙ sym (hits-suc c s (u ∷ p) base (index_of s (u ∷ p))))
]

-- With one round for each position left, the loop finds them all.
occurrences_from-eq-positions :
    (fuel : ℕ) (s : Text) (u : ℕ) (p : Text) (from : ℕ)
    → from ≤ length s
    → length s < fuel + from
    → occurrences_from fuel s (u ∷ p) from ≡ positions (drop from s) (u ∷ p) from
unfolding occurrences_from
occurrences_from-eq-positions zero s u p from h k = absurd (omega arith)
occurrences_from-eq-positions (suc fuel) s u p from h k =
    rw (index_of_from-drop s (u ∷ p) from h, positions-index_of (drop from s) u p from)
      (round (index_of (drop from s) (u ∷ p)) refl
        (λ j e. index_of-lt-length (drop from s) u p {k = j} e)
        (λ j b. occurrences_from-eq-positions fuel s u p (from + j + 1) b (omega arith)))
  where
    round :
        (o : Option ℕ)
        → index_of (drop from s) (u ∷ p) ≡ o
        → ((j : ℕ) → index_of (drop from s) (u ∷ p) ≡ some j → j < length (drop from s))
        → ((j : ℕ)
            → from + j + 1 ≤ length s
            → occurrences_from fuel s (u ∷ p) (from + j + 1)
              ≡ positions (drop (from + j + 1) s) (u ∷ p) (from + j + 1))
        → next_round (occurrences_from fuel s (u ∷ p)) (Option.map (λ i. from + i) o)
          ≡ hits (drop from s) (u ∷ p) from o
    round none e before later = refl
    round (some j) e before later =
        let b : from + j + 1 ≤ length s = omega (arith, before j e, length-drop from s) in
        let same : from + suc j ≡ from + j + 1 = omega arith in
        rw (drop-drop (suc j) from s, same, later j b)

-- The loop of `findAllOccurrences` finds exactly the positions, each by a look at the text there.
pub find_all_occurrences-eq-positions :
    (s p : Text) → p ≢ [] → find_all_occurrences s p ≡ positions s p 0
unfolding find_all_occurrences
find_all_occurrences-eq-positions s [] h = absurd (h refl)
find_all_occurrences-eq-positions s (u ∷ p) h =
    occurrences_from-eq-positions (length s + 1) s u p 0 (omega arith) (omega arith)

or-cases : (a b : Bool) → (a || b) ≡ true → (a ≡ true) ⊎ (b ≡ true)
or-cases a b h = ground arith

positions_sound :
    (s p : Text) (base i : ℕ)
    → elem i (positions s p base) ≡ true
    → (base ≤ i) × (starts_with (drop (i - base) s) p ≡ true)
unfolding positions
positions_sound [] p base i h = cc
positions_sound (c ∷ s) p base i h =
    split (starts_with (c ∷ s) p) refl h (positions_sound s p (base + 1) i)
  where
    further :
        (base + 1 ≤ i) × (starts_with (drop (i - (base + 1)) s) p ≡ true)
        → (base ≤ i) × (starts_with (drop (i - base) (c ∷ s)) p ≡ true)
    further (le, there) =
        let e : i - base ≡ suc (i - (base + 1)) = omega arith in (omega arith, rw e there)

    split :
        (b : Bool)
        → starts_with (c ∷ s) p ≡ b
        → elem i (if b then base ∷ positions s p (base + 1) else positions s p (base + 1)) ≡ true
        → (elem i (positions s p (base + 1)) ≡ true
            → (base + 1 ≤ i) × (starts_with (drop (i - (base + 1)) s) p ≡ true))
        → (base ≤ i) × (starts_with (drop (i - base) (c ∷ s)) p ≡ true)
    split true e h ih = elim (or-cases (i == base) _ h) [
      | inl same ↦
          let z : i - base ≡ 0 = omega (arith, (==_iff i base).0 same) in
          (omega (arith, (==_iff i base).0 same), rw z e)
      | inr later ↦ further (ih later)
    ]
    split false e h ih = further (ih h)

positions_complete :
    (s : Text) (u : ℕ) (p : Text) (base i : ℕ)
    → starts_with (drop i s) (u ∷ p) ≡ true
    → elem (base + i) (positions s (u ∷ p) base) ≡ true
positions_complete [] u p base zero h = unfold starts_with in cc
positions_complete [] u p base (suc i) h = unfold starts_with in cc
positions_complete (c ∷ s) u p base zero h =
    let e : base + 0 ≡ base = omega arith in rw (positions-cons, h, e) (ground arith)
positions_complete (c ∷ s) u p base (suc i) h =
    let ih = positions_complete s u p (base + 1) i h in
    let e : base + suc i ≡ base + 1 + i = omega arith in rw (positions-cons, e) (ground (arith, ih))

-- For a non-empty expected text, a position is among the occurrences found exactly when the
-- expected text stands there in the source.
pub find_all_occurrences_iff :
    (s p : Text) (i : ℕ)
    → p ≢ []
    → (elem i (find_all_occurrences s p) ≡ true) ↔ (starts_with (drop i s) p ≡ true)
find_all_occurrences_iff s [] i h = absurd (h refl)
find_all_occurrences_iff s (u ∷ p) i h =
    let whole : i - 0 ≡ i = omega arith in
    rw (find_all_occurrences-eq-positions s (u ∷ p) h) (
      λ e. rw whole at (positions_sound s (u ∷ p) 0 i e).1,
      λ e. rw zero-add at (positions_complete s u p 0 i e),
    )
