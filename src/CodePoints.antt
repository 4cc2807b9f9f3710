-- ===== src/CodePoints.antt =====
-- `compareCodePoints`, which packages/filesystem/src/index.ts and
-- packages/instructions/src/index.ts both define. Its callers use the sign of the result alone, and
-- that is what the model returns.
use Prim.Native.Nat.{compare, Ordering, lt, eq, gt}
use benchhand.Prelude.{
  ℕ, ◌+◌, ◌-◌, ◌*◌, Bool, true, false, ◌&&◌, List, [], ◌∷◌, ◌≡◌, refl, arith, if◌then◌else◌, leb,
}
use benchhand.Prelude.Text.{Text}

is_high : ℕ → Bool
is_high u = leb 0xd800 u && leb u 0xdbff

is_low : ℕ → Bool
is_low u = leb 0xdc00 u && leb u 0xdfff

abbrev joined_point : ℕ → ℕ → ℕ
joined_point high low = 0x10000 + (high - 0xd800) * 1024 + (low - 0xdc00)

-- `Array.from(text)`: a surrogate pair is one code point.
code_points : Text → List ℕ
unfolding is_high is_low
code_points [] = []
code_points (a ∷ []) = a ∷ []
code_points (a ∷ b ∷ s) =
    let pair = joined_point a b ∷ code_points s in
    let single = a ∷ code_points (b ∷ s) in if is_high a && is_low b then pair else single

-- The first difference decides, and then the length.
compare_points : List ℕ → List ℕ → Ordering
compare_points [] [] = eq
compare_points [] (_ ∷ _) = lt
compare_points (_ ∷ _) [] = gt
compare_points (a ∷ s) (b ∷ t) =
    let rest = compare_points s t in elim (compare a b) [ lt ↦ lt | gt ↦ gt | eq ↦ rest ]

unfoldable pub compare_code_points : Text → Text → Ordering
unfolding code_points compare_points
compare_code_points left right = compare_points (code_points left) (code_points right)

abbrev flip : Ordering → Ordering
flip lt = gt
flip gt = lt
flip eq = eq

compare_points_refl : (s : List ℕ) → compare_points s s ≡ eq
unfolding compare_points
compare_points_refl [] = refl
compare_points_refl (a ∷ s) = ground (arith, compare_points_refl s)

compare_points-flip : (s t : List ℕ) → compare_points t s ≡ flip (compare_points s t)
unfolding compare_points
compare_points-flip [] [] = refl
compare_points-flip [] (_ ∷ _) = refl
compare_points-flip (_ ∷ _) [] = refl
compare_points-flip (a ∷ s) (b ∷ t) = ground (arith, compare_points-flip s t)

compare_points_trans :
    (s t u : List ℕ) → compare_points s t ≡ lt → compare_points t u ≡ lt → compare_points s u ≡ lt
unfolding compare_points
compare_points_trans [] [] u h k = cc
compare_points_trans [] (b ∷ t) [] h k = cc
compare_points_trans [] (b ∷ t) (c ∷ u) h k = refl
compare_points_trans (a ∷ s) [] u h k = cc
compare_points_trans (a ∷ s) (b ∷ t) [] h k = cc
compare_points_trans (a ∷ s) (b ∷ t) (c ∷ u) h k = ground (arith, compare_points_trans s t u)

compare_points-eq : (s t : List ℕ) → compare_points s t ≡ eq → s ≡ t
unfolding compare_points
compare_points-eq [] [] h = refl
compare_points-eq [] (_ ∷ _) h = cc
compare_points-eq (_ ∷ _) [] h = cc
compare_points-eq (a ∷ s) (b ∷ t) h = ground (arith, compare_points-eq s t)

pub compare_code_points_refl : (s : Text) → compare_code_points s s ≡ eq
unfolding compare_code_points
compare_code_points_refl s = compare_points_refl (code_points s)

-- `left` comes strictly before `right`.
abbrev pub before : Text → Text → Bool
before left right = elim (compare_code_points left right) [ lt ↦ true | eq ↦ false | gt ↦ false ]

-- `compareCodePoints(left, right) > 0`
abbrev pub after : Text → Text → Bool
after left right = elim (compare_code_points left right) [ lt ↦ false | eq ↦ false | gt ↦ true ]

-- One text comes after another exactly when that one comes before it.
pub after-before : (s t : Text) → after s t ≡ before t s
unfolding compare_code_points
after-before s t = ground (arith, compare_points-flip (code_points t) (code_points s))

-- The order is transitive, and no text comes before itself.
pub before_trans : (s t u : Text) → before s t ≡ true → before t u ≡ true → before s u ≡ true
unfolding compare_code_points
before_trans s t u h k =
    ground (arith, compare_points_trans (code_points s) (code_points t) (code_points u))

pub before_irrefl : (s : Text) → before s s ≡ false
before_irrefl s = ground (arith, compare_code_points_refl s)
