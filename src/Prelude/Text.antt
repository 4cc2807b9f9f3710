-- ===== src/Prelude/Text.antt =====
-- JavaScript strings that the program walks, as their UTF-16 code units, and the string methods
-- that it calls on them.
use Prim.Native.Nat.{ℕ, suc, ◌+◌, ◌-◌, ◌≤◌, ◌<◌, min}
use Prim.Native.Char.{code}
use Prim.Native.String.{String}
use mathlib.Core.Path.{◌≡◌, refl, ap}
use mathlib.Core.Logic.{◌↔◌}
use mathlib.Core.Bool.{Bool, true, false}
use mathlib.Core.List.{List, [], ◌∷◌, ◌++◌}
use mathlib.Core.Option
use mathlib.Core.Option.{Option, none, some}
use native.Mathlib.Omega.{arith}
use benchhand.Prelude.Tests.{◌==◌, if◌then◌else◌}
use benchhand.Prelude.Lists.{length, take, drop, any}

abbrev pub Text : Type 0
Text = List ℕ

-- A literal of the source: all of them are ASCII.
abbrev pub codes : String → Text
codes String.[] = []
codes (String.◌∷◌ c s) = code c ∷ codes s

unfoldable pub text_eq : Text → Text → Bool
text_eq [] [] = true
text_eq [] (_ ∷ _) = false
text_eq (_ ∷ _) [] = false
text_eq (a ∷ s) (b ∷ t) = if a == b then text_eq s t else false

pub text_eq→≡ : (s t : Text) → text_eq s t ≡ true → s ≡ t
unfolding text_eq
text_eq→≡ [] [] h = refl
text_eq→≡ [] (_ ∷ _) h = cc
text_eq→≡ (_ ∷ _) [] h = cc
text_eq→≡ (a ∷ s) (b ∷ t) h = ground (arith, text_eq→≡ s t)

pub text_eq_refl : (s : Text) → text_eq s s ≡ true
unfolding text_eq
text_eq_refl [] = refl
text_eq_refl (a ∷ s) = ground (arith, text_eq_refl s)

pub text_eq_iff : (s t : Text) → (text_eq s t ≡ true) ↔ (s ≡ t)
text_eq_iff s t = (text_eq→≡ s t, λ e. rw e (text_eq_refl t))

-- `s.startsWith(p)`
unfoldable pub starts_with : Text → Text → Bool
starts_with s [] = true
starts_with [] (_ ∷ _) = false
starts_with (a ∷ s) (b ∷ p) = if a == b then starts_with s p else false

-- A text that starts with `p` is `p` and what is left after as many units.
pub starts_with-split : (s p : Text) → starts_with s p ≡ true → s ≡ p ++ drop (length p) s
unfolding starts_with
starts_with-split s [] h = refl
starts_with-split [] (b ∷ p) h = cc
starts_with-split (a ∷ s) (b ∷ p) h = ground (arith, starts_with-split s p)

pub starts_with-append : (p s : Text) → starts_with (p ++ s) p ≡ true
unfolding starts_with
starts_with-append [] s = ground arith
starts_with-append (a ∷ p) s = ground (arith, starts_with-append p s)

-- `s.indexOf(p)`, where `none` is -1
unfoldable pub index_of : Text → Text → Option ℕ
unfolding starts_with
index_of [] p = if starts_with [] p then some 0 else none
index_of (c ∷ s) p =
    let later = Option.map suc (index_of s p) in if starts_with (c ∷ s) p then some 0 else later

-- `s.indexOf(p, from)`: a position behind the end counts as the end
unfoldable pub index_of_from : Text → Text → ℕ → Option ℕ
unfolding index_of
index_of_from s p from =
    let start = min from (length s) in Option.map (λ i. start + i) (index_of (drop start s) p)

-- `s.slice(start, end)` for positions in order
unfoldable pub slice : Text → ℕ → ℕ → Text
slice s start end = take (end - start) (drop start s)

-- `s.includes('\0')`
abbrev pub includes_nul : Text → Bool
includes_nul s = any (λ c. c == 0) s

-- `s.replaceAll(x, y)` for one-unit texts
unfoldable pub replace_unit : ℕ → ℕ → Text → Text
replace_unit x y [] = []
replace_unit x y (c ∷ s) = (if c == x then y else c) ∷ replace_unit x y s

abbrev pub push_head : ℕ → List Text → List Text
push_head c [] = (c ∷ []) ∷ []
push_head c (t ∷ ts) = (c ∷ t) ∷ ts

-- `s.split(x)` for a one-unit separator
unfoldable pub split : ℕ → Text → List Text
split x [] = [] ∷ []
split x (c ∷ s) = let rest = split x s in if c == x then [] ∷ rest else push_head c rest

-- `parts.join(x)` for a one-unit separator
unfoldable pub join : ℕ → List Text → Text
join x [] = []
join x (t ∷ []) = t
join x (t ∷ u ∷ ts) = t ++ x ∷ join x (u ∷ ts)

pub index_of-cons :
    (c : ℕ) (s p : Text)
    → index_of (c ∷ s) p ≡ (if starts_with (c ∷ s) p then some 0 else Option.map suc (index_of s p))
unfolding index_of
index_of-cons c s p = refl

pub index_of-nil : (u : ℕ) (p : Text) → index_of [] (u ∷ p) ≡ none
unfolding index_of
index_of-nil u p = refl

-- A hit lies before the end.
pub index_of-lt-length :
    (s : Text) (u : ℕ) (p : Text) {k : ℕ} → index_of s (u ∷ p) ≡ some k → k < length s
unfolding index_of
index_of-lt-length [] u p h = cc
index_of-lt-length (c ∷ s) u p {k} h =
    behind (starts_with (c ∷ s) (u ∷ p)) (index_of s (u ∷ p)) h
      (λ j e. index_of-lt-length s u p {k = j} e)
  where
    behind :
        (b : Bool) (o : Option ℕ)
        → (if b then some 0 else Option.map suc o) ≡ some k
        → ((j : ℕ) → o ≡ some j → j < length s)
        → k < suc (length s)
    behind true o h ih = ground arith
    behind false none h ih = cc
    behind false (some j) h ih = ground (arith, ih j refl)

pub index_of_from-drop :
    (s p : Text) (from : ℕ)
    → from ≤ length s
    → index_of_from s p from ≡ Option.map (λ i. from + i) (index_of (drop from s) p)
unfolding index_of_from
index_of_from-drop s p from h =
    let clamped : min from (length s) ≡ from = omega arith in
    ap (λ n. Option.map (λ i. n + i) (index_of (drop n s) p)) clamped

pub starts_with-shorter : (s p : Text) → starts_with s p ≡ true → length p ≤ length s
unfolding starts_with
starts_with-shorter s [] h = omega arith
starts_with-shorter [] (b ∷ p) h = cc
starts_with-shorter (a ∷ s) (b ∷ p) h = ground (arith, starts_with-shorter s p)
