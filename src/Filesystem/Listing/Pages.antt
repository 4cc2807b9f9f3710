-- ===== src/Filesystem/Listing/Pages.antt =====
-- The pages of `FilesystemService.list`, requested one after another.
use native.Mathlib.Nat.{suc-add, zero-add}
use benchhand.Prelude.{
  ℕ, zero, suc, ◌+◌, ◌-◌, ◌≤◌, ◌<◌, Bool, true, false, ◌&&◌, Option, none, some, List, [], ◌∷◌,
  ◌++◌, ◌≡◌, refl, sym, ap, ◌∙◌, arith, if◌then◌else◌, ltb, length, take, drop, length-take,
  length-drop, All,
}
use benchhand.Prelude.Text.{Text}
use benchhand.CodePoints.{before, after-before, before_irrefl}
use benchhand.Filesystem.Patch.Occurrences.{drop-drop}
use benchhand.Filesystem.Listing.{
  FilesystemListEntry, FilesystemListPage, start_after, start_of, last_name, list_page,
}

-- Every entry comes strictly before the later ones: the names are sorted, and no name is twice there.
abbrev pub IsSorted : List FilesystemListEntry → Type 0
IsSorted [] = Unit
IsSorted (e ∷ es) = All (λ f. before e.name f.name ≡ true) es × IsSorted es

follow_next :
    (Option Text → List FilesystemListEntry) → FilesystemListPage → List FilesystemListEntry
follow_next later page =
    page.entries ++ elim page.next_cursor [ none ↦ [] | some c ↦ later (some c) ]

-- All the pages from a cursor on, one after another, for at most `rounds` requests.
unfoldable pub follow_cursors :
    ℕ → List FilesystemListEntry → Option Text → ℕ → List FilesystemListEntry
unfolding follow_next
follow_cursors zero listed cursor limit = []
follow_cursors (suc rounds) listed cursor limit =
    follow_next (λ c. follow_cursors rounds listed c limit) (list_page listed cursor limit)

name_at : ℕ → List FilesystemListEntry → Text
name_at i [] = []
name_at zero (e ∷ _) = e.name
name_at (suc i) (_ ∷ es) = name_at i es

name_at-take :
    (i n : ℕ) (es : List FilesystemListEntry)
    → i < length (take n es)
    → name_at i (take n es) ≡ name_at i es
unfolding name_at
name_at-take i zero es h = elim h [ ]
name_at-take i (suc n) [] h = elim h [ ]
name_at-take zero (suc n) (e ∷ es) h = refl
name_at-take (suc i) (suc n) (e ∷ es) h = name_at-take i n es (omega arith)

name_at-drop :
    (i n : ℕ) (es : List FilesystemListEntry) → name_at i (drop n es) ≡ name_at (n + i) es
unfolding name_at
name_at-drop i zero es = rw zero-add
name_at-drop zero (suc n) [] = refl
name_at-drop (suc i) (suc n) [] = refl
name_at-drop i (suc n) (e ∷ es) = rw suc-add (name_at-drop i n es)

last_name-at : (es : List FilesystemListEntry) → last_name es ≡ name_at (length es - 1) es
unfolding last_name name_at
last_name-at [] = refl
last_name-at (e ∷ []) = refl
last_name-at (e ∷ f ∷ es) =
    let step : suc (suc (length es)) - 1 ≡ suc (suc (length es) - 1) = omega arith in
    rw step (last_name-at (f ∷ es))

name_at-All :
    (P : Text → Type 0) (i : ℕ) (es : List FilesystemListEntry)
    → i < length es
    → All (λ f. P f.name) es
    → P (name_at i es)
unfolding name_at
name_at-All P i [] h all = elim h [ ]
name_at-All P zero (e ∷ es) h (p, all) = p
name_at-All P (suc i) (e ∷ es) h (p, all) = name_at-All P i es (omega arith) all

-- The search behind the name at a position stops right behind that position.
start_after-name_at :
    (i : ℕ) (es : List FilesystemListEntry)
    → i < length es
    → IsSorted es
    → start_after (name_at i es) es ≡ suc i
unfolding start_after name_at
start_after-name_at i [] h sorted = elim h [ ]
start_after-name_at zero (e ∷ []) h sorted =
    ground (arith, before_irrefl e.name, after-before e.name e.name)
start_after-name_at zero (e ∷ f ∷ es) h ((b, _), sorted) =
    ground (arith, before_irrefl e.name, after-before e.name e.name, after-before f.name e.name)
start_after-name_at (suc i) (e ∷ es) h (b, sorted) =
    let earlier = name_at-All (λ n. before e.name n ≡ true) i es (omega arith) b in
    ground (arith, earlier, start_after-name_at i es (omega arith) sorted)

take-length-drop :
    {A : Type 0} (n : ℕ) (xs : List A) → take n xs ++ drop (length (take n xs)) xs ≡ xs
take-length-drop zero xs = refl
take-length-drop (suc n) [] = refl
take-length-drop (suc n) (x ∷ xs) = rw (take-length-drop n xs)

drop_all : {A : Type 0} (n : ℕ) (xs : List A) → length xs ≤ n → drop n xs ≡ []
drop_all zero [] h = refl
drop_all (suc n) [] h = refl
drop_all zero (x ∷ xs) h = elim h [ ]
drop_all (suc n) (x ∷ xs) h = drop_all n xs (omega arith)

next_start :
    (n limit : ℕ) (listed : List FilesystemListEntry)
    → IsSorted listed
    → 0 < length (take limit (drop n listed))
    → start_after (last_name (take limit (drop n listed))) listed
      ≡ n + length (take limit (drop n listed))
next_start n limit listed sorted some_entry =
    let page = take limit (drop n listed) in
    let k = length page - 1 in
    let inside = name_at-take k limit (drop n listed) (omega (arith, some_entry)) in
    let fits : n + k < length listed =
      omega (arith, some_entry, length-take limit (drop n listed), length-drop n listed) in
    let position : suc (n + k) ≡ n + length page = omega (arith, some_entry) in
    ap (λ name. start_after name listed) (last_name-at page ∙ inside ∙ name_at-drop k n listed)
    ∙ start_after-name_at (n + k) listed fits sorted
    ∙ position

rest_of_page :
    (n limit : ℕ) (listed : List FilesystemListEntry)
    → take limit (drop n listed) ++ drop (n + length (take limit (drop n listed))) listed
      ≡ drop n listed
rest_of_page n limit listed =
    rw (← drop-drop (length (take limit (drop n listed))) n listed)
      (take-length-drop limit (drop n listed))

-- The page is followed by the rest of the listing when the next cursor leads there.
follow_page :
    (n limit : ℕ) (listed : List FilesystemListEntry) (more : Bool)
    (later : Option Text → List FilesystemListEntry)
    → (more ≡ true
        → later (some (last_name (take limit (drop n listed))))
          ≡ drop (n + length (take limit (drop n listed))) listed)
    → (more ≡ false → length listed ≤ n + length (take limit (drop n listed)))
    → follow_next later (record {
      entries = take limit (drop n listed);
      next_cursor = if more then some (last_name (take limit (drop n listed))) else none;
    })
      ≡ drop n listed
unfolding follow_next
follow_page n limit listed true later next ends =
    ap (λ es. take limit (drop n listed) ++ es) (next refl) ∙ rest_of_page n limit listed
follow_page n limit listed false later next ends =
    ap (λ es. take limit (drop n listed) ++ es)
      (sym (drop_all (n + length (take limit (drop n listed))) listed (ends refl)))
    ∙ rest_of_page n limit listed

follow_cursors-drop :
    (rounds : ℕ) (listed : List FilesystemListEntry) (cursor : Option Text) (limit : ℕ)
    → IsSorted listed
    → 1 ≤ limit
    → length listed ≤ rounds + start_of cursor listed
    → follow_cursors rounds listed cursor limit ≡ drop (start_of cursor listed) listed
unfolding follow_cursors list_page start_of
follow_cursors-drop zero listed cursor limit sorted some_limit enough =
    sym (drop_all (start_of cursor listed) listed (omega arith))
follow_cursors-drop (suc rounds) listed cursor limit sorted some_limit enough =
    let n = start_of cursor listed in
    let page = take limit (drop n listed) in
    follow_page n limit listed (ltb (n + length page) (length listed) && ltb 0 (length page))
      (λ c. follow_cursors rounds listed c limit)
      (λ more.
        let some_entry : 0 < length page = ground (arith, more) in
        let next = next_start n limit listed sorted some_entry in
        follow_cursors-drop rounds listed (some (last_name page)) limit sorted some_limit
          (omega (arith, next, enough, some_entry))
        ∙ ap (λ k. drop k listed) next)
      (λ none_left.
        ground (arith, none_left, length-take limit (drop n listed), length-drop n listed))

-- Following the cursors from the first page on, with any limit above 0, gives a sorted listing
-- without two equal names back: each entry once, in order, within as many requests as it has entries.
pub follow_cursors-all :
    (rounds : ℕ) (listed : List FilesystemListEntry) (limit : ℕ)
    → IsSorted listed
    → 1 ≤ limit
    → length listed ≤ rounds
    → follow_cursors rounds listed none limit ≡ listed
unfolding start_of
follow_cursors-all rounds listed limit sorted some_limit enough =
    follow_cursors-drop rounds listed none limit sorted some_limit (omega arith)
