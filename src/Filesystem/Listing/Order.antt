-- ===== src/Filesystem/Listing/Order.antt =====
-- The order of a listing, from the directory to its pages.
use mathlib.Core.List.{Perm}
use mathlib.Core.List.Perm
use benchhand.Prelude.{
  ℕ, ◌≤◌, true, Option, none, List, [], ◌∷◌, ◌≡◌, ◌⊎◌, inl, inr, map, length, All, arith,
  Bool-cases,
}
use benchhand.Prelude.Text.{Text}
use benchhand.CodePoints.{before, after, after-before, before_trans}
use benchhand.Filesystem.Listing.{
  FilesystemListEntry, Dirent, insert_entry, sort_entries, list_entry, listed_entries,
}
use benchhand.Filesystem.Listing.Pages.{IsSorted, follow_cursors, follow_cursors-all}

-- One of the names comes before the other.
abbrev pub Apart : Text → Text → Type 0
Apart s t = (before s t ≡ true) ⊎ (before t s ≡ true)

abbrev pub IsDistinct : List Dirent → Type 0
IsDistinct [] = Unit
IsDistinct (d ∷ ds) = All (λ (e : Dirent). Apart d.name e.name) ds × IsDistinct ds

insert_entry-All :
    (P : Text → Type 0) (e : FilesystemListEntry) (fs : List FilesystemListEntry)
    → P e.name
    → All (λ f. P f.name) fs
    → All (λ f. P f.name) (insert_entry e fs)
unfolding insert_entry
insert_entry-All P e [] p h = (p, tt)
insert_entry-All P e (f ∷ fs) p (q, h) = elim (Bool-cases (after e.name f.name)) [
  | inl later ↦ rw later (q, insert_entry-All P e fs p h)
  | inr first ↦ rw first (p, (q, h))
]

before-All :
    (s t : Text) (fs : List FilesystemListEntry)
    → before s t ≡ true
    → All (λ f. before t f.name ≡ true) fs
    → All (λ f. before s f.name ≡ true) fs
before-All s t [] b h = tt
before-All s t (f ∷ fs) b (c, h) = (before_trans s t f.name b c, before-All s t fs b h)

insert_entry-IsSorted :
    (e : FilesystemListEntry) (fs : List FilesystemListEntry)
    → All (λ f. Apart e.name f.name) fs
    → IsSorted fs
    → IsSorted (insert_entry e fs)
unfolding insert_entry
insert_entry-IsSorted e [] a h = (tt, tt)
insert_entry-IsSorted e (f ∷ fs) (p, a) (b, h) = elim (Bool-cases (after e.name f.name)) [
  | inl later ↦
      let f_first : before f.name e.name ≡ true =
        ground (arith, after-before e.name f.name, later) in
      rw later (
        insert_entry-All (λ n. before f.name n ≡ true) e fs f_first b,
        insert_entry-IsSorted e fs a h,
      )
  | inr first ↦
      let e_first : before e.name f.name ≡ true = elim p [
        | inl q ↦ q
        | inr q ↦ absurd (ground (arith, after-before e.name f.name, first, q))
      ] in
      rw first ((e_first, before-All e.name f.name fs e_first b), (b, h))
]

sort_entries-All :
    (P : Text → Type 0) (size_of : Dirent → Option ℕ) (path : Text) (ds : List Dirent)
    → All (λ (d : Dirent). P d.name) ds
    → All (λ f. P f.name) (sort_entries (map (list_entry size_of path) ds))
unfolding sort_entries list_entry
sort_entries-All P size_of path [] h = tt
sort_entries-All P size_of path (d ∷ ds) (p, h) =
    insert_entry-All P (list_entry size_of path d) _ p (sort_entries-All P size_of path ds h)

listed_entries-IsSorted :
    (size_of : Dirent → Option ℕ) (path : Text) (ds : List Dirent)
    → IsDistinct ds
    → IsSorted (listed_entries size_of path ds)
unfolding listed_entries sort_entries list_entry
listed_entries-IsSorted size_of path [] h = tt
listed_entries-IsSorted size_of path (d ∷ ds) (p, h) =
    insert_entry-IsSorted (list_entry size_of path d) _
      (sort_entries-All (λ n. Apart d.name n) size_of path ds p)
      (listed_entries-IsSorted size_of path ds h)

insert_entry-Perm :
    (e : FilesystemListEntry) (fs : List FilesystemListEntry) → Perm (insert_entry e fs) (e ∷ fs)
unfolding insert_entry
insert_entry-Perm e [] = Perm.refl (e ∷ [])
insert_entry-Perm e (f ∷ fs) = elim (Bool-cases (after e.name f.name)) [
  | inl later ↦ rw later (Perm.trans (Perm.cons f (insert_entry-Perm e fs)) (Perm.swap e f fs))
  | inr first ↦ rw first (Perm.refl (e ∷ f ∷ fs))
]

sort_entries-Perm : (es : List FilesystemListEntry) → Perm (sort_entries es) es
unfolding sort_entries
sort_entries-Perm [] = Perm.refl []
sort_entries-Perm (e ∷ es) =
    Perm.trans (insert_entry-Perm e (sort_entries es)) (Perm.cons e (sort_entries-Perm es))

listed_entries-Perm :
    (size_of : Dirent → Option ℕ) (path : Text) (ds : List Dirent)
    → Perm (listed_entries size_of path ds) (map (list_entry size_of path) ds)
unfolding listed_entries
listed_entries-Perm size_of path ds = sort_entries-Perm (map (list_entry size_of path) ds)

-- In a directory whose names are all apart in the code point order, the listing has exactly one entry
-- for each of the directory's names, made from it, and is in order; and the pages from the first one
-- on, of any limit above 0, give the whole listing, within as many requests as it has entries.
pub list_all_pages :
    (size_of : Dirent → Option ℕ) (path : Text) (dirents : List Dirent) (rounds limit : ℕ)
    → IsDistinct dirents
    → 1 ≤ limit
    → length (listed_entries size_of path dirents) ≤ rounds
    → Perm (listed_entries size_of path dirents) (map (list_entry size_of path) dirents)
      × IsSorted (listed_entries size_of path dirents)
      × (follow_cursors rounds (listed_entries size_of path dirents) none limit
          ≡ listed_entries size_of path dirents)
list_all_pages size_of path dirents rounds limit apart some_limit enough =
    let sorted = listed_entries-IsSorted size_of path dirents apart in
    (
      listed_entries-Perm size_of path dirents,
      sorted,
      follow_cursors-all rounds (listed_entries size_of path dirents) limit sorted some_limit
          enough,
    )
