-- ===== src/Filesystem/Tests.antt =====
-- Paths and listings of short names.
use mathlib.Core.List.{Perm}
use benchhand.Prelude.{
  map, inr, length, ℕ, true, false, none, some, List, [], ◌∷◌, ◌≡◌, ◌≢◌, ◌↔◌, ◌⊎◌, ◌≤◌, refl, All,
  ok, arith,
}
use benchhand.Prelude.Text.{Text, join, split, replace_unit, text_eq}
use benchhand.Contracts.Value.{nat}
use benchhand.Paths.{slash, dot, segments_of, is_absolute_posix, is_absolute_win32}
use benchhand.Paths.Segments.{IsName}
use benchhand.CodePoints.{compare_code_points}
use benchhand.Filesystem.Path.{
  validate_search_string, normalize_relative_path, bounded_integer, max_safe_integer,
}
use benchhand.Filesystem.Path.Laws.{
  is_absolute, normalize_relative_path-All, normalize-join, bounded_integer_iff,
  validate_search_string_iff,
}
use benchhand.Filesystem.Listing.{FilesystemListEntry, file, Dirent, list_entry, listed_entries}
use benchhand.Filesystem.Listing.Order.{IsDistinct, list_all_pages}
use benchhand.Filesystem.Search.{FilesystemSearchMatch, SearchState, append_search_match}
use benchhand.Filesystem.Search.Budget.{IsWithin, append_matches, append_matches_budget}
use benchhand.Filesystem.Listing.Pages.{IsSorted, follow_cursors, follow_cursors-all}

-- `a/./b`
abbrev dotted : Text
dotted = 97 ∷ 47 ∷ 46 ∷ 47 ∷ 98 ∷ []

-- `a/b`
abbrev plain_path : Text
plain_path = 97 ∷ 47 ∷ 98 ∷ []

normalizes : normalize_relative_path (λ _. false) dotted false ≡ ok plain_path
unfolding normalize_relative_path is_absolute_posix is_absolute_win32 segments_of split replace_unit
    text_eq join
normalizes = refl

normalize_relative_path-All_example :
    ((plain_path ≡ dot) × (false ≡ true))
    ⊎ ((names : List Text) × (names ≢ []) × All IsName names × (plain_path ≡ join slash names))
normalize_relative_path-All_example =
    normalize_relative_path-All (λ _. false) dotted plain_path false normalizes

letter-IsName : (c : ℕ) → 97 ≤ c → IsName (c ∷ [])
letter-IsName c h = record {
  not_empty = λ e. cc e;
  not_dot = λ e. ground arith;
  not_dot_dot = λ e. ground arith;
  plain = ((λ e. omega (arith, e, h), λ e. omega (arith, e, h), λ e. omega (arith, e, h)), tt);
}

stays_relative : is_absolute (λ _. false) (join slash ((97 ∷ []) ∷ (98 ∷ []) ∷ [])) ≡ false
unfolding is_absolute_posix is_absolute_win32 join
stays_relative = refl

normalize-join_example :
    normalize_relative_path (λ _. false) (join slash ((97 ∷ []) ∷ (98 ∷ []) ∷ [])) false
    ≡ ok (join slash ((97 ∷ []) ∷ (98 ∷ []) ∷ []))
normalize-join_example =
    normalize-join (λ _. false) ((97 ∷ []) ∷ (98 ∷ []) ∷ []) false (λ e. cc e)
      (letter-IsName 97 (omega arith), (letter-IsName 98 (omega arith), tt)) stays_relative

validate_search_string_iff_example :
    (validate_search_string dotted 1 1024 ≡ ok dotted)
    ↔ ((dotted ≡ dotted) × (1 ≤ 5) × (5 ≤ 1024) × (false ≡ false))
validate_search_string_iff_example = validate_search_string_iff dotted dotted 1 1024

bounded_integer_iff_example :
    (bounded_integer (nat 5) 1 100 ≡ ok 5)
    ↔ ((nat 5 ≡ nat 5) × (1 ≤ 5) × (5 ≤ 100) × (5 ≤ max_safe_integer))
bounded_integer_iff_example = bounded_integer_iff (nat 5) 1 100 5

abbrev entry : Text → FilesystemListEntry
entry name = record { name = name; path = name; type = file; size = some 1 }

abbrev three_files : List FilesystemListEntry
three_files = entry (97 ∷ []) ∷ entry (98 ∷ []) ∷ entry (98 ∷ 98 ∷ []) ∷ []

follow_cursors-all_example : follow_cursors 3 three_files none 2 ≡ three_files
unfolding compare_code_points
follow_cursors-all_example =
    follow_cursors-all 3 three_files 2 ((refl, (refl, tt)), ((refl, tt), (tt, tt))) (omega arith)
      (omega arith)

abbrev empty_search : SearchState
empty_search = record { matches = []; truncated = false; output_bytes = 0 }

abbrev match_in : Text → FilesystemSearchMatch
match_in path = record { path = path; line = none; column = none; preview = none }

empty_search-IsWithin : IsWithin length 1 100 empty_search
empty_search-IsWithin = record { results = omega arith; bytes = omega arith; counted = refl }

cuts :
    (append_matches length 1 100 (match_in dotted ∷ match_in dotted ∷ []) empty_search).truncated
    ≡ true
unfolding append_matches append_search_match
cuts = refl

append_matches_budget_example :
    IsWithin length 1 100
      (append_matches length 1 100 (match_in dotted ∷ match_in dotted ∷ []) empty_search)
    × (((append_matches length 1 100
            (match_in dotted ∷ match_in dotted ∷ [])
            empty_search).truncated
          ≡ true)
        ⊎ ((append_matches length 1 100
              (match_in dotted ∷ match_in dotted ∷ [])
              empty_search).matches
            ≡ match_in dotted ∷ match_in dotted ∷ []))
append_matches_budget_example =
    append_matches_budget length 1 100 (match_in dotted ∷ match_in dotted ∷ []) empty_search
      empty_search-IsWithin

abbrev file_named : Text → Dirent
file_named name = record {
  name = name;
  is_file = true;
  is_directory = false;
  is_symbolic_link = false;
}

abbrev two_dirents : List Dirent
two_dirents = file_named (98 ∷ []) ∷ file_named (97 ∷ []) ∷ []

two_dirents-IsDistinct : IsDistinct two_dirents
unfolding compare_code_points
two_dirents-IsDistinct = ((inr refl, tt), (tt, tt))

sorts : listed_entries (λ d. some 1) dot two_dirents ≡ entry (97 ∷ []) ∷ entry (98 ∷ []) ∷ []
unfolding listed_entries compare_code_points text_eq
sorts = refl

two_fit : length (listed_entries (λ d. some 1) dot two_dirents) ≤ 2
two_fit = rw sorts (omega arith)

list_all_pages_example :
    Perm
      (listed_entries (λ d. some 1) dot two_dirents)
      (map (list_entry (λ d. some 1) dot) two_dirents)
    × IsSorted (listed_entries (λ d. some 1) dot two_dirents)
    × (follow_cursors 2 (listed_entries (λ d. some 1) dot two_dirents) none 1
        ≡ listed_entries (λ d. some 1) dot two_dirents)
list_all_pages_example =
    list_all_pages (λ d. some 1) dot two_dirents 2 1 two_dirents-IsDistinct (omega arith) two_fit
