-- ===== src/Filesystem/Listing.antt =====
-- Directory listings in pages: the part of `FilesystemService.list` of
-- packages/filesystem/src/index.ts that follows the reading of the directory. The cursor's base64
-- JSON text is left out: the model passes on the name that it holds.
pub mod Pages
pub mod Order
use Prim.Native.Nat.{Ordering, lt, eq, gt}
use benchhand.Prelude.{
  ℕ, suc, ◌+◌, Bool, true, false, ◌&&◌, Option, none, some, List, [], ◌∷◌, if◌then◌else◌, ltb,
  length, take, drop, map,
}
use benchhand.Prelude.Text.{Text}
use benchhand.Filesystem.Path.{join_portable}
use benchhand.CodePoints.{compare_code_points, before, after}

pub data FileEntryType : Type 0 where
  file directory symlink other : FileEntryType

pub record FilesystemListEntry : Type 0 where
  pub name : Text
  pub path : Text
  pub type : FileEntryType
  pub size : Option ℕ

-- What a directory entry answers; `isFile` is asked first.
pub record Dirent : Type 0 where
  pub name : Text
  pub is_file : Bool
  pub is_directory : Bool
  pub is_symbolic_link : Bool

unfoldable pub dirent_type : Dirent → FileEntryType
dirent_type dirent =
    if dirent.is_file
    then file
    else if dirent.is_directory
    then directory
    else if dirent.is_symbolic_link
    then symlink
    else other

-- `readEntryMetadata`: `size_of` is the size that `lstat` gives, or none if that is no safe integer.
unfoldable pub read_entry_metadata : (size_of : Dirent → Option ℕ) → Dirent → ℕ
read_entry_metadata size_of dirent =
    if dirent.is_symbolic_link then 0 else elim (size_of dirent) [ none ↦ 0 | some size ↦ size ]

is_file_type : FileEntryType → Bool
is_file_type file = true
is_file_type _ = false

unfoldable pub list_entry : (Dirent → Option ℕ) → Text → Dirent → FilesystemListEntry
unfolding read_entry_metadata dirent_type is_file_type join_portable
list_entry size_of path dirent = record {
  name = dirent.name;
  path = join_portable path dirent.name;
  type = dirent_type dirent;
  size =
      if is_file_type (dirent_type dirent) then some (read_entry_metadata size_of dirent) else none;
}

-- The stable sort by name
insert_entry : FilesystemListEntry → List FilesystemListEntry → List FilesystemListEntry
insert_entry e [] = e ∷ []
insert_entry e (f ∷ fs) = if after e.name f.name then f ∷ insert_entry e fs else e ∷ f ∷ fs

unfoldable pub sort_entries : List FilesystemListEntry → List FilesystemListEntry
unfolding insert_entry
sort_entries [] = []
sort_entries (e ∷ es) = insert_entry e (sort_entries es)

-- `listed.findIndex(…)`, with `listed.length` for -1
start_after : Text → List FilesystemListEntry → ℕ
start_after name [] = 0
start_after name (e ∷ es) =
    let later = suc (start_after name es) in if after e.name name then 0 else later

start_of : Option Text → List FilesystemListEntry → ℕ
unfolding start_after
start_of none listed = 0
start_of (some name) listed = start_after name listed

-- `page.at(-1)?.name ?? ''`
last_name : List FilesystemListEntry → Text
last_name [] = []
last_name (e ∷ []) = e.name
last_name (e ∷ f ∷ es) = last_name (f ∷ es)

unfoldable pub listed_entries : (Dirent → Option ℕ) → Text → List Dirent → List FilesystemListEntry
unfolding list_entry sort_entries
listed_entries size_of path dirents = sort_entries (map (list_entry size_of path) dirents)

pub record FilesystemListPage : Type 0 where
  pub entries : List FilesystemListEntry
  pub next_cursor : Option Text

unfoldable pub list_page : List FilesystemListEntry → Option Text → ℕ → FilesystemListPage
unfolding start_of last_name
list_page listed cursor limit =
    let start = start_of cursor listed in
    let page = take limit (drop start listed) in
    let has_more = ltb (start + length page) (length listed) in
    record {
      entries = page;
      next_cursor = if has_more && ltb 0 (length page) then some (last_name page) else none;
    }
