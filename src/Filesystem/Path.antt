-- ===== src/Filesystem/Path.antt =====
-- `normalizeRelativePath`, `joinPortable`, `boundedInteger` and `validateSearchString` of
-- packages/filesystem/src/index.ts.
pub mod Laws
use benchhand.Prelude.{
  ℕ, Bool, true, false, ◌||◌, not, Option, none, some, List, [], ◌∷◌, ◌++◌, if◌then◌else◌, ltb,
  Result, ok, err, ◌>>=◌, ◌>>◌, throw_if, length,
}
use benchhand.Prelude.Text.{Text, text_eq, join, includes_nul}
use benchhand.Contracts.Value.{Number, nat, finite, infinite, nan}
use benchhand.Paths.{slash, dot, is_absolute_posix, is_absolute_win32, segments_of, has_dot_dot}
use benchhand.Filesystem.Errors.{
  FilesystemError, failure, invalid_path, invalid_request, path_outside_workspace,
}

-- `platform_absolute` is `isAbsolute` of the platform that the daemon runs on.
module _ (platform_absolute : Text → Bool) where
  join_segments : Bool → Text → List Text → Result FilesystemError Text
  join_segments allow_root input [] =
      if not allow_root then err (failure invalid_path (some input)) else ok dot
  join_segments allow_root input (s ∷ segments) = ok (join slash (s ∷ segments))

  unfoldable pub normalize_relative_path : Text → Bool → Result FilesystemError Text
  unfolding join_segments
  normalize_relative_path input allow_root = do
    throw_if (includes_nul input) (failure invalid_path none)
    throw_if (is_absolute_posix input || is_absolute_win32 input || platform_absolute input)
        (failure path_outside_workspace (some input))
    throw_if (has_dot_dot (segments_of input)) (failure path_outside_workspace (some input))
    join_segments allow_root input (segments_of input)

unfoldable pub join_portable : Text → Text → Text
join_portable base name = if text_eq base dot then name else base ++ slash ∷ name

abbrev pub max_safe_integer : ℕ
max_safe_integer = 9007199254740991

-- Every minimum that the program passes is at least 0, so a negative or fractional number is
-- refused like an infinite one.
unfoldable pub bounded_integer : Number → ℕ → ℕ → Result FilesystemError ℕ
bounded_integer (nat value) minimum maximum =
    if ltb max_safe_integer value || ltb value minimum || ltb maximum value
    then err (failure invalid_request none)
    else ok value
bounded_integer _ minimum maximum = err (failure invalid_request none)

-- The length is in UTF-16 code units.
unfoldable pub validate_search_string : Text → ℕ → ℕ → Result FilesystemError Text
validate_search_string value minimum maximum =
    if ltb (length value) minimum || ltb maximum (length value) || includes_nul value
    then err (failure invalid_request none)
    else ok value
