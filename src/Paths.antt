-- ===== src/Paths.antt =====
-- Relative paths of requests: the steps that `normalizeRelativePath` of
-- packages/filesystem/src/index.ts and of packages/instructions/src/index.ts have in common, and
-- Node's tests for absolute paths.
pub mod Segments
pub mod Joined
use benchhand.Prelude.{
  ℕ, Bool, true, false, ◌&&◌, ◌||◌, not, List, [], ◌∷◌, if◌then◌else◌, ◌==◌, leb, keep, any,
}
use benchhand.Prelude.Text.{Text, codes, text_eq, split, join, replace_unit}

abbrev pub slash : ℕ
slash = b'/'

abbrev pub backslash : ℕ
backslash = b'\\'

-- `posix.isAbsolute`
unfoldable pub is_absolute_posix : Text → Bool
is_absolute_posix [] = false
is_absolute_posix (c ∷ _) = c == slash

is_separator : ℕ → Bool
is_separator c = c == slash || c == backslash

is_letter : ℕ → Bool
is_letter c = (leb b'a' c && leb c b'z') || (leb b'A' c && leb c b'Z')

-- `win32.isAbsolute`: a separator, or a drive, a colon and a separator
unfoldable pub is_absolute_win32 : Text → Bool
unfolding is_separator is_letter
is_absolute_win32 [] = false
is_absolute_win32 (c ∷ d ∷ e ∷ _) = is_separator c || (is_letter c && d == b':' && is_separator e)
is_absolute_win32 (c ∷ _) = is_separator c

abbrev pub is_empty : Text → Bool
is_empty [] = true
is_empty (_ ∷ _) = false

abbrev pub dot : Text
dot = codes "."

abbrev pub dot_dot : Text
dot_dot = codes ".."

-- `segment.length > 0 && segment !== '.'`
abbrev pub is_kept : Text → Bool
is_kept segment = not (is_empty segment) && not (text_eq segment dot)

-- `input.replaceAll('\\', '/').split('/').filter(…)`
unfoldable pub segments_of : Text → List Text
segments_of input = keep is_kept (split slash (replace_unit backslash slash input))

abbrev pub has_dot_dot : List Text → Bool
has_dot_dot segments = any (λ segment. text_eq segment dot_dot) segments
