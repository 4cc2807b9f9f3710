-- ===== src/Filesystem/Search.antt =====
-- The budget of a search: `appendSearchMatch` and `boundedPreview` of
-- packages/filesystem/src/index.ts.
pub mod Budget
use benchhand.Prelude.{
  ℕ, ◌+◌, Bool, true, false, ◌||◌, Option, none, some, List, [], ◌∷◌, ◌++◌, if◌then◌else◌, ltb, leb,
  length, take,
}
use benchhand.Prelude.Text.{Text}

pub record FilesystemSearchMatch : Type 0 where
  pub path : Text
  pub line : Option ℕ
  pub column : Option ℕ
  pub preview : Option Text

-- The part of `SearchState` that the budget needs.
pub record SearchState : Type 0 where
  pub matches : List FilesystemSearchMatch
  pub truncated : Bool
  pub output_bytes : ℕ

abbrev pub preview_characters : ℕ
preview_characters = 300

-- A preview that was cut ends with an ellipsis.
unfoldable pub bounded_preview : Text → Text
bounded_preview line =
    if leb (length line) preview_characters
    then line
    else take preview_characters line ++ 0x2026 ∷ []

-- `byte_length` is `Buffer.byteLength(…, 'utf8')`.
module _ (byte_length : Text → ℕ) where
  abbrev pub estimated_bytes : FilesystemSearchMatch → ℕ
  estimated_bytes match =
      byte_length match.path
      + elim match.preview [ none ↦ 0 | some preview ↦ byte_length preview ]
      + 64

  unfoldable pub append_search_match : SearchState → FilesystemSearchMatch → ℕ → ℕ → SearchState
  append_search_match state match max_results max_bytes =
      if leb max_results (length state.matches)
        || ltb max_bytes (state.output_bytes + estimated_bytes match)
      then record state { truncated = true }
      else record state {
        matches = state.matches ++ match ∷ [];
        output_bytes = state.output_bytes + estimated_bytes match;
      }
