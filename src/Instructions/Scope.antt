-- ===== src/Instructions/Scope.antt =====
-- `normalizeRelativePath` and `buildScopeChain` of packages/instructions/src/index.ts.
pub mod Chain
use benchhand.Prelude.{
  ℕ, zero, suc, ◌+◌, Bool, true, false, ◌||◌, Option, none, some, List, [], ◌∷◌, if◌then◌else◌, ltb,
  ◌==◌, length, take, Result, ok, err, ◌>>=◌, ◌>>◌, throw_if,
}
use benchhand.Prelude.Text.{Text, text_eq, split, join, includes_nul}
use benchhand.Paths.{slash, dot, is_absolute_posix, is_absolute_win32, segments_of, has_dot_dot}

pub data InstructionsErrorCode : Type 0 where
  invalid_path path_outside_workspace scope_too_deep : InstructionsErrorCode
  invalid_provider_output instruction_too_large instructions_too_large : InstructionsErrorCode

-- `InstructionsError`, without its message
pub record InstructionsError : Type 0 where
  pub code : InstructionsErrorCode
  pub path : Option Text

abbrev pub failed : InstructionsErrorCode → Option Text → InstructionsError
failed code path = record { code = code; path = path }

abbrev pub max_scope_depth : ℕ
max_scope_depth = 128

-- `segments.length === 0 ? '.' : segments.join('/')`
abbrev pub joined_segments : List Text → Text
joined_segments [] = dot
joined_segments (s ∷ segments) = join slash (s ∷ segments)

module _ (platform_absolute : Text → Bool) where
  unfoldable pub normalize_relative_path : Text → Result InstructionsError Text
  normalize_relative_path input = do
    throw_if (includes_nul input) (failed invalid_path none)
    throw_if (is_absolute_posix input || is_absolute_win32 input || platform_absolute input)
        (failed path_outside_workspace (some input))
    throw_if (has_dot_dot (segments_of input)) (failed path_outside_workspace (some input))
    throw_if (ltb max_scope_depth (length (segments_of input))) (failed scope_too_deep (some input))
    ok (joined_segments (segments_of input))

-- The loop over `index`, for as many rounds as are left.
scopes_from : ℕ → ℕ → List Text → List Text
scopes_from zero index segments = []
scopes_from (suc rounds) index segments =
    join slash (take index segments) ∷ scopes_from rounds (index + 1) segments

unfoldable pub build_scope_chain : Text → List Text
unfolding scopes_from
build_scope_chain scope_path =
    if text_eq scope_path dot
    then dot ∷ []
    else dot ∷ scopes_from (length (split slash scope_path)) 1 (split slash scope_path)
