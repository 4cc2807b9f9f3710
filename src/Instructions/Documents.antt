-- ===== src/Instructions/Documents.antt =====
-- The documents of `InstructionsService.resolve` of packages/instructions/src/index.ts: the checks of
-- `normalizeContribution`, the order within a provider, and the budget of all documents.
pub mod Budget
use Prim.Native.Nat.{Ordering, lt, eq, gt}
use benchhand.Prelude.{
  ℕ, ◌+◌, ◌*◌, Bool, true, false, ◌||◌, Option, none, some, List, [], ◌∷◌, ◌++◌, if◌then◌else◌, ltb,
  ◌==◌, length, Result, ok, err, ◌>>=◌, ◌>>◌, throw_if,
}
use benchhand.Prelude.Text.{Text, includes_nul}
use benchhand.CodePoints.{compare_code_points}
use benchhand.Instructions.Scope.{
  InstructionsError, failed, invalid_provider_output, instruction_too_large, instructions_too_large,
}

abbrev pub max_instruction_bytes : ℕ
max_instruction_bytes = 262144

abbrev pub max_total_instruction_bytes : ℕ
max_total_instruction_bytes = 1048576

pub record InstructionProviderContribution : Type 0 where
  pub source_id : Text
  pub content : Text
  pub path : Option Text

pub record InstructionDocument : Type 0 where
  pub provider_id : Text
  pub scope_path : Text
  pub source_id : Text
  pub path : Option Text
  pub content : Text
  pub sha256 : Text

-- `path !== null && (path.length === 0 || path.includes('\0'))`
bad_path : Option Text → Bool
bad_path none = false
bad_path (some path) = length path == 0 || includes_nul path

-- `path ?? ''`
abbrev or_empty : Option Text → Text
or_empty none = []
or_empty (some path) = path

-- `a || b` on the results of comparisons
or_else : Ordering → Ordering → Ordering
or_else lt other = lt
or_else gt other = gt
or_else eq other = other

unfoldable pub compare_documents : InstructionDocument → InstructionDocument → Ordering
unfolding or_else
compare_documents left right = or_else (compare_code_points left.source_id right.source_id) (
    or_else (compare_code_points (or_empty left.path) (or_empty right.path))
      (compare_code_points left.sha256 right.sha256))

comes_after : Ordering → Bool
comes_after gt = true
comes_after _ = false

-- The stable sort within a provider
insert_document : InstructionDocument → List InstructionDocument → List InstructionDocument
unfolding comes_after
insert_document d [] = d ∷ []
insert_document d (e ∷ es) =
    let later = insert_document d es in
    if comes_after (compare_documents d e) then e ∷ later else d ∷ e ∷ es

pub sort_documents : List InstructionDocument → List InstructionDocument
unfolding insert_document
sort_documents [] = []
sort_documents (d ∷ ds) = insert_document d (sort_documents ds)

-- `documents` and `totalBytes`
pub record Resolved : Type 0 where
  pub documents : List InstructionDocument
  pub total_bytes : ℕ

-- What one provider answered at one scope.
pub record Contributed : Type 0 where
  pub provider_id : Text
  pub scope : Text
  pub contributions : List InstructionProviderContribution

-- `byte_length` is `Buffer.byteLength(…, 'utf8')`, `sha256` the digest in hexadecimal.
module _ (byte_length : Text → ℕ) (sha256 : Text → Text) where
  unfoldable pub normalize_contribution :
      Text → Text → InstructionProviderContribution → Result InstructionsError InstructionDocument
  unfolding bad_path
  normalize_contribution provider_id scope_path contribution = do
    throw_if (length contribution.source_id == 0 || includes_nul contribution.source_id)
        (failed invalid_provider_output (some scope_path))
    throw_if (includes_nul contribution.content) (failed invalid_provider_output (some scope_path))
    throw_if (ltb max_instruction_bytes (byte_length contribution.content))
        (failed instruction_too_large (some scope_path))
    throw_if (bad_path contribution.path) (failed invalid_provider_output (some scope_path))
    ok (record {
      provider_id = provider_id;
      scope_path = scope_path;
      source_id = contribution.source_id;
      path = contribution.path;
      content = contribution.content;
      sha256 = sha256 contribution.content;
    })

  normalize_all :
      Text
      → Text
      → List InstructionProviderContribution
      → Result InstructionsError (List InstructionDocument)
  unfolding normalize_contribution
  normalize_all provider_id scope [] = ok []
  normalize_all provider_id scope (contribution ∷ contributions) = do
    document ← normalize_contribution provider_id scope contribution
    documents ← normalize_all provider_id scope contributions
    ok (document ∷ documents)

  add_documents : Text → List InstructionDocument → Resolved → Result InstructionsError Resolved
  add_documents scope_path [] resolved = ok resolved
  add_documents scope_path (document ∷ documents) resolved = do
    throw_if (ltb max_total_instruction_bytes (resolved.total_bytes + byte_length document.content))
        (failed instructions_too_large (some scope_path))
    add_documents scope_path documents (record {
      documents = resolved.documents ++ document ∷ [];
      total_bytes = resolved.total_bytes + byte_length document.content;
    })

  -- The loop over scopes and providers, from what each answers in turn.
  resolve_from : Text → List Contributed → Resolved → Result InstructionsError Resolved
  unfolding normalize_all add_documents sort_documents
  resolve_from scope_path [] resolved = ok resolved
  resolve_from scope_path (answer ∷ answers) resolved = do
    documents ← normalize_all answer.provider_id answer.scope answer.contributions
    resolved' ← add_documents scope_path (sort_documents documents) resolved
    resolve_from scope_path answers resolved'

  unfoldable pub resolve_documents : Text → List Contributed → Result InstructionsError Resolved
  unfolding resolve_from
  resolve_documents scope_path answers =
      resolve_from scope_path answers (record { documents = []; total_bytes = 0 })
