-- ===== src/Daemon/Params/Edits.antt =====
-- `readFilePatchParams` of packages/daemon/src/index.ts. `print` is what a template literal makes
-- of a number.
use Prim.Native.String
use benchhand.Prelude.{ℕ, suc, String, some, List, [], ◌∷◌, Result, ok, err, ◌>>=◌}
use benchhand.Contracts.Value.{Number, Value, nat, str, arr, Items, nil, cons}
use benchhand.Daemon.{Failure, invalid_params}
use benchhand.Daemon.Params.{
  read_params_object, entry_of, read_workspace_id_value, read_required_string, member,
}

pub record TextEdit : Type 0 where
  pub old_text : String
  pub new_text : String

pub record FilePatchParams : Type 0 where
  pub workspace_id : String
  pub path : String
  pub expected_sha256 : String
  pub edits : List TextEdit

module _ (print : Number → String) where
  edit_refused : ℕ → Failure
  edit_refused index = invalid_params (
      String.◌++◌ "file.patch params.edits["
        (String.◌++◌ (print (nat index)) "] must contain string oldText and newText"))

  unfoldable pub read_edit : ℕ → Value → Result Failure TextEdit
  unfolding member edit_refused
  read_edit index edit = elim (member "oldText" edit) [
    | some (str old_text) ↦ elim (member "newText" edit) [
      | some (str new_text) ↦ ok (record { old_text = old_text; new_text = new_text })
      | _ ↦ err (edit_refused index)
    ]
    | _ ↦ err (edit_refused index)
  ]

  unfoldable pub read_edits : ℕ → Items → Result Failure (List TextEdit)
  unfolding read_edit
  read_edits index nil = ok []
  read_edits index (cons edit rest) = do
    first ← read_edit index edit
    others ← read_edits (suc index) rest
    ok (first ∷ others)

  unfoldable pub read_edits_value : Value → Result Failure (List TextEdit)
  unfolding read_edits
  read_edits_value (arr items) = read_edits 0 items
  read_edits_value _ = err (invalid_params "file.patch params.edits must be an array")

  unfoldable pub read_file_patch_params : Value → Result Failure FilePatchParams
  unfolding read_params_object read_workspace_id_value read_required_string read_edits_value
      entry_of
  read_file_patch_params params = do
    value ← read_params_object params "file.patch"
    workspace_id ← read_workspace_id_value (entry_of "workspaceId" value) "file.patch"
    path ← read_required_string (entry_of "path" value) "file.patch params.path"
    expected ←
        read_required_string (entry_of "expectedSha256" value) "file.patch params.expectedSha256"
    edits ← read_edits_value (entry_of "edits" value)
    ok (record {
      workspace_id = workspace_id;
      path = path;
      expected_sha256 = expected;
      edits = edits;
    })
