-- ===== src/Workspace/Git.antt =====
-- The calls of Git, packages/workspace/src/git-worktree.ts. What the process answers for its
-- arguments is a parameter, `execute`; so are `trim` and the texts that the callers see of bytes.
use benchhand.Prelude.{
  ℕ, String, Bool, ◌&&◌, ◌||◌, Option, none, some, List, [], ◌∷◌, ◌++◌, ◌==◌, leb, if◌then◌else◌,
  all, map, length, Result, ok, err, ◌>>=◌,
}
use benchhand.Prelude.Text.{Text, codes}
use benchhand.Workspace.Porcelain.{GitWorktreeInfo, parse_worktree_porcelain}
use benchhand.Workspace.Worktrees.{ManagedWorktreeRegistration, GitFailure, lower_hex}

-- What a process that fails leaves: its exit code, if it has one.
pub record ProcessFailure : Type 0 where
  pub exit_code : Option ℕ

is_commit_digit : ℕ → Bool
is_commit_digit c = (leb 48 c && leb c 57) || ((leb 65 c && leb c 70) || (leb 97 c && leb c 102))

-- `/^[0-9a-f]{40,64}$/i`
unfoldable pub is_commit_id : Text → Bool
unfolding is_commit_digit
is_commit_id commit =
    (leb 40 (length commit) && leb (length commit) 64) && all is_commit_digit commit

git_error : String → GitFailure
git_error code = record { code = code }

module _ (execute : List Text → Result ProcessFailure Text) (trim : Text → Text) where
  git_output : (code : String) → Result ProcessFailure Text → Result GitFailure Text
  unfolding git_error
  git_output code (err e) = err (git_error code)
  git_output code (ok stdout) = ok stdout

  unfoldable pub run_git :
      (cwd : Text) → (arguments : List Text) → (code : String) → Result GitFailure Text
  unfolding git_output
  run_git cwd arguments code = git_output code (execute (codes "-C" ∷ cwd ∷ arguments))

  unfoldable pub valid_commit : (code : String) → Text → Result GitFailure Text
  unfolding is_commit_id git_error lower_hex
  valid_commit code commit =
      if is_commit_id commit then ok (map lower_hex commit) else err (git_error code)

  unfoldable pub resolved_commit : Result GitFailure Text → Result GitFailure Text
  unfolding valid_commit
  resolved_commit (err e) = err e
  resolved_commit (ok stdout) = valid_commit "WORKTREE_BASE_REF_INVALID" (trim stdout)

  unfoldable pub resolve_git_commit : (repo base_ref : Text) → Result GitFailure Text
  unfolding resolved_commit run_git git_error
  resolve_git_commit repo base_ref =
      if length base_ref == 0
      then err (git_error "WORKTREE_BASE_REF_INVALID")
      else resolved_commit (
          run_git repo
            (codes "rev-parse"
              ∷ codes "--verify"
              ∷ codes "--end-of-options"
              ∷ (base_ref ++ codes "^{commit}")
              ∷ [])
            "WORKTREE_BASE_REF_INVALID")

  unfoldable pub create_locked_worktree : ManagedWorktreeRegistration → Result GitFailure (Unit {0})
  unfolding run_git
  create_locked_worktree options = do
    stdout ←
        run_git options.repo
          (codes "worktree"
            ∷ codes "add"
            ∷ codes "--lock"
            ∷ codes "--reason"
            ∷ (codes "benchhand:" ++ options.key)
            ∷ codes "-b"
            ∷ options.branch_name
            ∷ options.path
            ∷ options.at_commit
            ∷ [])
          "WORKTREE_CREATE_FAILED"
    ok tt

  unfoldable pub list_git_worktrees : (repo : Text) → Result GitFailure (List GitWorktreeInfo)
  unfolding run_git parse_worktree_porcelain
  list_git_worktrees repo = do
    stdout ←
        run_git repo (codes "worktree" ∷ codes "list" ∷ codes "--porcelain" ∷ codes "-z" ∷ [])
          "WORKTREE_LIST_FAILED"
    ok (parse_worktree_porcelain stdout)

  -- Git answers 1 when the branch is not there.
  no_branch : Option ℕ → Result GitFailure (Option Text)
  unfolding git_error
  no_branch none = err (git_error "WORKTREE_BRANCH_CHECK_FAILED")
  no_branch (some code) =
      if code == 1 then ok none else err (git_error "WORKTREE_BRANCH_CHECK_FAILED")

  unfoldable pub branch_answer : Result ProcessFailure Text → Result GitFailure (Option Text)
  unfolding no_branch valid_commit
  branch_answer (err e) = no_branch e.exit_code
  branch_answer (ok stdout) = do
    commit ← valid_commit "WORKTREE_BRANCH_CHECK_FAILED" (trim stdout)
    ok (some commit)

  unfoldable pub read_local_branch_commit : (repo branch : Text) → Result GitFailure (Option Text)
  unfolding branch_answer
  read_local_branch_commit repo branch = branch_answer (
      execute (
        codes "-C"
        ∷ repo
        ∷ codes "rev-parse"
        ∷ codes "--verify"
        ∷ codes "--quiet"
        ∷ codes "--end-of-options"
        ∷ (codes "refs/heads/" ++ branch ++ codes "^{commit}")
        ∷ []))
