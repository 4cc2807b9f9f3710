-- ===== src/Workspace/Porcelain.antt =====
-- `parseWorktreePorcelain` of packages/workspace/src/git-worktree.ts, which reads the output of
-- `git worktree list --porcelain -z`.
pub mod RoundTrip
mod Tests
use mathlib.Core.Option
use benchhand.Prelude.{ℕ, Bool, true, false, Option, none, some, List, [], ◌∷◌, if◌then◌else◌, drop}
use benchhand.Prelude.Text.{Text, codes, text_eq, starts_with, split}

pub record GitWorktreeInfo : Type 0 where
  pub path : Text
  pub head : Option Text
  pub branch : Option Text
  pub locked_reason : Option Text
  pub prunable_reason : Option Text

abbrev pub new_worktree : Text → GitWorktreeInfo
new_worktree path = record {
  path = path;
  head = none;
  branch = none;
  locked_reason = none;
  prunable_reason = none;
}

-- The attributes of the current worktree; an unknown one is skipped.
read_attribute : Text → GitWorktreeInfo → GitWorktreeInfo
read_attribute token current =
    if starts_with token (codes "HEAD ")
    then record current { head = some (drop 5 token) }
    else if starts_with token (codes "branch ")
    then record current { branch = some (drop 7 token) }
    else if text_eq token (codes "locked")
    then record current { locked_reason = some [] }
    else if starts_with token (codes "locked ")
    then record current { locked_reason = some (drop 7 token) }
    else if text_eq token (codes "prunable")
    then record current { prunable_reason = some [] }
    else if starts_with token (codes "prunable ")
    then record current { prunable_reason = some (drop 9 token) }
    else current

-- The worktree that a token ends, if one was open.
closed : Text → Option GitWorktreeInfo → Option GitWorktreeInfo
closed [] current = current
closed (c ∷ token) current = if starts_with (c ∷ token) (codes "worktree ") then current else none

-- The worktree that is open behind a token.
next : Text → Option GitWorktreeInfo → Option GitWorktreeInfo
unfolding read_attribute
next [] current = none
next (c ∷ token) current =
    if starts_with (c ∷ token) (codes "worktree ")
    then some (new_worktree (drop 9 (c ∷ token)))
    else Option.map (read_attribute (c ∷ token)) current

push : Option GitWorktreeInfo → List GitWorktreeInfo → List GitWorktreeInfo
push none worktrees = worktrees
push (some current) worktrees = current ∷ worktrees

-- The loop over the tokens
parse_tokens : List Text → Option GitWorktreeInfo → List GitWorktreeInfo
unfolding closed next push
parse_tokens [] current = push current []
parse_tokens (token ∷ tokens) current =
    push (closed token current) (parse_tokens tokens (next token current))

unfoldable pub parse_worktree_porcelain : Text → List GitWorktreeInfo
unfolding parse_tokens
parse_worktree_porcelain output = parse_tokens (split 0 output) none
