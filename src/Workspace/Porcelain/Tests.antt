-- ===== src/Workspace/Porcelain/Tests.antt =====
-- Two worktrees, one locked without a reason.
use benchhand.Prelude.{ℕ, ◌≤◌, none, some, [], ◌∷◌, ◌≡◌, ◌≢◌, arith}
use benchhand.Workspace.Porcelain.{GitWorktreeInfo, parse_worktree_porcelain}
use benchhand.Workspace.Porcelain.RoundTrip.{HasNoNul, print_porcelain, parse-print_porcelain}

abbrev main_worktree : GitWorktreeInfo
main_worktree = record {
  path = 47 ∷ 97 ∷ [];
  head = some (49 ∷ []);
  branch = some (109 ∷ []);
  locked_reason = none;
  prunable_reason = none;
}

abbrev locked_worktree : GitWorktreeInfo
locked_worktree = record {
  path = 47 ∷ 98 ∷ [];
  head = some (50 ∷ []);
  branch = none;
  locked_reason = some [];
  prunable_reason = some (120 ∷ []);
}

unit-Free : (c : ℕ) → 1 ≤ c → c ≢ 0
unit-Free c h e = omega (arith, h, e)

main-HasNoNul : HasNoNul main_worktree
main-HasNoNul = record {
  path = (unit-Free 47 (omega arith), (unit-Free 97 (omega arith), tt));
  head = (unit-Free 49 (omega arith), tt);
  branch = (unit-Free 109 (omega arith), tt);
  locked_reason = tt;
  prunable_reason = tt;
}

locked-HasNoNul : HasNoNul locked_worktree
locked-HasNoNul = record {
  path = (unit-Free 47 (omega arith), (unit-Free 98 (omega arith), tt));
  head = (unit-Free 50 (omega arith), tt);
  branch = tt;
  locked_reason = tt;
  prunable_reason = (unit-Free 120 (omega arith), tt);
}

parse-print_porcelain_example :
    parse_worktree_porcelain (print_porcelain (main_worktree ∷ locked_worktree ∷ []))
    ≡ main_worktree ∷ locked_worktree ∷ []
parse-print_porcelain_example =
    parse-print_porcelain (main_worktree ∷ locked_worktree ∷ [])
      (main-HasNoNul, (locked-HasNoNul, tt))
