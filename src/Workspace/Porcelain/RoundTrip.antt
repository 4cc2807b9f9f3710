-- ===== src/Workspace/Porcelain/RoundTrip.antt =====
-- Worktrees in the format that git-worktree(1) documents for `--porcelain -z`: an
-- attribute is a word, or a word, a space and its value; each ends with a NUL, and each worktree
-- with an empty attribute.
use benchhand.Prelude.{
  false, Option, none, some, List, [], ◌∷◌, ◌++◌, ◌≡◌, ◌≢◌, refl, ap, ◌∙◌, All, All-append, arith,
  ==_iff,
}
use benchhand.Prelude.Text.{Text, codes, text_eq, starts_with, join, includes_nul}
use benchhand.Paths.Segments.{Free, split-join}
use benchhand.Workspace.Porcelain.{
  GitWorktreeInfo, new_worktree, parse_tokens, parse_worktree_porcelain,
}

-- `HEAD <commit>` with `branch <ref>` or the label `detached`, or the label `bare`; Git prints no
-- branch without a commit.
abbrev print_checkout : (head branch : Option Text) → List Text
print_checkout none none = codes "bare" ∷ []
print_checkout none (some ref) = (codes "branch " ++ ref) ∷ []
print_checkout (some commit) none = (codes "HEAD " ++ commit) ∷ codes "detached" ∷ []
print_checkout (some commit) (some ref) = (codes "HEAD " ++ commit) ∷ (codes "branch " ++ ref) ∷ []

-- `locked` and `prunable`, with a reason or alone
abbrev print_reason : Text → Option Text → List Text
print_reason word none = []
print_reason word (some []) = word ∷ []
print_reason word (some (c ∷ reason)) = (word ++ 32 ∷ c ∷ reason) ∷ []

abbrev print_worktree : GitWorktreeInfo → List Text → List Text
print_worktree info rest =
    (codes "worktree " ++ info.path)
    ∷ (print_checkout info.head info.branch
        ++ (print_reason (codes "locked") info.locked_reason
            ++ (print_reason (codes "prunable") info.prunable_reason ++ [] ∷ rest)))

abbrev print_worktrees : List GitWorktreeInfo → List Text
print_worktrees [] = [] ∷ []
print_worktrees (info ∷ infos) = print_worktree info (print_worktrees infos)

abbrev pub print_porcelain : List GitWorktreeInfo → Text
print_porcelain infos = join 0 (print_worktrees infos)

module _ (path : Text) (rest : List Text) where
  read_checkout :
      (h b : Option Text)
      → parse_tokens (print_checkout h b ++ rest) (some (new_worktree path))
        ≡ parse_tokens rest (some (record (new_worktree path) { head = h; branch = b }))
  unfolding parse_tokens starts_with text_eq
  read_checkout none none = refl
  read_checkout none (some ref) = refl
  read_checkout (some commit) none = refl
  read_checkout (some commit) (some ref) = refl

  read_locked :
      (h b l : Option Text)
      → parse_tokens
          (print_reason (codes "locked") l ++ rest)
          (some (record (new_worktree path) { head = h; branch = b }))
        ≡ parse_tokens rest
            (some (record (new_worktree path) { head = h; branch = b; locked_reason = l }))
  unfolding parse_tokens starts_with text_eq
  read_locked h b none = refl
  read_locked h b (some []) = refl
  read_locked h b (some (c ∷ r)) = refl

  read_prunable :
      (h b l p : Option Text)
      → parse_tokens
          (print_reason (codes "prunable") p ++ rest)
          (some (record (new_worktree path) { head = h; branch = b; locked_reason = l }))
        ≡ parse_tokens rest (
            some (record (new_worktree path) {
              head = h;
              branch = b;
              locked_reason = l;
              prunable_reason = p;
            }))
  unfolding parse_tokens starts_with text_eq
  read_prunable h b l none = refl
  read_prunable h b l (some []) = refl
  read_prunable h b l (some (c ∷ r)) = refl

read_worktree :
    (info : GitWorktreeInfo) (rest : List Text)
    → parse_tokens (print_worktree info rest) none ≡ info ∷ parse_tokens rest none
unfolding parse_tokens starts_with
read_worktree info rest =
    read_checkout info.path _ info.head info.branch
    ∙ read_locked info.path _ info.head info.branch info.locked_reason
    ∙ read_prunable info.path _ info.head info.branch info.locked_reason info.prunable_reason

read_worktrees : (infos : List GitWorktreeInfo) → parse_tokens (print_worktrees infos) none ≡ infos
unfolding parse_tokens
read_worktrees [] = refl
read_worktrees (info ∷ infos) =
    read_worktree info (print_worktrees infos) ∙ ap (λ later. info ∷ later) (read_worktrees infos)

abbrev IsNulFree : Option Text → Type 0
IsNulFree none = Unit
IsNulFree (some s) = Free 0 s

pub record HasNoNul (info : GitWorktreeInfo) : Type 0 where
  pub path : Free 0 info.path
  pub head : IsNulFree info.head
  pub branch : IsNulFree info.branch
  pub locked_reason : IsNulFree info.locked_reason
  pub prunable_reason : IsNulFree info.prunable_reason

word-Free : (word : Text) → includes_nul word ≡ false → Free 0 word
word-Free [] h = tt
word-Free (c ∷ word) h = (ground (arith, ==_iff c 0), word-Free word (ground arith))

checkout-Free :
    (h b : Option Text) (rest : List Text)
    → IsNulFree h
    → IsNulFree b
    → All (Free 0) rest
    → All (Free 0) (print_checkout h b ++ rest)
checkout-Free none none rest h b k = (word-Free (codes "bare") refl, k)
checkout-Free none (some ref) rest h b k =
    (All-append (λ c. c ≢ 0) (codes "branch ") ref (word-Free (codes "branch ") refl) b, k)
checkout-Free (some commit) none rest h b k = (
  All-append (λ c. c ≢ 0) (codes "HEAD ") commit (word-Free (codes "HEAD ") refl) h,
  (word-Free (codes "detached") refl, k),
)
checkout-Free (some commit) (some ref) rest h b k = (
  All-append (λ c. c ≢ 0) (codes "HEAD ") commit (word-Free (codes "HEAD ") refl) h,
  (All-append (λ c. c ≢ 0) (codes "branch ") ref (word-Free (codes "branch ") refl) b, k),
)

reason-Free :
    (word : Text) (o : Option Text) (rest : List Text)
    → Free 0 word
    → IsNulFree o
    → All (Free 0) rest
    → All (Free 0) (print_reason word o ++ rest)
reason-Free word none rest w h k = k
reason-Free word (some []) rest w h k = (w, k)
reason-Free word (some (c ∷ s)) rest w h k =
    (All-append (λ u. u ≢ 0) word (32 ∷ c ∷ s) w (λ e. omega (arith, e), h), k)

print-Free :
    (infos : List GitWorktreeInfo) → All HasNoNul infos → All (Free 0) (print_worktrees infos)
print-Free [] h = (tt, tt)
print-Free (info ∷ infos) (n, h) = (
  All-append (λ c. c ≢ 0) (codes "worktree ") info.path (word-Free (codes "worktree ") refl) n.path,
  checkout-Free info.head info.branch _ n.head n.branch (
      reason-Free (codes "locked") info.locked_reason _ (word-Free (codes "locked") refl)
        n.locked_reason
        (reason-Free (codes "prunable") info.prunable_reason _ (word-Free (codes "prunable") refl)
          n.prunable_reason (tt, print-Free infos h))),
)

print_worktrees-ne : (infos : List GitWorktreeInfo) → print_worktrees infos ≢ []
print_worktrees-ne [] e = cc
print_worktrees-ne (info ∷ infos) e = cc

-- The output that Git documents for worktrees whose texts hold no NUL is read back as the same
-- worktrees, in the same order: the labels of a bare one and of a detached checkout add nothing, and
-- an absent attribute and one without a reason are told apart.
pub parse-print_porcelain :
    (infos : List GitWorktreeInfo)
    → All HasNoNul infos
    → parse_worktree_porcelain (print_porcelain infos) ≡ infos
unfolding parse_worktree_porcelain
parse-print_porcelain infos h =
    ap (λ tokens. parse_tokens tokens none)
      (split-join 0 (print_worktrees infos) (print_worktrees-ne infos) (print-Free infos h))
    ∙ read_worktrees infos
