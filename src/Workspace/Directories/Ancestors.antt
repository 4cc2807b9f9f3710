-- ===== src/Workspace/Directories/Ancestors.antt =====
-- The loops of packages/workspace/src/index.ts that climb from a directory to its ancestors.
use benchhand.Prelude.{
  ℕ, zero, suc, ◌||◌, Option, none, some, List, [], length, ◌<◌, Result, ok, err, ◌≡◌, refl, ◌⊎◌,
  inl, inr, arith, true, Bool-cases, sym, subst,
}
use benchhand.Prelude.Text.{Text, codes, text_eq, text_eq_iff}
use benchhand.Workspace.Directories.{
  PathFault, enoent, enotdir, eacces, eperm, other_fault, Disk, go_up, looked_for_git,
  repo_root_from, find_repo_root, canonicalized, canonicalize_from, canonicalize_potential_path,
}

-- What Node says of absolute paths: the `dirname` of one is absolute, and is a root given back or
-- the path less its last part. Of a relative path it can be longer: that of an empty path is `.`.
pub record IsParent (disk : Disk) : Type 0 where
  pub shorter :
      (path : Text)
      → disk.is_absolute path ≡ true
      → (disk.dirname path ≡ path) ⊎ (length (disk.dirname path) < length path)
  pub stays_absolute :
      (path : Text) → disk.is_absolute path ≡ true → disk.is_absolute (disk.dirname path) ≡ true
  -- `resolve` answers an absolute path.
  pub resolves : (path : Text) → disk.is_absolute (disk.resolve_path path) ≡ true

module _ (disk : Disk) where
  -- The directory some levels up.
  abbrev pub up : ℕ → Text → Text
  up zero path = path
  up (suc n) path = up n (disk.dirname path)

  -- There is no `.git` in a directory.
  abbrev pub NoGit : Text → Type 0
  NoGit path =
      (disk.lstat (disk.join_path path (codes ".git")) ≡ err enoent)
      ⊎ (disk.lstat (disk.join_path path (codes ".git")) ≡ err enotdir)

  -- A root that is found holds `.git`, and no directory below it on the way does.
  abbrev pub IsNearest : Text → Result PathFault (Option Text) → Type 0
  IsNearest path answer =
      (root : Text)
      → answer ≡ ok (some root)
      → (k : ℕ) × (root ≡ up k path)
        × (disk.lstat (disk.join_path root (codes ".git")) ≡ ok tt)
        × ((j : ℕ) → j < k → NoGit (up j path))

  -- The loop answers, and with the nearest root.
  abbrev Answers : Text → Option (Result PathFault (Option Text)) → Type 0
  Answers path o =
      (answer : Result PathFault (Option Text)) × (o ≡ some answer) × IsNearest path answer

  IsNearest-up :
      (path : Text) (answer : Result PathFault (Option Text))
      → NoGit path
      → IsNearest (disk.dirname path) answer
      → IsNearest path answer
  IsNearest-up path answer here above root found =
      let (k, same, holds, below) = above root found in (suc k, same, holds, nearer k below)
    where
      nearer :
          (k : ℕ)
          → ((j : ℕ) → j < k → NoGit (up j (disk.dirname path)))
          → (j : ℕ) → j < suc k
          → NoGit (up j path)
      nearer k below zero h = here
      nearer k below (suc j) h = below j (omega arith)

  no_root : (path : Text) → IsNearest path (ok none)
  no_root path root found = absurd cc

  failed_root : (path : Text) (e : PathFault) → IsNearest path (err e)
  failed_root path e root found = absurd cc

  module _ (parents : IsParent disk) where
    go_up-Answers :
        (root current : Text) (later : Option (Result PathFault (Option Text)))
        → disk.is_absolute current ≡ true
        → NoGit current
        → (length (disk.dirname current) < length current → Answers (disk.dirname current) later)
        → Answers current (go_up disk root current later)
    unfolding go_up
    go_up-Answers root current later rooted here above =
        elim (Bool-cases (text_eq current root || text_eq (disk.dirname current) current)) [
          | inl last ↦ (ok none, ground arith, no_root current)
          | inr higher ↦ elim (parents.shorter current rooted) [
            | inl same ↦
                let at_root = (text_eq_iff (disk.dirname current) current).1 same in
                absurd (ground arith)
            | inr shorter ↦
                let (answer, gives, nearest) = above shorter in
                (answer, ground arith, IsNearest-up current answer here nearest)
          ]
        ]

    looked_for_git-Answers :
        (root current : Text) (found : Result PathFault (Unit {0}))
        (later : Option (Result PathFault (Option Text)))
        → disk.is_absolute current ≡ true
        → disk.lstat (disk.join_path current (codes ".git")) ≡ found
        → (length (disk.dirname current) < length current → Answers (disk.dirname current) later)
        → Answers current (looked_for_git disk root current found later)
    unfolding looked_for_git
    looked_for_git-Answers root current (ok tt) later rooted looked above =
        (ok (some current), refl, here)
      where
        here : IsNearest current (ok (some current))
        here root' found =
            let same : current ≡ root' = cc in
            (
              zero,
              sym same,
              subst (λ r. disk.lstat (disk.join_path r (codes ".git")) ≡ ok tt) same looked,
              λ j h. absurd (omega arith),
            )
    looked_for_git-Answers root current (err enoent) later rooted looked above =
        go_up-Answers root current later rooted (inl looked) above
    looked_for_git-Answers root current (err enotdir) later rooted looked above =
        go_up-Answers root current later rooted (inr looked) above
    looked_for_git-Answers root current (err eacces) later rooted looked above =
        (ok none, refl, no_root current)
    looked_for_git-Answers root current (err eperm) later rooted looked above =
        (ok none, refl, no_root current)
    looked_for_git-Answers root current (err (other_fault e)) later rooted looked above =
        (err (other_fault e), refl, failed_root current (other_fault e))

    repo_root_from-Answers :
        (fuel : ℕ) (root current : Text)
        → disk.is_absolute current ≡ true
        → length current < fuel
        → Answers current (repo_root_from disk fuel root current)
    unfolding repo_root_from
    repo_root_from-Answers zero root current rooted enough = absurd (omega arith)
    repo_root_from-Answers (suc fuel) root current rooted enough =
        looked_for_git-Answers root current _ _ rooted refl (λ shorter.
          repo_root_from-Answers fuel root (disk.dirname current)
            (parents.stays_absolute current rooted) (omega arith))

    -- The search for the repository of an absolute path ends. A root that it answers is an ancestor of
    -- the directory or the directory itself, it holds `.git`, and none of the directories nearer
    -- to the start has one.
    pub find_repo_root-IsNearest :
        (path : Text)
        → disk.is_absolute path ≡ true
        → (answer : Result PathFault (Option Text)) × (find_repo_root disk path ≡ some answer)
          × IsNearest path answer
    unfolding find_repo_root
    find_repo_root-IsNearest path rooted =
        repo_root_from-Answers (suc (length path)) (disk.root_of path) path rooted (omega arith)

    canonicalized-some :
        (cursor : Text) (suffix : List Text) (read : Result PathFault Text)
        (later : Option (Result PathFault Text))
        → disk.is_absolute cursor ≡ true
        → (length (disk.dirname cursor) < length cursor
            → (answer : Result PathFault Text) × (later ≡ some answer))
        → (answer : Result PathFault Text) × (canonicalized disk cursor suffix read later
            ≡ some answer)
    unfolding canonicalized
    canonicalized-some cursor suffix (ok existing) later rooted above = (_, refl)
    canonicalized-some cursor suffix (err enoent) later rooted above =
        elim (parents.shorter cursor rooted) [
          | inl same ↦
              let at_root = (text_eq_iff (disk.dirname cursor) cursor).1 same in
              (err enoent, ground arith)
          | inr shorter ↦ elim (Bool-cases (text_eq (disk.dirname cursor) cursor)) [
            | inl at_root ↦ (err enoent, ground arith)
            | inr higher ↦ let (answer, gives) = above shorter in (answer, ground arith)
          ]
        ]
    canonicalized-some cursor suffix (err e) later rooted above = (_, refl)

    canonicalize_from-some :
        (fuel : ℕ) (cursor : Text) (suffix : List Text)
        → disk.is_absolute cursor ≡ true
        → length cursor < fuel
        → (answer : Result PathFault Text) × (canonicalize_from disk fuel cursor suffix
            ≡ some answer)
    unfolding canonicalize_from
    canonicalize_from-some zero cursor suffix rooted enough = absurd (omega arith)
    canonicalize_from-some (suc fuel) cursor suffix rooted enough =
        canonicalized-some cursor suffix _ _ rooted (λ shorter.
          canonicalize_from-some fuel (disk.dirname cursor) _ (parents.stays_absolute cursor rooted)
            (omega arith))

    -- The search for the existing part of a path ends.
    pub canonicalize_potential_path_ends :
        (path : Text)
        → (answer : Result PathFault Text) × (canonicalize_potential_path disk path ≡ some answer)
    unfolding canonicalize_potential_path
    canonicalize_potential_path_ends path =
        canonicalize_from-some (suc (length (disk.resolve_path path))) (disk.resolve_path path) []
          (parents.resolves path) (omega arith)
