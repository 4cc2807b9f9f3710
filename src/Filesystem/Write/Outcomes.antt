-- ===== src/Filesystem/Write/Outcomes.antt =====
-- What a write has done to its target when it returns, and when it throws.
use benchhand.Prelude.{
  ℕ, true, false, not, Option, none, some, ◌≡◌, refl, ◌⊎◌, arith, Result, ok, err, if◌then◌else◌,
}
use benchhand.Prelude.Text.{Text, text_eq, text_eq_iff}
use benchhand.Filesystem.Errors.{FilesystemError}
use benchhand.Filesystem.Write.{
  Errno, WriteError, Expected, create_only, exactly, Entry, absent, symbolic_link, special, regular,
  WriteTargetState, enforce_write_precondition, differs, System, Circumstances,
  FilesystemWriteResult, Directory, Inspection, read_by, at_second, at_commit, hashed, looked_at,
  enforced, inspect_write_target, inspect_and_enforce, staged_mode, clean_up, commit, committed,
  rechecked, filled, opened, checked, write_atomic, left_staged,
}

-- What POSIX says of the two calls: a link never replaces an entry, and each of them leaves the
-- staged content at the target.
pub record IsPosix (system : System) : Type 0 where
  pub link_absent :
      (content : Text) (mode : ℕ) (now after : Entry)
      → system.link_file content mode now ≡ ok after
      → (now ≡ absent) × (after ≡ regular content mode)
  pub rename_puts :
      (content : Text) (mode : ℕ) (now after : Entry)
      → system.rename_file content mode now ≡ ok after
      → after ≡ regular content mode

module _ (system : System) (path content : Text) (expected : Expected) (c : Circumstances) where
  -- The way to a result: both inspections passed, and the commit did.
  record Passed (target : Entry) (r : FilesystemWriteResult) (dir : Directory) : Type 0 where
    initial : WriteTargetState
    before : WriteTargetState
    first : inspect_and_enforce system path expected c.first_inspection target ≡ ok initial
    second :
        inspect_and_enforce system path expected c.second_inspection (at_second c target)
        ≡ ok before
    commits :
        commit system path content expected c (staged_mode system path initial) (at_commit c target)
        ≡ ok dir.target
    unstaged : dir.staged ≡ left_staged system path content expected c
    created : r.created ≡ not before.exists
    previous : r.previous_sha256 ≡ (if before.exists then before.sha256 else none)
    digest : r.sha256 ≡ system.digest content

  module _ (target : Entry) (r : FilesystemWriteResult) (dir : Directory)
      (initial : WriteTargetState)
      (first : inspect_and_enforce system path expected c.first_inspection target
        ≡ ok initial) where
    committed-Passed :
        (before : WriteTargetState) (o : Result Errno Entry)
        → inspect_and_enforce system path expected c.second_inspection (at_second c target)
          ≡ ok before
        → commit system path content expected c
            (staged_mode system path initial)
            (at_commit c target)
          ≡ o
        → committed system path content expected c before (at_commit c target) o ≡ (ok r, dir)
        → Passed target r dir
    unfolding committed clean_up
    committed-Passed before (err errno) second e h = absurd (ground arith)
    committed-Passed before (ok entry) second e h = record {
      initial = initial;
      before = before;
      first = first;
      second = second;
      commits = ground arith;
      unstaged = ground arith;
      created = ground arith;
      previous = ground arith;
      digest = ground arith;
    }

    rechecked-Passed :
        (o : Result FilesystemError WriteTargetState)
        → inspect_and_enforce system path expected c.second_inspection (at_second c target) ≡ o
        → rechecked system path content expected c
            (staged_mode system path initial)
            (c.second_inspection.before_open (at_second c target))
            o
          ≡ (ok r, dir)
        → Passed target r dir
    unfolding rechecked clean_up
    rechecked-Passed (err e) second h = absurd (ground arith)
    rechecked-Passed (ok before) second h = committed-Passed before _ second refl h

    opened-Passed :
        (f f' : Option Errno)
        → f' ≡ c.fill_fault
        → opened system path content expected c initial (c.first_inspection.before_open target) f
          ≡ (ok r, dir)
        → Passed target r dir
    unfolding opened filled clean_up
    opened-Passed (some errno) f' e h = absurd (ground arith)
    opened-Passed none (some errno) e h = absurd (ground arith)
    opened-Passed none none e h =
        rechecked-Passed
          (inspect_and_enforce system path expected c.second_inspection (at_second c target)) refl
          (rw (← e) at h)

  checked-Passed :
      (target : Entry) (r : FilesystemWriteResult) (dir : Directory)
      (o : Result FilesystemError WriteTargetState)
      → inspect_and_enforce system path expected c.first_inspection target ≡ o
      → checked system path content expected c (c.first_inspection.before_open target) o
        ≡ (ok r, dir)
      → Passed target r dir
  unfolding checked
  checked-Passed target r dir (err e) first h = absurd (ground arith)
  checked-Passed target r dir (ok initial) first h =
      opened-Passed target r dir initial first c.open_fault c.fill_fault refl h

  write_atomic-Passed :
      (target : Entry) (r : FilesystemWriteResult) (dir : Directory)
      → write_atomic system path content expected c target ≡ (ok r, dir)
      → Passed target r dir
  unfolding write_atomic
  write_atomic-Passed target r dir h = checked-Passed target r dir _ refl h

  -- A write that throws has not touched the target: it stands as other processes left it at one of
  -- the moments of the write. No staged file is left, unless removing it has failed.
  pub write_atomic_failed :
      (target : Entry) (e : WriteError) (dir : Directory)
      → write_atomic system path content expected c target ≡ (err e, dir)
      → ((dir.staged ≡ false) ⊎ (c.cleanup_works ≡ false))
        × ((dir.target ≡ c.first_inspection.before_open target)
            ⊎ ((dir.target ≡ at_second c target)
                ⊎ ((dir.target ≡ c.second_inspection.before_open (at_second c target))
                    ⊎ (dir.target ≡ at_commit c target))))
  unfolding write_atomic checked opened filled rechecked committed clean_up
  write_atomic_failed target e dir h = ground arith

module _ (system : System) (path : Text) where
  looked_absent :
      (fault : Option Errno) (seen : Entry) (reading : Result Errno Text)
      (current : WriteTargetState)
      → enforced system path create_only (looked_at system path fault seen reading) ≡ ok current
      → current.exists ≡ false
  unfolding enforced looked_at hashed enforce_write_precondition
  looked_absent (some fault) seen reading current h = absurd (ground arith)
  looked_absent none absent reading current h = ground arith
  looked_absent none symbolic_link reading current h = absurd (ground arith)
  looked_absent none special reading current h = absurd (ground arith)
  looked_absent none (regular content mode) (err e) current h = absurd (ground arith)
  looked_absent none (regular content mode) (ok read) current h = absurd (ground arith)

  enforce_created :
      (i : Inspection) (entry : Entry) (current : WriteTargetState)
      → inspect_and_enforce system path create_only i entry ≡ ok current
      → current.exists ≡ false
  unfolding inspect_and_enforce inspect_write_target
  enforce_created i entry current h = looked_absent i.lstat_fault entry (read_by i entry) current h

  -- What an inspection that found the expected digest has seen and read.
  record Found (d : Text) (seen : Entry) (reading : Result Errno Text) (current : WriteTargetState)
      : Type 0 where
    content : Text
    mode : ℕ
    read : Text
    is_regular : seen ≡ regular content mode
    reads : reading ≡ ok read
    digest : system.digest read ≡ d
    exists : current.exists ≡ true
    same_mode : current.mode ≡ mode
    sha256 : current.sha256 ≡ some d

  looked_exactly :
      (d : Text) (fault : Option Errno) (seen : Entry) (reading : Result Errno Text)
      (current : WriteTargetState)
      → enforced system path (exactly d) (looked_at system path fault seen reading) ≡ ok current
      → Found d seen reading current
  unfolding enforced looked_at hashed enforce_write_precondition differs
  looked_exactly d (some fault) seen reading current h = absurd (ground arith)
  looked_exactly d none absent reading current h = absurd (ground arith)
  looked_exactly d none symbolic_link reading current h = absurd (ground arith)
  looked_exactly d none special reading current h = absurd (ground arith)
  looked_exactly d none (regular content mode) (err e) current h = absurd (ground arith)
  looked_exactly d none (regular content mode) (ok read) current h =
      let same : text_eq (system.digest read) d ≡ true = ground arith in
      let digest = (text_eq_iff (system.digest read) d).0 same in
      record {
        content = content;
        mode = mode;
        read = read;
        is_regular = refl;
        reads = refl;
        digest = digest;
        exists = ground arith;
        same_mode = ground arith;
        sha256 = ground arith;
      }

  enforce_exactly :
      (d : Text) (i : Inspection) (entry : Entry) (current : WriteTargetState)
      → inspect_and_enforce system path (exactly d) i entry ≡ ok current
      → Found d entry (read_by i entry) current
  unfolding inspect_and_enforce inspect_write_target
  enforce_exactly d i entry current h =
      looked_exactly d i.lstat_fault entry (read_by i entry) current h

module _ (system : System) (posix : IsPosix system) (path content : Text) (c : Circumstances)
    (target : Entry) (r : FilesystemWriteResult) (dir : Directory) where
  -- A create-only write that returns has found no target and replaced none: no entry was there at
  -- the commit, whatever other processes did before it, and then the content is there.
  pub write_atomic_creates :
      write_atomic system path content create_only c target ≡ (ok r, dir)
      → (at_commit c target ≡ absent)
        × (dir.target ≡ regular content (system.masked 0o666))
        × (r.created ≡ true)
        × (r.sha256 ≡ system.digest content)
  unfolding commit staged_mode
  write_atomic_creates h =
      let p = write_atomic-Passed system path content create_only c target r dir h in
      let fresh = enforce_created system path _ target p.initial p.first in
      let still = enforce_created system path _ (at_second c target) p.before p.second in
      let linked = posix.link_absent content _ (at_commit c target) dir.target p.commits in
      (linked.0, ground (arith, linked.1, fresh), ground (arith, p.created, still), p.digest)

  -- A write with an expected digest that returns has twice, first and after staging, found a regular
  -- file and read content of that digest from the target, and has put the new content there with the
  -- mode that the file first had. Its result names the digests of the old and of the new content, and
  -- no staged file is left.
  pub write_atomic_replaces :
      (d : Text)
      → write_atomic system path content (exactly d) c target ≡ (ok r, dir)
      → (first second read reread : Text) × (mode mode' : ℕ) × (target ≡ regular first mode)
        × (read_by c.first_inspection target ≡ ok read)
        × (system.digest read ≡ d)
        × (at_second c target ≡ regular second mode')
        × (read_by c.second_inspection (at_second c target) ≡ ok reread)
        × (system.digest reread ≡ d)
        × (dir.target ≡ regular content mode)
        × (dir.staged ≡ false)
        × (r.created ≡ false)
        × (r.previous_sha256 ≡ some d)
        × (r.sha256 ≡ system.digest content)
  unfolding commit staged_mode left_staged
  write_atomic_replaces d h =
      let p = write_atomic-Passed system path content (exactly d) c target r dir h in
      let f = enforce_exactly system path d _ target p.initial p.first in
      let s = enforce_exactly system path d _ (at_second c target) p.before p.second in
      let renamed = posix.rename_puts content _ (at_commit c target) dir.target p.commits in
      let there = f.exists in
      let same_mode = f.same_mode in
      let still = s.exists in
      let sha = s.sha256 in
      (
        f.content,
        s.content,
        f.read,
        s.read,
        f.mode,
        s.mode,
        f.is_regular,
        f.reads,
        f.digest,
        s.is_regular,
        s.reads,
        s.digest,
        ground (arith, renamed, there, same_mode),
        p.unstaged,
        ground (arith, p.created, still),
        ground (arith, p.previous, still, sha),
        p.digest,
      )
