-- ===== src/Filesystem/PatchFile/Applied.antt =====
-- What a patch that returns has done to the file.
use mathlib.Core.List.{Perm}
use benchhand.Prelude.{
  ℕ, false, not, some, List, ◌≡◌, refl, ap, ◌∙◌, arith, map, length, ltb, All, Result, ok, err,
  >>=-eq-ok, guard-ok, ok-injective, subst,
}
use benchhand.Prelude.Text.{Text, text_eq, text_eq_iff}
use benchhand.Filesystem.Errors.{FilesystemError}
use benchhand.Filesystem.Patch.{
  FilesystemPatchEdit, PlannedPatchEdit, plan_exact_patch, apply_planned_patch,
}
use benchhand.Filesystem.Patch.Rewrites.{IsExpected, IsPlaced, Rewrites, plan-apply-Rewrites}
use benchhand.Filesystem.Write.{
  Errno, WriteError, exactly, Entry, regular, System, Inspection, read_by, at_second, Circumstances,
  FilesystemWriteResult, Directory, inspect_write_target, enforce_patch_hash_precondition,
  write_atomic,
}
use benchhand.Filesystem.Write.Outcomes.{IsPosix, write_atomic_replaces}
use benchhand.Filesystem.PatchFile.{
  FilesystemPatchResult, PreparedPatch, Utf8, max_write_bytes, read_whole_file, decode_text,
  prepare_patch, finished, written, patch_file,
}

module _ (system : System) (utf8 : Utf8) (path expected : Text)
    (edits : List FilesystemPatchEdit) where
  -- What the checks before the write establish.
  record IsPrepared (prepared : PreparedPatch) : Type 0 where
    digest : system.digest prepared.source_buffer ≡ expected
    decoded : utf8.decode prepared.source_buffer ≡ some prepared.source
    planned : plan_exact_patch prepared.source edits path ≡ ok prepared.planned
    content : prepared.content ≡ utf8.encode (apply_planned_patch prepared.source prepared.planned)

  decoded_text :
      (bytes source : Text)
      → decode_text system utf8 path expected edits bytes ≡ ok source
      → utf8.decode bytes ≡ some source
  unfolding decode_text
  decoded_text bytes source h = ground arith

  prepare_patch-IsPrepared :
      (first : Inspection) (target : Entry) (reading : Result Errno Text) (prepared : PreparedPatch)
      → prepare_patch system utf8 path expected edits first target reading ≡ ok prepared
      → IsPrepared prepared
  unfolding prepare_patch
  prepare_patch-IsPrepared first target reading prepared h =
      let (initial, _, h1) = >>=-eq-ok (inspect_write_target system path first target) _ h in
      let (_, _, h2) = >>=-eq-ok (enforce_patch_hash_precondition expected initial path) _ h1 in
      let (_, h3) = guard-ok (ltb max_write_bytes initial.size) _ _ h2 in
      let (bytes, _, h4) = >>=-eq-ok (read_whole_file path initial.size reading) _ h3 in
      let (same, h5) = guard-ok (not (text_eq (system.digest bytes) expected)) _ _ h4 in
      let (source, decoded, h6) =
        >>=-eq-ok (decode_text system utf8 path expected edits bytes) _ h5 in
      let (planned, plan, h7) = >>=-eq-ok (plan_exact_patch source edits path) _ h6 in
      let (_, h8) =
        guard-ok (ltb max_write_bytes (length (utf8.encode (apply_planned_patch source planned)))) _
          _ h7 in
      subst IsPrepared (ok-injective h8) (record {
        digest = (text_eq_iff (system.digest bytes) expected).0 (ground (arith, same));
        decoded = decoded_text bytes source decoded;
        planned = plan;
        content = refl;
      })

  -- The way to a result: prepared, and written.
  record Applied (c : Circumstances) (now : Entry) (prepared : PreparedPatch)
      (r : FilesystemPatchResult) (dir : Directory) : Type 0 where
    write : FilesystemWriteResult
    writes : write_atomic system path prepared.content (exactly expected) c now ≡ (ok write, dir)
    counted : r.edits_applied ≡ length prepared.planned
    previous : r.previous_sha256 ≡ expected

  finished-Applied :
      (c : Circumstances) (now : Entry) (prepared : PreparedPatch) (r : FilesystemPatchResult)
      (dir : Directory) (last : Inspection)
      (p : Result WriteError FilesystemWriteResult × Directory)
      → write_atomic system path prepared.content (exactly expected) c now ≡ p
      → finished system utf8 path expected edits last prepared.planned p ≡ (ok r, dir)
      → Applied c now prepared r dir
  unfolding finished
  finished-Applied c now prepared r dir last (err e, d) w h = absurd (ground arith)
  finished-Applied c now prepared r dir last (ok write, d) w h = record {
    write = write;
    writes = w ∙ ap (λ x. (ok write, x)) (ap (λ q. q.1) h);
    counted = ground arith;
    previous = ground arith;
  }

  written-Applied :
      (c : Circumstances) (target now : Entry) (r : FilesystemPatchResult) (dir : Directory)
      (last : Inspection) (o : Result FilesystemError PreparedPatch)
      → ((prepared : PreparedPatch) → o ≡ ok prepared → IsPrepared prepared)
      → written system utf8 path expected edits c last target now o ≡ (ok r, dir)
      → (prepared : PreparedPatch) × IsPrepared prepared × Applied c now prepared r dir
  unfolding written
  written-Applied c target now r dir last (err e) prep h = absurd (ground arith)
  written-Applied c target now r dir last (ok prepared) prep h =
      (prepared, prep prepared refl, finished-Applied c now prepared r dir last _ refl h)

  -- A patch of non-empty edits that returns has read bytes of the expected digest and decoded them to
  -- a source; its plan holds each edit once, each at the only place of its expected text. When the write
  -- began the target was a regular file, and what was read from it then and again before the commit
  -- had the expected digest. It has been replaced, mode kept, by the encoding of a text in which the
  -- edits are made and nothing else is changed. The result counts the edits of the plan, and no staged
  -- file is left.
  pub patch_file_applies :
      IsPosix system
      → (first : Inspection) (reading : Result Errno Text) (before_write : Entry → Entry)
        (last : Inspection) (c : Circumstances) (target : Entry) (r : FilesystemPatchResult)
        (dir : Directory)
      → All IsExpected edits
      → patch_file system utf8 path expected edits first reading before_write last c target
        ≡ (ok r, dir)
      → (bytes source result : Text) × (planned : List PlannedPatchEdit) × (old read reread : Text)
        × (mode : ℕ) × (system.digest bytes ≡ expected)
        × (utf8.decode bytes ≡ some source)
        × Perm (map (λ (e : PlannedPatchEdit). e.edit) planned) edits
        × All (IsPlaced source) planned
        × Rewrites planned source result
        × (before_write (first.before_open target) ≡ regular old mode)
        × (read_by c.first_inspection (before_write (first.before_open target)) ≡ ok read)
        × (system.digest read ≡ expected)
        × (read_by c.second_inspection (at_second c (before_write (first.before_open target)))
            ≡ ok reread)
        × (system.digest reread ≡ expected)
        × (dir.target ≡ regular (utf8.encode result) mode)
        × (dir.staged ≡ false)
        × (r.edits_applied ≡ length planned)
  unfolding patch_file
  patch_file_applies posix first reading before_write last c target r dir nonempty h =
      let now = before_write (first.before_open target) in
      let (prepared, p, a) =
        written-Applied c target now r dir last
          (prepare_patch system utf8 path expected edits first target reading)
          (λ prepared e. prepare_patch-IsPrepared first target reading prepared e) h in
      let (perm, placed, rewrites) =
        plan-apply-Rewrites prepared.source path edits prepared.planned nonempty p.planned in
      let (
        old, _, read, reread, mode, _, here, reads, same, _, rereads, still, put, unstaged, _, _, _,
      ) =
        write_atomic_replaces system posix path prepared.content c now a.write dir expected
          a.writes in
      (
        prepared.source_buffer,
        prepared.source,
        apply_planned_patch prepared.source prepared.planned,
        prepared.planned,
        old,
        read,
        reread,
        mode,
        p.digest,
        p.decoded,
        perm,
        placed,
        rewrites,
        here,
        reads,
        same,
        rereads,
        still,
        put ∙ ap (λ text. regular text mode) p.content,
        unstaged,
        a.counted,
      )
