-- ===== src/Filesystem/Write/Tests.antt =====
-- Writes into a directory whose digest of a text is the text.
use benchhand.Prelude.{ℕ, true, false, none, some, [], ◌∷◌, ◌≡◌, refl, ◌⊎◌, Result, ok, err}
use benchhand.Prelude.Text.{Text, text_eq}
use benchhand.Filesystem.Errors.{failure, write_conflict}
use benchhand.Filesystem.Write.{
  Errno, eexist, filesystem_error, create_only, exactly, Entry, absent, regular, System,
  Circumstances, FilesystemWriteResult, Inspection, write_atomic, read_by,
}
use benchhand.Filesystem.Write.Outcomes.{
  IsPosix, write_atomic_failed, write_atomic_creates, write_atomic_replaces,
}

unfoldable pub link_to : Text → ℕ → Entry → Result Errno Entry
link_to content mode absent = ok (regular content mode)
link_to content mode _ = err eexist

abbrev pub plain_system : System
plain_system = record {
  digest = λ text. text;
  masked = λ mode. mode;
  link_file = link_to;
  rename_file = λ content mode now. ok (regular content mode);
}

link_to-ok :
    (content : Text) (mode : ℕ) (now after : Entry)
    → link_to content mode now ≡ ok after
    → (now ≡ absent) × (after ≡ regular content mode)
unfolding link_to
link_to-ok content mode absent after h = (refl, cc)
link_to-ok content mode (regular _ _) after h = absurd cc
link_to-ok content mode Entry.symbolic_link after h = absurd cc
link_to-ok content mode Entry.special after h = absurd cc

pub plain_system-IsPosix : IsPosix plain_system
plain_system-IsPosix = record {
  link_absent = link_to-ok;
  rename_puts = λ content mode now after h. cc;
}

-- An inspection without a fault, during which nothing changes.
abbrev pub plain_inspection : Inspection
plain_inspection = record {
  lstat_fault = none;
  before_open = λ entry. entry;
  open_fault = none;
  opened_elsewhere = err eexist;
}

-- Another process creates the target just before the commit, or does nothing.
abbrev pub circumstances : (Entry → Entry) → Circumstances
circumstances meanwhile = record {
  first_inspection = plain_inspection;
  open_fault = none;
  fill_fault = none;
  second_inspection = plain_inspection;
  cleanup_works = true;
  directory_synced = true;
  while_staging = λ entry. entry;
  before_commit = meanwhile;
}

abbrev pub old_text : Text
old_text = 97 ∷ []

abbrev pub old_read : Result Errno Text
old_read = ok old_text

abbrev pub new_text : Text
new_text = 98 ∷ 99 ∷ []

abbrev create_result : FilesystemWriteResult
create_result = record {
  path = old_text;
  created = true;
  previous_sha256 = none;
  sha256 = new_text;
  bytes_written = 2;
  file_and_directory = true;
}

creates :
    write_atomic plain_system old_text new_text create_only (circumstances (λ entry. entry)) absent
    ≡ (ok create_result, record { target = regular new_text 0o666; staged = false })
unfolding write_atomic link_to
creates = refl

loses_race :
    write_atomic plain_system old_text new_text create_only
      (circumstances (λ entry. regular old_text 0))
      absent
    ≡ (
      err (filesystem_error (failure write_conflict (some old_text))),
      record { target = regular old_text 0; staged = false },
    )
unfolding write_atomic link_to
loses_race = refl

replaces :
    write_atomic plain_system old_text new_text
      (exactly old_text)
      (circumstances (λ entry. entry))
      (regular old_text 0o600)
    ≡ (
      ok (record create_result { created = false; previous_sha256 = some old_text }),
      record { target = regular new_text 0o600; staged = false },
    )
unfolding write_atomic text_eq
replaces = refl

write_atomic_creates_example :
    (absent ≡ absent)
    × (regular new_text 0o666 ≡ regular new_text 0o666)
    × (true ≡ true)
    × (new_text ≡ new_text)
write_atomic_creates_example =
    write_atomic_creates plain_system plain_system-IsPosix old_text new_text
      (circumstances (λ entry. entry)) absent create_result
      (record { target = regular new_text 0o666; staged = false }) creates

write_atomic_failed_example :
    ((false ≡ false) ⊎ (true ≡ false))
    × ((regular old_text 0 ≡ absent)
        ⊎ ((regular old_text 0 ≡ absent)
            ⊎ ((regular old_text 0 ≡ absent) ⊎ (regular old_text 0 ≡ regular old_text 0))))
write_atomic_failed_example =
    write_atomic_failed plain_system old_text new_text create_only
      (circumstances (λ entry. regular old_text 0)) absent
      (filesystem_error (failure write_conflict (some old_text)))
      (record { target = regular old_text 0; staged = false }) loses_race

-- Between the `lstat` and the `open` of the first inspection another process writes the file anew:
-- its digest is that of the new content, and the write is refused.
changes_meanwhile :
    write_atomic plain_system old_text new_text
      (exactly old_text)
      (record (circumstances (λ entry. entry)) {
        first_inspection = record plain_inspection {
          before_open = λ entry. regular new_text 0o600;
        };
      })
      (regular old_text 0o600)
    ≡ (
      err (filesystem_error (failure write_conflict (some old_text))),
      record { target = regular new_text 0o600; staged = false },
    )
unfolding write_atomic text_eq
changes_meanwhile = refl

write_atomic_replaces_example :
    (first second read reread : Text) × (mode mode' : ℕ) × (regular old_text 0o600
      ≡ regular first mode)
    × (old_read ≡ ok read)
    × (read ≡ old_text)
    × (regular old_text 0o600 ≡ regular second mode')
    × (old_read ≡ ok reread)
    × (reread ≡ old_text)
    × (regular new_text 0o600 ≡ regular new_text mode)
    × (false ≡ false)
    × (false ≡ false)
    × (some old_text ≡ some old_text)
    × (new_text ≡ new_text)
unfolding read_by
write_atomic_replaces_example =
    write_atomic_replaces plain_system plain_system-IsPosix old_text new_text
      (circumstances (λ entry. entry)) (regular old_text 0o600)
      (record create_result { created = false; previous_sha256 = some old_text })
      (record { target = regular new_text 0o600; staged = false }) old_text replaces
