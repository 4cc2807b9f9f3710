-- ===== src/Instructions/Skills/Reading.antt =====
-- `InstructionsService.readSkill` of packages/instructions/src/index.ts, behind the discovery of the
-- skills.
use benchhand.Prelude.{
  String, Bool, ◌||◌, Option, none, some, List, ◌≡◌, refl, arith, ◌≤◌, if◌then◌else◌, ltb, find,
  str_eq, length, Result, ok, err, ◌>>=◌, ◌>>◌, throw_if, or_throw, >>=-eq-ok, guard-ok,
  ok-injective, subst,
}
use benchhand.Prelude.Text.{Text, codes, includes_nul}
use benchhand.Instructions.Documents.{max_instruction_bytes}
use benchhand.Instructions.Skills.{SkillSummary}

pub data SkillError : Type 0 where
  invalid_skill_id skill_not_found skill_inaccessible skill_too_large : SkillError
  instruction_binary_unsupported : SkillError

pub record SkillsReadResult : Type 0 where
  pub skill : SkillSummary
  pub content : Text
  pub sha256 : Text

-- A skill as it is discovered. Its own `skill_file_path` is the canonical path of its file; that of
-- the summary is for display.
pub record DiscoveredSkill : Type 0 where
  pub skill_file_path : String
  pub summary : SkillSummary

abbrev pub has_skill_id : String → DiscoveredSkill → Bool
has_skill_id skill_id entry = str_eq entry.summary.skill_id skill_id

-- `read_file` gives the bytes at a path, `decode` decodes UTF-8 or fails, and `digest` hashes.
module _ (read_file : String → Option Text) (decode : Text → Option Text)
    (digest : Text → Text) where
  unfoldable pub decode_instruction_text : Text → Result SkillError Text
  decode_instruction_text buffer =
      if includes_nul buffer
      then err instruction_binary_unsupported
      else or_throw (decode buffer) instruction_binary_unsupported

  unfoldable pub read_skill : List DiscoveredSkill → String → Result SkillError SkillsReadResult
  unfolding decode_instruction_text
  read_skill discovered skill_id = do
    throw_if (str_eq skill_id "" || includes_nul (codes skill_id)) invalid_skill_id
    candidate ← or_throw (find (has_skill_id skill_id) discovered) skill_not_found
    buffer ← or_throw (read_file candidate.skill_file_path) skill_inaccessible
    throw_if (ltb max_instruction_bytes (length buffer)) skill_too_large
    content ← decode_instruction_text buffer
    ok (record { skill = candidate.summary; content = content; sha256 = digest buffer })

  or_throw-eq-ok :
      {A : Type 0} (o : Option A) (e : SkillError) {a : A} → or_throw o e ≡ ok a → o ≡ some a
  or_throw-eq-ok none e h = cc
  or_throw-eq-ok (some a) e h = cc

  decoded_text :
      (buffer content : Text)
      → decode_instruction_text buffer ≡ ok content
      → decode buffer ≡ some content
  unfolding decode_instruction_text
  decoded_text buffer content h = ground arith

  -- A skill that is read is the first discovered one of its id. The result holds its summary, and the
  -- decoding and the digest of the same bytes, the at most 256 KiB that were read at the canonical
  -- path of the skill's file.
  pub read_skill_content :
      (discovered : List DiscoveredSkill) (skill_id : String) (r : SkillsReadResult)
      → read_skill discovered skill_id ≡ ok r
      → (candidate : DiscoveredSkill) × (buffer : Text) × (find (has_skill_id skill_id) discovered
          ≡ some candidate)
        × (r.skill ≡ candidate.summary)
        × (read_file candidate.skill_file_path ≡ some buffer)
        × (length buffer ≤ max_instruction_bytes)
        × (decode buffer ≡ some r.content)
        × (r.sha256 ≡ digest buffer)
  unfolding read_skill
  read_skill_content discovered skill_id r h =
      let (_, h1) = guard-ok (str_eq skill_id "" || includes_nul (codes skill_id)) _ _ h in
      let (candidate, found, h2) =
        >>=-eq-ok (or_throw (find (has_skill_id skill_id) discovered) skill_not_found) _ h1 in
      let (buffer, bytes, h3) =
        >>=-eq-ok (or_throw (read_file candidate.skill_file_path) skill_inaccessible) _ h2 in
      let (small, h4) = guard-ok (ltb max_instruction_bytes (length buffer)) _ _ h3 in
      let (content, text, h5) = >>=-eq-ok (decode_instruction_text buffer) _ h4 in
      subst
        (λ x.
          (candidate : DiscoveredSkill) × (buffer : Text) × (find (has_skill_id skill_id) discovered
            ≡ some candidate)
          × (x.skill ≡ candidate.summary)
          × (read_file candidate.skill_file_path ≡ some buffer)
          × (length buffer ≤ max_instruction_bytes)
          × (decode buffer ≡ some x.content)
          × (x.sha256 ≡ digest buffer))
        (ok-injective h5)
        (
          candidate,
          buffer,
          or_throw-eq-ok _ _ found,
          refl,
          or_throw-eq-ok _ _ bytes,
          ground (arith, small),
          decoded_text buffer content text,
          refl,
        )
