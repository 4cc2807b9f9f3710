-- ===== src/Instructions/Tests.antt =====
-- A scope two directories down, and two skills of one name.
use benchhand.Prelude.{
  some, ◌≤◌, ◌+◌, String, false, none, List, [], ◌∷◌, ◌≡◌, refl, find, length, All, ok,
}
use benchhand.Prelude.Text.{Text, split, join, replace_unit, text_eq}
use benchhand.Paths.{dot, segments_of, is_absolute_posix, is_absolute_win32}
use benchhand.Paths.Segments.{IsName}
use benchhand.Storage.Table.{count_where}
use benchhand.Instructions.Scope.{max_scope_depth, normalize_relative_path, build_scope_chain}
use benchhand.Instructions.Scope.Chain.{descend, build_scope_chain-descend}
use benchhand.Instructions.Skills.{SkillSummary, has_name, select_skills}
use benchhand.Instructions.Documents.{
  Contributed, Resolved, max_instruction_bytes, resolve_documents,
}
use benchhand.Instructions.Documents.Budget.{IsBudgeted, resolve_documents-IsBudgeted}
use benchhand.Instructions.Skills.Reading.{
  SkillsReadResult, DiscoveredSkill, has_skill_id, read_skill, read_skill_content,
}
use benchhand.Instructions.Skills.Shadowing.{select_skills_first}

-- `a/b`
abbrev scope : Text
scope = 97 ∷ 47 ∷ 98 ∷ []

normalized_scope : normalize_relative_path (λ _. false) (97 ∷ 47 ∷ 47 ∷ 98 ∷ []) ≡ ok scope
unfolding normalize_relative_path is_absolute_posix is_absolute_win32 segments_of split replace_unit
    text_eq join
normalized_scope = refl

build_scope_chain-descend_example :
    (build_scope_chain scope ≡ dot ∷ descend none (segments_of (97 ∷ 47 ∷ 47 ∷ 98 ∷ [])))
    × All IsName (segments_of (97 ∷ 47 ∷ 47 ∷ 98 ∷ []))
    × (length (segments_of (97 ∷ 47 ∷ 47 ∷ 98 ∷ [])) ≤ max_scope_depth)
build_scope_chain-descend_example =
    build_scope_chain-descend (λ _. false) (97 ∷ 47 ∷ 47 ∷ 98 ∷ []) scope normalized_scope

abbrev skill_from : String → String → SkillSummary
skill_from source name = record {
  skill_id = source;
  name = name;
  description = "d";
  source_id = source;
  source_kind = source;
  skill_directory_path = name;
  skill_file_path = name;
  metadata_sha256 = "";
  license = none;
  compatibility = none;
  metadata = [];
  allowed_tools = none;
}

abbrev discovered_skills : List SkillSummary
discovered_skills = skill_from "project" "a" ∷ skill_from "user" "b" ∷ skill_from "user" "a" ∷ []

shadows : (select_skills discovered_skills).shadowed ≡ skill_from "user" "a" ∷ []
unfolding select_skills
shadows = refl

select_skills_first_example :
    (count_where (has_name "a") (select_skills discovered_skills).skills ≤ 1)
    × (find (has_name "a") (select_skills discovered_skills).skills
        ≡ find (has_name "a") discovered_skills)
    × (count_where (has_name "b") (select_skills discovered_skills).skills
          + count_where (has_name "b") (select_skills discovered_skills).shadowed
        ≡ count_where (has_name "b") discovered_skills)
select_skills_first_example = select_skills_first discovered_skills "a" (has_name "b")

abbrev one_answer : List Contributed
one_answer =
    record {
      provider_id = 112 ∷ [];
      scope = dot;
      contributions = record { source_id = 115 ∷ []; content = 99 ∷ 100 ∷ []; path = none } ∷ [];
    }
    ∷ []

abbrev one_document : Resolved
one_document = record {
  documents =
      record {
        provider_id = 112 ∷ [];
        scope_path = dot;
        source_id = 115 ∷ [];
        path = none;
        content = 99 ∷ 100 ∷ [];
        sha256 = 99 ∷ 100 ∷ [];
      }
      ∷ [];
  total_bytes = 2;
}

resolves : resolve_documents length (λ text. text) dot one_answer ≡ ok one_document
unfolding resolve_documents
resolves = refl

resolve_documents-IsBudgeted_example : IsBudgeted length (λ text. text) one_document
resolve_documents-IsBudgeted_example =
    resolve_documents-IsBudgeted length (λ text. text) dot one_answer one_document resolves

abbrev found_at : String → SkillSummary → DiscoveredSkill
found_at path summary = record { skill_file_path = path; summary = summary }

abbrev two_found : List DiscoveredSkill
two_found =
    found_at "/p/a" (skill_from "project" "a") ∷ found_at "/u/b" (skill_from "user" "b") ∷ []

abbrev read_result : SkillsReadResult
read_result = record { skill = skill_from "user" "b"; content = 98 ∷ []; sha256 = 98 ∷ [] }

reads_skill :
    read_skill (λ path. some (98 ∷ [])) (λ bytes. some bytes) (λ bytes. bytes) two_found "user"
    ≡ ok read_result
unfolding read_skill
reads_skill = refl

read_skill_content_example :
    (candidate : DiscoveredSkill) × (buffer : Text) × (find (has_skill_id "user") two_found
      ≡ some candidate)
    × (skill_from "user" "b" ≡ candidate.summary)
    × (some (98 ∷ []) ≡ some buffer)
    × (length buffer ≤ max_instruction_bytes)
    × (some buffer ≡ some (98 ∷ []))
    × (98 ∷ [] ≡ buffer)
read_skill_content_example =
    read_skill_content (λ path. some (98 ∷ [])) (λ bytes. some bytes) (λ bytes. bytes) two_found
      "user" read_result reads_skill
