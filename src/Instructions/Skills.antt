-- ===== src/Instructions/Skills.antt =====
-- The choice among skills of one name in `InstructionsService.listSkills` of
-- packages/instructions/src/index.ts.
pub mod Shadowing
pub mod Reading
use benchhand.Prelude.{
  ℕ, String, Bool, true, false, Option, List, [], ◌∷◌, if◌then◌else◌, any, str_eq,
}

pub record SkillSummary : Type 0 where
  pub skill_id : String
  pub name : String
  pub description : String
  pub source_id : String
  pub source_kind : String
  pub skill_directory_path : String
  pub skill_file_path : String
  pub metadata_sha256 : String
  pub license : Option String
  pub compatibility : Option String
  pub metadata : List (String × String)
  pub allowed_tools : Option String

-- `skills` and `shadowed`
pub record SkillSelection : Type 0 where
  pub skills : List SkillSummary
  pub shadowed : List SkillSummary

abbrev pub has_name : String → SkillSummary → Bool
has_name name skill = str_eq skill.name name

abbrev pub is_selected : String → List String → Bool
is_selected name selected_names = any (λ n. str_eq n name) selected_names

place : Bool → SkillSummary → SkillSelection → SkillSelection
place true candidate rest = record rest { shadowed = candidate ∷ rest.shadowed }
place false candidate rest = record rest { skills = candidate ∷ rest.skills }

-- The loop over the candidates, with the names selected so far.
select_from : List String → List SkillSummary → SkillSelection
unfolding place
select_from selected_names [] = record { skills = []; shadowed = [] }
select_from selected_names (candidate ∷ discovered) =
    let seen = is_selected candidate.name selected_names in
    place seen candidate
      (select_from (if seen then selected_names else candidate.name ∷ selected_names) discovered)

unfoldable pub select_skills : List SkillSummary → SkillSelection
unfolding select_from
select_skills discovered = select_from [] discovered
