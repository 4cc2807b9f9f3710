-- ===== src/Instructions/Skills/Shadowing.antt =====
-- Which of the discovered skills `listSkills` lists.
use benchhand.Prelude.{
  ◌+◌, ◌≤◌, String, Bool, true, false, none, List, [], ◌∷◌, ◌≡◌, refl, arith, if◌then◌else◌, find,
  str_eq_iff, Bool-cases, inl, inr,
}
use benchhand.Storage.Table.{count_where}
use benchhand.Instructions.Skills.{
  SkillSummary, SkillSelection, has_name, is_selected, place, select_from, select_skills,
}

place_counts :
    (seen : Bool) (s : SkillSummary) (rest : SkillSelection) (p : SkillSummary → Bool)
    → count_where p (place seen s rest).skills + count_where p (place seen s rest).shadowed
      ≡ (if p s then 1 else 0) + (count_where p rest.skills + count_where p rest.shadowed)
unfolding place count_where
place_counts true s rest p = ground arith
place_counts false s rest p = ground arith

select_from_counts :
    (names : List String) (discovered : List SkillSummary) (p : SkillSummary → Bool)
    → count_where p (select_from names discovered).skills
        + count_where p (select_from names discovered).shadowed
      ≡ count_where p discovered
unfolding select_from count_where
select_from_counts names [] p = refl
select_from_counts names (s ∷ discovered) p =
    let seen = is_selected s.name names in
    let names' = if seen then names else s.name ∷ names in
    ground (
      arith,
      place_counts seen s (select_from names' discovered) p,
      select_from_counts names' discovered p,
    )

select_from-find :
    (names : List String) (discovered : List SkillSummary) (name : String)
    → find (has_name name) (select_from names discovered).skills
      ≡ (if is_selected name names then none else find (has_name name) discovered)
unfolding select_from place
select_from-find names [] name = ground arith
select_from-find names (s ∷ discovered) name = elim (Bool-cases (is_selected s.name names)) [
  | inl seen ↦
      let later = select_from-find names discovered name in
      rw seen (ground (arith, later, seen, str_eq_iff s.name name))
  | inr fresh ↦
      let later = select_from-find (s.name ∷ names) discovered name in
      rw fresh (ground (arith, later, fresh, str_eq_iff s.name name))
]

select_from_once :
    (names : List String) (discovered : List SkillSummary) (name : String)
    → count_where (has_name name) (select_from names discovered).skills
      ≤ (if is_selected name names then 0 else 1)
unfolding select_from place count_where
select_from_once names [] name = ground arith
select_from_once names (s ∷ discovered) name = elim (Bool-cases (is_selected s.name names)) [
  | inl seen ↦ rw seen (ground (arith, select_from_once names discovered name))
  | inr fresh ↦
      let later = select_from_once (s.name ∷ names) discovered name in
      rw fresh (ground (arith, later, fresh, str_eq_iff s.name name))
]

-- For each name, the skills that are listed hold at most one, and that is the first one discovered;
-- and whatever skills are counted, the listed and the shadowed ones together are as many as those
-- discovered, so none is lost and none is there twice.
pub select_skills_first :
    (discovered : List SkillSummary) (name : String) (p : SkillSummary → Bool)
    → (count_where (has_name name) (select_skills discovered).skills ≤ 1)
      × (find (has_name name) (select_skills discovered).skills ≡ find (has_name name) discovered)
      × (count_where p (select_skills discovered).skills
            + count_where p (select_skills discovered).shadowed
          ≡ count_where p discovered)
unfolding select_skills
select_skills_first discovered name p = (
  select_from_once [] discovered name,
  select_from-find [] discovered name,
  select_from_counts [] discovered p,
)
