-- ===== src/SkillFiles/Again.antt =====
-- A sync of packages/runtime/src/merged-resource-loader.ts that follows one of the same rows.
use akko.Prelude.{
  ◌≡◌, refl, ap, ◌∙◌, ◌≢◌, sym, subst, ◌⊎◌, inl, inr, String, true, false, none, some, or_else,
  List, [], ◌∷◌, arith, eq_iff, Bool-cases, All, All-weaken,
}
use akko.Prelude.JsMap
use mathlib.Core.Option
use akko.Config.{StoredSkill}
use akko.SkillFiles.{
  Directory, Sync, to_skill_markdown, safe_name, is_skipped, read_skill, write_skill, sync_skill,
  sync_skills, materialize_skills,
}
use akko.SkillFiles.Mirror.{wanted, wanted_of, materialize_skills_mirrors}

-- No two rows have names that are made safe to the same entry.
abbrev pub HasDistinctNames : List StoredSkill → Type 0
HasDistinctNames [] = Unit
HasDistinctNames (skill ∷ skills) =
    All (λ other. safe_name other.name ≢ safe_name skill.name) skills × HasDistinctNames skills

-- The row is left out, or its text is there.
abbrev IsWritten : Directory → StoredSkill → Type 0
IsWritten files skill =
    (is_skipped (safe_name skill.name) ≡ true)
    ⊎ (JsMap.get files (safe_name skill.name) ≡ some (some (to_skill_markdown skill)))

sync_skill_idle :
    (dir : String) (s : Sync) (skill : StoredSkill)
    → IsWritten s.files skill
    → ((sync_skill dir s skill).files ≡ s.files) × ((sync_skill dir s skill).written ≡ s.written)
unfolding sync_skill write_skill read_skill
sync_skill_idle dir s skill (inl skipped) = ground arith
sync_skill_idle dir s skill (inr there) =
    ground (arith, eq_iff (to_skill_markdown skill) (to_skill_markdown skill))

sync_skills_idle :
    (dir : String) (s : Sync) (skills : List StoredSkill)
    → All (IsWritten s.files) skills
    → (sync_skills dir s skills).written ≡ s.written
unfolding sync_skills
sync_skills_idle dir s [] h = refl
sync_skills_idle dir s (skill ∷ skills) h =
    let idle = sync_skill_idle dir s skill h.0 in
    sync_skills_idle dir (sync_skill dir s skill) skills
      (subst (λ files. All (IsWritten files) skills) (sym idle.0) h.1)
    ∙ idle.1

wanted-none :
    (skills : List StoredSkill) (entry : String)
    → All (λ other. safe_name other.name ≢ entry) skills
    → wanted skills entry ≡ none
unfolding wanted
wanted-none [] entry h = refl
wanted-none (skill ∷ skills) entry h =
    ground (arith, wanted-none skills entry h.1, h.0, eq_iff (safe_name skill.name) entry)

abbrev IsWanted : List StoredSkill → StoredSkill → Type 0
IsWanted skills skill =
    (is_skipped (safe_name skill.name) ≡ true)
    ⊎ (wanted skills (safe_name skill.name) ≡ some (to_skill_markdown skill))

rows_are_there :
    (skills : List StoredSkill) → HasDistinctNames skills → All (IsWanted skills) skills
unfolding wanted
rows_are_there [] h = tt
rows_are_there (skill ∷ skills) h = (
  head (Bool-cases (is_skipped (safe_name skill.name))),
  All-weaken skills later (rows_are_there skills h.1),
)
  where
    head :
        ((is_skipped (safe_name skill.name) ≡ true) ⊎ (is_skipped (safe_name skill.name) ≡ false))
        → IsWanted (skill ∷ skills) skill
    head (inl skipped) = inl skipped
    head (inr kept) = inr (
        ground (
          arith,
          wanted-none skills (safe_name skill.name) h.0,
          eq_iff (safe_name skill.name) (safe_name skill.name),
        ))

    later : (t : StoredSkill) → IsWanted skills t → IsWanted (skill ∷ skills) t
    later t (inl skipped) = inl skipped
    later t (inr w) = inr (ap (λ o. or_else o (wanted_of skill (safe_name t.name))) w)

-- A second sync of the same rows writes no file, if no two of their names are made safe to the same
-- entry.
pub materialize_skills_again :
    (dir : String) (files : Directory) (skills : List StoredSkill)
    → HasDistinctNames skills
    → (materialize_skills dir (materialize_skills dir files skills).files skills).written ≡ []
unfolding materialize_skills
materialize_skills_again dir files skills h =
    let after = (materialize_skills dir files skills).files in
    sync_skills_idle dir (record { files = after; written = []; keep = []; out = [] }) skills
      (All-weaken skills written (rows_are_there skills h))
  where
    written :
        (t : StoredSkill)
        → IsWanted skills t
        → IsWritten (materialize_skills dir files skills).files t
    written t (inl skipped) = inl skipped
    written t (inr w) =
        inr
          (materialize_skills_mirrors dir files skills (safe_name t.name) ∙ ap (Option.map some) w)
