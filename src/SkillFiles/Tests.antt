-- ===== src/SkillFiles/Tests.antt =====
-- Runs of packages/runtime/src/merged-resource-loader.ts, and its theorems at concrete directories.
use akko.Prelude.{
  ◌≡◌, refl, String, Bool, true, false, none, some, [], ◌∷◌, map, arith, eq_iff, All,
}
use akko.Prelude.JsMap
use mathlib.Core.Option
use akko.Config.{StoredSkill}
use akko.SkillFiles.{Directory, Sync, to_skill_markdown, is_allowed, safe_name, materialize_skills}
use akko.SkillFiles.Mirror.{wanted, materialize_skills_mirrors}
use akko.SkillFiles.Segments.{IsInPlace, materialize_skills-IsInPlace}
use akko.SkillFiles.Again.{HasDistinctNames, materialize_skills_again}

abbrev skill : String → Bool → StoredSkill
skill name hidden = record {
  workspace_id = "w";
  name = name;
  description = "Does\nthings";
  content = "Body";
  hidden_from_prompt = hidden;
  updated_at = 1;
}

abbrev review : StoredSkill
review = skill "a b" false

abbrev commit : StoredSkill
commit = skill "commit" true

abbrev climbs : StoredSkill
climbs = skill "../up" false

abbrev same_entry : StoredSkill
same_entry = skill "a-b" true

markdown :
    to_skill_markdown commit
    ≡ "---\nname: commit\ndescription: Does things\ndisable-model-invocation: true\n---\nBody\n"
unfolding to_skill_markdown
markdown = refl

made_safe : safe_name "my skill/v2" ≡ "my-skill-v2"
unfolding safe_name is_allowed
made_safe = refl

-- Starts with a stale entry.
abbrev stale : Directory
stale = ("old", some "x") ∷ ("commit", none) ∷ []

abbrev synced : Sync
synced = materialize_skills "/d" stale (review ∷ climbs ∷ commit ∷ [])

entries : map (λ e. e.0) synced.files ≡ "commit" ∷ "a-b" ∷ []
unfolding materialize_skills is_allowed
entries = refl

-- Two rows for one entry overwrite each other at every sync.
collide_again :
    (materialize_skills "/d"
      (materialize_skills "/d" [] (review ∷ same_entry ∷ [])).files
      (review ∷ same_entry ∷ [])).written
    ≡ "a-b" ∷ "a-b" ∷ []
unfolding materialize_skills is_allowed
collide_again = refl

materialize_skills_mirrors_example :
    JsMap.get synced.files "old" ≡ Option.map some (wanted (review ∷ climbs ∷ commit ∷ []) "old")
materialize_skills_mirrors_example =
    materialize_skills_mirrors "/d" stale (review ∷ climbs ∷ commit ∷ []) "old"

materialize_skills-IsInPlace_example : All (IsInPlace "/d" synced.files) synced.out
materialize_skills-IsInPlace_example =
    materialize_skills-IsInPlace "/d" stale (review ∷ climbs ∷ commit ∷ [])

distinct : HasDistinctNames (review ∷ commit ∷ [])
unfolding safe_name is_allowed
distinct = (((λ h. ground (arith, eq_iff "commit" "a-b")), tt), (tt, tt))

materialize_skills_again_example :
    (materialize_skills "/d"
      (materialize_skills "/d" stale (review ∷ commit ∷ [])).files
      (review ∷ commit ∷ [])).written
    ≡ []
materialize_skills_again_example =
    materialize_skills_again "/d" stale (review ∷ commit ∷ []) distinct
