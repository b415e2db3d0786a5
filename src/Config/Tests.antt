-- ===== src/Config/Tests.antt =====
-- Runs of packages/runtime/src/workspace-config-store.ts, and the theorems at concrete tables.
use akko.Prelude.{◌≡◌, refl, true, false, none, some, List, [], ◌∷◌, map}
use akko.Config.{
  SkillInput, AgentTypeInput, ConfigStore, list_skills, upsert_skill, set_skill_hidden,
}
use akko.Config.Listed.{listed_skill, as_stored, listed_skill-upsert_skill}
use akko.Config.Kept.{
  Call, save_skill, save_agent_type, hide_skill, drop_skill, run, empty_store, IsListing,
  run-IsListing,
}

abbrev review : SkillInput
review = record {
  workspace_id = "w";
  name = "review";
  description = "Reviews a change";
  content = "Read the diff.";
  hidden_from_prompt = false;
  updated_at = some 5;
}

abbrev commit : SkillInput
commit = record {
  workspace_id = "w";
  name = "commit";
  description = "Writes a commit";
  content = "Be short.";
  hidden_from_prompt = true;
  updated_at = none;
}

abbrev scout : AgentTypeInput
scout = record {
  workspace_id = "w";
  name = "scout";
  description = none;
  model = some "a/b";
  thinking_level = none;
  tools = some [];
  instructions = "Look around.";
  updated_at = none;
}

abbrev calls : List Call
calls =
    save_skill review 1
    ∷ save_skill commit 2
    ∷ save_agent_type scout 3
    ∷ save_skill review 4
    ∷ hide_skill "w" "review" true 9
    ∷ drop_skill "w" "other"
    ∷ []

abbrev two_skills : ConfigStore
two_skills = run empty_store (save_skill review 1 ∷ save_skill commit 2 ∷ [])

names_in_order : map (λ k. k.name) (list_skills two_skills "w") ≡ "commit" ∷ "review" ∷ []
unfolding list_skills run
names_in_order = refl

own_time_kept : map (λ k. k.updated_at) (list_skills (run empty_store calls) "w") ≡ 2 ∷ 9 ∷ []
unfolding list_skills run
own_time_kept = refl

not_owned : (set_skill_hidden two_skills "v" "review" true 3).1 ≡ false
unfolding set_skill_hidden run
not_owned = refl

run-IsListing_example : IsListing (run empty_store calls) "w"
run-IsListing_example = run-IsListing calls "w"

listed_skill-upsert_skill_example :
    listed_skill (upsert_skill two_skills review 7) "w" "review" ≡ some (as_stored review 7)
listed_skill-upsert_skill_example = listed_skill-upsert_skill two_skills review 7 "w" "review"
