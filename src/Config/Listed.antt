-- ===== src/Config/Listed.antt =====
-- What the workspace's lists of packages/runtime/src/workspace-config-store.ts hold after a write.
use akko.Prelude.{
  ℕ, ◌≡◌, refl, ◌∙◌, ap, String, Bool, true, false, ◌&&◌, Option, none, some, find, find-map, arith,
  ◌==◌, if◌then◌else◌, is_some, or_default,
}
use mathlib.Core.Option
use akko.Config.{
  skill_key, agent_type_key, StoredSkill, SkillInput, SkillRow, StoredAgentType, AgentTypeInput,
  ConfigStore, hide_row, to_skill, to_skill_row, to_agent_type, to_agent_type_row, tools_column,
  list_skills, upsert_skill, set_skill_hidden, delete_skill, list_agent_types, upsert_agent_type,
}
use akko.Config.Table.{
  row_at, list_rows, row_at-put_row, row_at-delete_rows, row_at-update_rows, owns-row_at,
  find-list_rows,
}

-- The skill of a name in a workspace's list.
unfoldable pub listed_skill : ConfigStore → String → String → Option StoredSkill
listed_skill s workspace name = find (λ k. k.name == name) (list_skills s workspace)

unfoldable pub listed_agent_type : ConfigStore → String → String → Option StoredAgentType
listed_agent_type s workspace name = find (λ t. t.name == name) (list_agent_types s workspace)

listed_skill-row :
    (s : ConfigStore) (workspace name : String)
    → listed_skill s workspace name ≡ Option.map to_skill (row_at s.skills workspace name)
unfolding listed_skill list_skills
listed_skill-row s workspace name =
    find-map (λ k. k.name == name) to_skill (list_rows s.skills workspace)
    ∙ ap (Option.map to_skill) (find-list_rows s.skills workspace name)

listed_agent_type-row :
    (s : ConfigStore) (workspace name : String)
    → listed_agent_type s workspace name
      ≡ Option.map to_agent_type (row_at s.agent_types workspace name)
unfolding listed_agent_type list_agent_types
listed_agent_type-row s workspace name =
    find-map (λ k. k.name == name) to_agent_type (list_rows s.agent_types workspace)
    ∙ ap (Option.map to_agent_type) (find-list_rows s.agent_types workspace name)

abbrev pub as_stored : SkillInput → ℕ → StoredSkill
as_stored k now = record {
  workspace_id = k.workspace_id;
  name = k.name;
  description = k.description;
  content = k.content;
  hidden_from_prompt = k.hidden_from_prompt;
  updated_at = or_default k.updated_at now;
}

to_skill-to_skill_row : (k : SkillInput) (now : ℕ) → to_skill (to_skill_row k now) ≡ as_stored k now
to_skill-to_skill_row k now = ground arith

-- After a skill is saved, its workspace lists it under its name as it was given, with the time of the
-- call where it had none; every other name, and every other workspace, lists what it did before.
pub listed_skill-upsert_skill :
    (s : ConfigStore) (k : SkillInput) (now : ℕ) (workspace name : String)
    → listed_skill (upsert_skill s k now) workspace name ≡ (
        if (k.workspace_id == workspace) && (k.name == name)
        then some (as_stored k now)
        else listed_skill s workspace name)
unfolding upsert_skill
listed_skill-upsert_skill s k now workspace name =
    listed_skill-row (upsert_skill s k now) workspace name
    ∙ ap (Option.map to_skill) (row_at-put_row s.skills (to_skill_row k now) workspace name)
    ∙ ground (arith, listed_skill-row s workspace name, to_skill-to_skill_row k now)

abbrev pub as_stored_type : AgentTypeInput → ℕ → StoredAgentType
as_stored_type t now = record {
  workspace_id = t.workspace_id;
  name = t.name;
  description = t.description;
  model = t.model;
  thinking_level = t.thinking_level;
  tools = tools_column t.tools;
  instructions = t.instructions;
  updated_at = or_default t.updated_at now;
}

-- After an agent type is saved, its workspace lists it under its name as it was given, but that an
-- empty list of tools comes back as no list, and with the time of the call where it had none; every
-- other name, and every other workspace, lists what it did before.
pub listed_agent_type-upsert_agent_type :
    (s : ConfigStore) (t : AgentTypeInput) (now : ℕ) (workspace name : String)
    → listed_agent_type (upsert_agent_type s t now) workspace name ≡ (
        if (t.workspace_id == workspace) && (t.name == name)
        then some (as_stored_type t now)
        else listed_agent_type s workspace name)
unfolding upsert_agent_type
listed_agent_type-upsert_agent_type s t now workspace name =
    listed_agent_type-row (upsert_agent_type s t now) workspace name
    ∙ ap (Option.map to_agent_type)
        (row_at-put_row s.agent_types (to_agent_type_row t now) workspace name)
    ∙ ground (arith, listed_agent_type-row s workspace name)

abbrev pub hide : Bool → ℕ → StoredSkill → StoredSkill
hide hidden now k = record k { hidden_from_prompt = hidden; updated_at = now }

hide-to_skill :
    (hidden : Bool) (now : ℕ) (o : Option SkillRow)
    → Option.map to_skill (Option.map (hide_row hidden now) o)
      ≡ Option.map (hide hidden now) (Option.map to_skill o)
hide-to_skill hidden now none = refl
hide-to_skill true now (some r) = refl
hide-to_skill false now (some r) = refl

is_some-map {ℓ κ} :
    {A : Type ℓ} {B : Type κ} (f : A → B) (o : Option A) → is_some (Option.map f o) ≡ is_some o
is_some-map f none = refl
is_some-map f (some a) = refl

-- The visibility call answers true exactly for a skill that the workspace lists. It then lists it
-- with the new visibility and time and is otherwise as before; every other skill is left alone.
pub set_skill_hidden_writes :
    (s : ConfigStore) (workspace name : String) (hidden : Bool) (now : ℕ) (w n : String)
    → let done = set_skill_hidden s workspace name hidden now in
      (done.1 ≡ is_some (listed_skill s workspace name))
      × (listed_skill done.0 w n ≡ (
          if (workspace == w) && (name == n)
          then Option.map (hide hidden now) (listed_skill s w n)
          else listed_skill s w n))
unfolding set_skill_hidden
set_skill_hidden_writes s workspace name hidden now w n = (
  owns-row_at s.skills workspace name
      ∙ rw (listed_skill-row s workspace name)
          (rw (is_some-map to_skill (row_at s.skills workspace name)) refl),
  listed_skill-row (set_skill_hidden s workspace name hidden now).0 w n
      ∙ ap (Option.map to_skill)
          (row_at-update_rows s.skills workspace name (hide_row hidden now) (λ r. (refl, refl)) w n)
      ∙ ground (arith, hide-to_skill hidden now (row_at s.skills w n), listed_skill-row s w n),
)

-- A deletion answers true exactly for a skill that the workspace lists. The workspace then lists none
-- of that name, and every other skill is left alone.
pub delete_skill_drops :
    (s : ConfigStore) (workspace name w n : String)
    → let done = delete_skill s workspace name in
      (done.1 ≡ is_some (listed_skill s workspace name))
      × (listed_skill done.0 w n
          ≡ (if (workspace == w) && (name == n) then none else listed_skill s w n))
unfolding delete_skill
delete_skill_drops s workspace name w n = (
  owns-row_at s.skills workspace name
      ∙ rw (listed_skill-row s workspace name)
          (rw (is_some-map to_skill (row_at s.skills workspace name)) refl),
  listed_skill-row (delete_skill s workspace name).0 w n
      ∙ ap (Option.map to_skill) (row_at-delete_rows s.skills workspace name w n)
      ∙ ground (arith, listed_skill-row s w n),
)
