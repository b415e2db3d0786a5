-- ===== src/Config.antt =====
-- packages/runtime/src/workspace-config-store.ts: the skills and the agent types that a workspace owns.
-- A table is its rows; its primary key is the workspace and the name. The clock is an argument, the
-- JSON of a list of tools is the list that it denotes.
pub mod Table
pub mod Listed
pub mod Kept
pub mod Frame
mod Tests
use akko.Prelude.{
  ℕ, String, Bool, true, false, Option, none, some, List, [], ◌∷◌, map, nat_eq, if◌then◌else◌,
  or_default,
}
use Table.{HasKey, put_row, list_rows, update_rows, delete_rows, owns}

pub record StoredSkill : Type 0 where
  pub workspace_id : String
  pub name : String
  pub description : String
  pub content : String
  pub hidden_from_prompt : Bool
  pub updated_at : ℕ

-- `Omit<StoredSkill, "updatedAt"> & { updatedAt?: number }`
pub record SkillInput : Type 0 where
  pub workspace_id : String
  pub name : String
  pub description : String
  pub content : String
  pub hidden_from_prompt : Bool
  pub updated_at : Option ℕ

-- A row of `workspace_skills`: SQLite keeps the flag as a number.
pub record SkillRow : Type 0 where
  pub workspace_id : String
  pub name : String
  pub description : String
  pub content : String
  pub hidden_from_prompt : ℕ
  pub updated_at : ℕ

pub record StoredAgentType : Type 0 where
  pub workspace_id : String
  pub name : String
  pub description : Option String
  pub model : Option String
  pub thinking_level : Option String
  pub tools : Option (List String)
  pub instructions : String
  pub updated_at : ℕ

pub record AgentTypeInput : Type 0 where
  pub workspace_id : String
  pub name : String
  pub description : Option String
  pub model : Option String
  pub thinking_level : Option String
  pub tools : Option (List String)
  pub instructions : String
  pub updated_at : Option ℕ

-- A row of `workspace_agent_types`; none is SQL's null.
pub record AgentTypeRow : Type 0 where
  pub workspace_id : String
  pub name : String
  pub description : Option String
  pub model : Option String
  pub thinking_level : Option String
  pub tools : Option (List String)
  pub instructions : String
  pub updated_at : ℕ

instance abbrev pub skill_key : HasKey SkillRow
skill_key = record { workspace_of = λ r. r.workspace_id; name_of = λ r. r.name }

instance abbrev pub agent_type_key : HasKey AgentTypeRow
agent_type_key = record { workspace_of = λ r. r.workspace_id; name_of = λ r. r.name }

pub record ConfigStore : Type 0 where
  pub skills : List SkillRow
  pub agent_types : List AgentTypeRow

-- `hidden ? 1 : 0`
abbrev pub flag : Bool → ℕ
flag hidden = if hidden then 1 else 0

abbrev pub to_skill : SkillRow → StoredSkill
to_skill r = record {
  workspace_id = r.workspace_id;
  name = r.name;
  description = r.description;
  content = r.content;
  hidden_from_prompt = nat_eq r.hidden_from_prompt 1;
  updated_at = r.updated_at;
}

abbrev pub to_skill_row : SkillInput → ℕ → SkillRow
to_skill_row skill now = record {
  workspace_id = skill.workspace_id;
  name = skill.name;
  description = skill.description;
  content = skill.content;
  hidden_from_prompt = flag skill.hidden_from_prompt;
  updated_at = or_default skill.updated_at now;
}

unfoldable pub list_skills : ConfigStore → String → List StoredSkill
unfolding list_rows
list_skills s workspace = map to_skill (list_rows s.skills workspace)

unfoldable pub upsert_skill : ConfigStore → SkillInput → ℕ → ConfigStore
unfolding put_row
upsert_skill s skill now = record s { skills = put_row s.skills (to_skill_row skill now) }

-- `SET hidden_from_prompt = ?, updated_at = ?`
abbrev pub hide_row : Bool → ℕ → SkillRow → SkillRow
hide_row hidden now r = record r { hidden_from_prompt = flag hidden; updated_at = now }

-- The answer is whether a row changed.
unfoldable pub set_skill_hidden : ConfigStore → String → String → Bool → ℕ → ConfigStore × Bool
unfolding update_rows owns
set_skill_hidden s workspace name hidden now = (
  record s { skills = update_rows s.skills workspace name (hide_row hidden now) },
  owns s.skills workspace name,
)

unfoldable pub delete_skill : ConfigStore → String → String → ConfigStore × Bool
unfolding delete_rows owns
delete_skill s workspace name =
    (record s { skills = delete_rows s.skills workspace name }, owns s.skills workspace name)

abbrev pub to_agent_type : AgentTypeRow → StoredAgentType
to_agent_type r = record {
  workspace_id = r.workspace_id;
  name = r.name;
  description = r.description;
  model = r.model;
  thinking_level = r.thinking_level;
  tools = r.tools;
  instructions = r.instructions;
  updated_at = r.updated_at;
}

-- `tools && tools.length > 0 ? JSON.stringify(tools) : null`
abbrev pub tools_column : Option (List String) → Option (List String)
tools_column none = none
tools_column (some []) = none
tools_column (some (t ∷ ts)) = some (t ∷ ts)

abbrev pub to_agent_type_row : AgentTypeInput → ℕ → AgentTypeRow
to_agent_type_row t now = record {
  workspace_id = t.workspace_id;
  name = t.name;
  description = t.description;
  model = t.model;
  thinking_level = t.thinking_level;
  tools = tools_column t.tools;
  instructions = t.instructions;
  updated_at = or_default t.updated_at now;
}

unfoldable pub list_agent_types : ConfigStore → String → List StoredAgentType
unfolding list_rows
list_agent_types s workspace = map to_agent_type (list_rows s.agent_types workspace)

unfoldable pub upsert_agent_type : ConfigStore → AgentTypeInput → ℕ → ConfigStore
unfolding put_row
upsert_agent_type s t now = record s {
  agent_types = put_row s.agent_types (to_agent_type_row t now);
}

unfoldable pub delete_agent_type : ConfigStore → String → String → ConfigStore × Bool
unfolding delete_rows owns
delete_agent_type s workspace name = (
  record s { agent_types = delete_rows s.agent_types workspace name },
  owns s.agent_types workspace name,
)
