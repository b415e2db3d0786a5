-- ===== src/Building.antt =====
-- packages/runtime/src/session-registry.ts: what a session is built with, `#buildSession`, and what the
-- registry reads of the tables of the workspace configuration.
pub mod Fresh
mod Tests
use akko.Prelude.{
  String, Bool, true, false, Option, none, some, or_else, List, [], ◌∷◌, map, ◌==◌, if◌then◌else◌,
  truthy,
}
use akko.Prelude.JsMap
use akko.Domain.{SessionRef, SessionKind, conversation, subagent}
use akko.Index.{MemoryIndex, get_ref}
use akko.Limits.Env.{provider_of}
use akko.Config.{ConfigStore, StoredAgentType, list_skills, list_agent_types}
use akko.SkillFiles.{skills_version}
use akko.AgentTypes.{apply_agent_type, describe_agent_types}
use akko.Registry.{AgentType, Config, Deps, Registry, agent_types}

-- A row as a preset.
abbrev pub to_preset : StoredAgentType → AgentType
to_preset row = record {
  name = row.name;
  description = row.description;
  model = row.model;
  thinking_level = row.thinking_level;
  tools = row.tools;
  instructions = row.instructions;
}

-- What `skillsVersionFor` and `agentTypes` read of the tables.
unfoldable pub config_of : (String → String → Bool) → (String → String) → ConfigStore → Config
config_of locale_leb hash store = record {
  skills_version = λ workspace. skills_version locale_leb hash (list_skills store workspace);
  agent_types = λ workspace. map to_preset (list_agent_types store workspace);
}

-- What the tool that spawns subagents is given of its session.
pub record SpawnTool : Type 0 where
  pub parent_session_id : String
  pub workspace_id : String
  pub actor_id : String

-- The options of `createAgentSession` that depend on the session.
pub record SessionOptions : Type 0 where
  pub model : Option String
  pub custom_tools : Option SpawnTool
  pub tools : Option (List String)
  pub thinking_level : Option String

abbrev tools_for : String → String → String → SessionKind → Option SpawnTool
tools_for workspace id owner conversation =
    some (record { parent_session_id = id; workspace_id = workspace; actor_id = owner })
tools_for workspace id owner subagent = none

abbrev tools_of : Option AgentType → Option (List String)
tools_of none = none
tools_of (some type) = type.tools

abbrev level_of : Option AgentType → Option String
level_of none = none
level_of (some type) = truthy type.thinking_level

unfoldable pub build_session :
    String → Option String → String → String → SessionKind → Option AgentType → SessionOptions
unfolding truthy
build_session workspace model id owner kind type = record {
  model = model;
  custom_tools = tools_for workspace id owner kind;
  tools = tools_of type;
  thinking_level = level_of type;
}

abbrev model_of : Option SessionRef → Option String
model_of none = none
model_of (some ref) = ref.model

-- The closure `getProvider`: the batch's model, or else the one that the index has for the parent.
unfoldable pub get_provider : Registry → SpawnTool → Option String → Option String
unfolding get_ref provider_of
get_provider r tool override =
    provider_of (or_else override (model_of (get_ref r.index tool.parent_session_id)))

-- The closure `agentTypes`
unfoldable pub tool_agent_types : Deps → Registry → SpawnTool → String
unfolding describe_agent_types agent_types
tool_agent_types d r tool = describe_agent_types (agent_types d r tool.workspace_id)

abbrev type_named : Deps → Registry → SpawnTool → Option String → Option AgentType
type_named d r tool none = none
type_named d r tool (some name) = JsMap.get (agent_types d r tool.workspace_id) name

-- The closure `preparePrompt`: an empty name is none.
unfoldable pub prepare_prompt : Deps → Registry → SpawnTool → String → Option String → String
unfolding apply_agent_type agent_types truthy JsMap.get
prepare_prompt d r tool task name = apply_agent_type (type_named d r tool (truthy name)) task
