-- ===== src/Building/Tests.antt =====
-- What packages/runtime/src/session-registry.ts builds sessions with, and its theorem at a registry.
use akko.Prelude.{◌≡◌, refl, String, true, false, none, some, [], ◌∷◌, arith, eq_iff}
use akko.Prelude.JsMap
use akko.Domain.{SessionRef, conversation, subagent}
use akko.Config.{SkillInput, AgentTypeInput, ConfigStore, list_agent_types}
use akko.Config.Kept.{save_skill, save_agent_type, run, step, empty_store}
use akko.Prelude.Sorting.{text_leb}
use akko.Registry.{Deps, Driver, Registry, new_registry, stale_skill_sessions}
use akko.Building.{SpawnTool, config_of, build_session, get_provider, prepare_prompt}
use akko.Building.Fresh.{over, stale_skill_sessions-other}

abbrev skill : String → SkillInput
skill workspace = record {
  workspace_id = workspace;
  name = "review";
  description = "d";
  content = "c";
  hidden_from_prompt = false;
  updated_at = some 1;
}

abbrev scout : AgentTypeInput
scout = record {
  workspace_id = "w";
  name = "scout";
  description = some "Reads";
  model = none;
  thinking_level = none;
  tools = some ("read" ∷ []);
  instructions = "Look.";
  updated_at = some 1;
}

abbrev store : ConfigStore
store = run empty_store (save_skill (skill "w") 0 ∷ save_agent_type scout 0 ∷ [])

abbrev driver : Driver
driver = record { model = none; messages = 0; can_spawn = true; prompt_skills = "" }

abbrev ref : SessionRef
ref = record {
  id = "ses_1";
  workspace_id = "w";
  owner_id = "prn_1";
  kind = conversation;
  parent_session_id = none;
  agent_type = none;
  title = none;
  model = some "anthropic/claude";
  host_node = none;
  created_at = 1;
  updated_at = 2;
}

-- A live session that was built when there were no skills.
abbrev registry : Registry
registry = record (new_registry none) {
  index = ("ses_1", ref) ∷ [];
  live = ("ses_1", record { runtime = 0; ref = ref; persisted_count = 0; driver = driver }) ∷ [];
  session_skills_version = ("ses_1", "") ∷ [];
}

abbrev same : String → String
same s = s

abbrev deps : Deps
deps = record {
  has_projector = false;
  node_id = none;
  has_loader = true;
  disk_types = [];
  resolve_model = λ m. none;
  build = λ id kind model type. none;
}

abbrev tool : SpawnTool
tool = record { parent_session_id = "ses_1"; workspace_id = "w"; actor_id = "prn_1" }

children_do_not_delegate :
    (build_session "w" none "ses_2" "prn_1" subagent none).custom_tools ≡ none
unfolding build_session
children_do_not_delegate = refl

provider_of_parent : get_provider registry tool none ≡ some "anthropic"
unfolding get_provider JsMap.get
provider_of_parent = refl

instructions_first :
    prepare_prompt deps (over text_leb same registry store) tool "Go" (some "scout")
    ≡ "Look.\n\n---\n\nTask:\nGo"
unfolding prepare_prompt run config_of list_agent_types JsMap.put
instructions_first = refl

stale_skill_sessions-other_example :
    stale_skill_sessions (over text_leb same registry (step store (save_skill (skill "v") 3))) "w"
    ≡ stale_skill_sessions (over text_leb same registry store) "w"
stale_skill_sessions-other_example =
    stale_skill_sessions-other text_leb same registry store (save_skill (skill "v") 3) "w"
      (λ h. ground (arith, eq_iff "v" "w"))
