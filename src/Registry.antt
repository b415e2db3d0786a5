-- ===== src/Registry.antt =====
-- packages/runtime/src/session-registry.ts: the registry of sessions, live and cold. The index is the
-- one that is kept in memory; the workspace's runtime, pi's session and the router of models are
-- parameters. A runtime is known by a number: two runtimes of one session are two numbers.
pub mod Opening
pub mod Closing
pub mod Steps
pub mod Kept
pub mod Runs
pub mod Indexed
pub mod Authority
pub mod Gets
mod Tests
use akko.Prelude.{
  ℕ, ◌+◌, String, Bool, true, false, not, ◌||◌, ◌&&◌, Option, none, some, or_else, List, [], ◌∷◌,
  ◌++◌, map, filter, ◌==◌, if◌then◌else◌, or_default, truthy, is_some, Result, ok, failed,
}
use akko.Prelude.JsMap
use akko.Prelude.JsMap.{JsMap}
use akko.Domain.{SessionRef, SessionKind, conversation, subagent, Workspace}
use akko.Index.{MemoryIndex, upsert_ref, get_ref, list_refs, touch}

pub record AgentType : Type 0 where
  pub name : String
  pub description : Option String
  pub model : Option String
  pub thinking_level : Option String
  pub tools : Option (List String)
  pub instructions : String

pub data Failure : Type 0 where
  unknown_session unknown_workspace unknown_parent : String → Failure
  other_workspace foreign_subagent : Failure
  bad_model unknown_agent_type : String → Failure
  not_built : Failure

-- What `createAgentSession` makes: the model that it runs on and the messages that it starts with.
pub record Built : Type 0 where
  pub model : Option String
  pub messages : ℕ

pub record Deps : Type 0 where
  pub has_projector : Bool
  pub node_id : Option String
  -- whether a workspace's runtime has a resource loader
  pub has_loader : Bool
  -- the presets of the directory of agent types
  pub disk_types : JsMap AgentType
  -- `router.resolveModelString`, by the reference of the model that it finds
  pub resolve_model : String → Option String
  -- a session of pi for a conversation, of a kind, on a model
  pub build : String → SessionKind → Option String → Option AgentType → Option Built

-- What `#buildSession` gives: a session of pi, with what it was built with.
pub record Driver : Type 0 where
  pub model : Option String
  pub messages : ℕ
  -- whether it has the tool `spawn_subagent`
  pub can_spawn : Bool
  -- the version of the skills that were on disk when its prompt was put together
  pub prompt_skills : String

-- The rows of the workspace configuration.
pub record Config : Type 0 where
  pub skills_version : String → String
  pub agent_types : String → List AgentType

pub record Live : Type 0 where
  pub runtime : ℕ
  pub ref : SessionRef
  pub persisted_count : ℕ
  pub driver : Driver

pub data ProjectorCall : Type 0 where
  ensure_session project_session_meta : SessionRef → ProjectorCall

pub record Registry : Type 0 where
  pub live : JsMap Live
  pub workspaces : JsMap Workspace
  pub index : MemoryIndex
  pub materialized : JsMap String
  pub session_skills_version : JsMap String
  pub config : Option Config
  pub projector_calls : List ProjectorCall
  pub aborted : List ℕ
  pub next_runtime : ℕ

abbrev pub new_registry : Option Config → Registry
new_registry config = record {
  live = [];
  workspaces = [];
  index = [];
  materialized = [];
  session_skills_version = [];
  config = config;
  projector_calls = [];
  aborted = [];
  next_runtime = 0;
}

abbrev pub skills_version_for : Registry → String → String
skills_version_for r workspace = elim r.config [
  | none ↦ ""
  | some config ↦ config.skills_version workspace
]

abbrev pub is_stale : Option String → String → Bool
is_stale none current = false
is_stale (some at) current = not (at == current)

-- The test of one live session in `staleSkillSessions`.
unfoldable pub stale_in : Registry → String → String → Live → Bool
stale_in r workspace sid l =
    l.ref.workspace_id == workspace
    && is_stale (JsMap.get r.session_skills_version sid) (skills_version_for r workspace)

unfoldable pub stale_skill_sessions : Registry → String → List String
unfolding stale_in
stale_skill_sessions r workspace =
    map (λ e. e.0) (filter (λ e. stale_in r workspace e.0 e.1) r.live)

abbrev pub add_types : JsMap AgentType → List AgentType → JsMap AgentType
add_types merged [] = merged
add_types merged (row ∷ rows) = add_types (JsMap.put merged row.name row) rows

unfoldable pub agent_types : Deps → Registry → String → JsMap AgentType
agent_types d r workspace = elim r.config [
  | none ↦ d.disk_types
  | some config ↦
      if workspace == ""
      then d.disk_types
      else add_types d.disk_types (config.agent_types workspace)
]

-- A call of the projector, if there is one.
unfoldable pub call_projector : Deps → Registry → ProjectorCall → Registry
call_projector d r c =
    if d.has_projector then record r { projector_calls = r.projector_calls ++ c ∷ [] } else r

abbrev describe_all : Deps → Registry → List SessionRef → Registry
describe_all d r [] = r
describe_all d r (ref ∷ refs) = describe_all d (call_projector d r (project_session_meta ref)) refs

unfoldable pub register_workspace : Deps → Registry → Workspace → Registry
unfolding call_projector list_refs
register_workspace d r w =
    let q = record r { workspaces = JsMap.put r.workspaces w.id w } in
    describe_all d q (list_refs q.index w.id)

unfoldable pub ensure_projected : Deps → Registry → String → Registry × Bool
unfolding call_projector get_ref
ensure_projected d r sid = elim (get_ref r.index sid) [
  | none ↦ (r, false)
  | some ref ↦ (call_projector d r (ensure_session ref), true)
]

-- What `#workspaceRuntime` records of the skills that it writes out.
abbrev pub materialize_from : Deps → Registry → String → Option Config → Registry
materialize_from d r workspace none = r
materialize_from d r workspace (some config) =
    if d.has_loader
    then record r {
      materialized = JsMap.put r.materialized workspace (config.skills_version workspace);
    }
    else r

unfoldable pub materialize : Deps → Registry → String → Registry
materialize d r workspace = materialize_from d r workspace r.config

unfoldable pub workspace_runtime : Deps → Registry → String → Registry × Result Failure Workspace
unfolding materialize
workspace_runtime d r workspace = elim (JsMap.get r.workspaces workspace) [
  | none ↦ (r, failed (unknown_workspace workspace))
  | some w ↦ (materialize d r workspace, ok w)
]

-- `forSession.kind === "conversation"`
abbrev pub may_spawn : SessionKind → Bool
may_spawn conversation = true
may_spawn subagent = false

abbrev pub version_on_disk : Registry → String → String
version_on_disk r workspace = or_default (JsMap.get r.materialized workspace) ""

abbrev pub driver_of : Registry → String → SessionKind → Built → Driver
driver_of r workspace kind b = record {
  model = b.model;
  messages = b.messages;
  can_spawn = may_spawn kind;
  prompt_skills = version_on_disk r workspace;
}

-- `#buildSession`: the kind that its caller passes decides on the tool.
unfoldable pub build_driver :
    Deps
    → Registry
    → String
    → String
    → SessionKind
    → Option String
    → Option AgentType
    → Option Driver
build_driver d r workspace id kind model type = elim (d.build id kind model type) [
  | none ↦ none
  | some b ↦ some (driver_of r workspace kind b)
]

unfoldable pub instantiate : Deps → Registry → SessionRef → Driver → ℕ → Registry × Live
unfolding call_projector
instantiate d r ref driver persisted_count =
    let q = call_projector d r (ensure_session ref) in
    let l : Live = record {
      runtime = q.next_runtime;
      ref = ref;
      persisted_count = persisted_count;
      driver = driver;
    } in
    (
      record q {
        session_skills_version =
            JsMap.put q.session_skills_version ref.id (version_on_disk q ref.workspace_id);
        live = JsMap.put q.live ref.id l;
        next_runtime = q.next_runtime + 1;
      },
      l,
    )
