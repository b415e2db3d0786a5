-- ===== src/Registry/Opening.antt =====
-- packages/runtime/src/session-registry.ts: how a session comes to be live. A session is looked up,
-- created or spawned with a fresh id, at a time.
use akko.Prelude.{
  ℕ, String, Option, none, some, or_else, ◌==◌, if◌then◌else◌, or_default, truthy, Result, ok,
  failed,
}
use akko.Prelude.JsMap
use akko.Prelude.JsMap.{JsMap}
use akko.Domain.{SessionRef, conversation, subagent, Workspace}
use akko.Index.{upsert_ref, get_ref}
use akko.Registry.{
  AgentType, Failure, unknown_session, unknown_parent, other_workspace, bad_model,
  unknown_agent_type, not_built, Driver, build_driver, Deps, Live, Registry, ensure_session,
  agent_types, call_projector, workspace_runtime, instantiate,
}

-- A model that does not resolve is left out.
abbrev pub resolved : Deps → Option String → Option String
resolved d model = elim (truthy model) [ none ↦ none | some m ↦ d.resolve_model m ]

-- What `get` holds when it has waited for everything: a live runtime, or what it needs for a new one.
pub data Opened : Type 0 where
  found : Live → Opened
  rehydrated : SessionRef → Driver → Opened

abbrev pub found_or_built : Registry → SessionRef → Option Driver → Registry × Result Failure Opened
found_or_built r ref none = (r, failed not_built)
found_or_built r ref (some driver) = (r, ok (rehydrated ref driver))

unfoldable pub rehydrate :
    Deps → SessionRef → Registry × Result Failure Workspace → Registry × Result Failure Opened
unfolding build_driver
rehydrate d ref (r, failed e) = (r, failed e)
rehydrate d ref (r, ok w) =
    found_or_built r ref
      (build_driver d r ref.workspace_id ref.id ref.kind (resolved d ref.model) none)

-- `get`, up to the last of its waits. The runtime of the workspace is fetched on the way.
unfoldable pub begin_get : Deps → Registry → String → Registry × Result Failure Opened
unfolding get_ref rehydrate
begin_get d r sid = elim (JsMap.get r.live sid) [
  | some l ↦ (r, ok (found l))
  | none ↦ elim (get_ref r.index sid) [
    | none ↦ (r, failed (unknown_session sid))
    | some ref ↦ rehydrate d ref (workspace_runtime d r ref.workspace_id)
  ]
]

-- The rest of `get`, which waits for nothing more.
unfoldable pub finish_get : Deps → Registry → Opened → Registry × Live
unfolding instantiate
finish_get d r (found l) = (r, l)
finish_get d r (rehydrated ref driver) = instantiate d r ref driver driver.messages

abbrev pub and_finish : Deps → Registry × Result Failure Opened → Registry × Result Failure Live
and_finish d (r, failed e) = (r, failed e)
and_finish d (r, ok o) = ((finish_get d r o).0, ok (finish_get d r o).1)

-- `get`, when nothing else runs between its waits.
unfoldable pub get : Deps → Registry → String → Registry × Result Failure Live
unfolding begin_get finish_get
get d r sid = and_finish d (begin_get d r sid)

-- `upsertRef`, `ensureSession` and `#instantiate`, with which both ways to a new session end.
unfoldable pub open_new : Deps → Registry → SessionRef → Driver → Registry × Live
unfolding upsert_ref call_projector instantiate
open_new d r ref driver =
    instantiate d
      (call_projector d (record r { index = upsert_ref r.index ref }) (ensure_session ref)) ref
      driver 0

abbrev pub open_built :
    Deps → Registry → SessionRef → Option Driver → Registry × Result Failure Live
open_built d r ref none = (r, failed not_built)
open_built d r ref (some driver) =
    let opened = open_new d r (record ref { model = driver.model }) driver in
    (opened.0, ok opened.1)

pub record CreateInput : Type 0 where
  pub workspace_id : String
  pub owner_id : String
  pub title : Option String
  pub model : Option String

abbrev pub new_conversation : Deps → CreateInput → String → ℕ → SessionRef
new_conversation d input id now = record {
  id = id;
  workspace_id = input.workspace_id;
  owner_id = input.owner_id;
  kind = conversation;
  parent_session_id = none;
  agent_type = none;
  title = input.title;
  model = none;
  host_node = some (or_default d.node_id "local");
  created_at = now;
  updated_at = now;
}

-- The requested model, when there is one, must resolve.
abbrev pub requested_model : Deps → Option String → Result Failure (Option String)
requested_model d model = elim (truthy model) [
  | none ↦ ok none
  | some m ↦ elim (d.resolve_model m) [ none ↦ failed (bad_model m) | some ref ↦ ok (some ref) ]
]

unfoldable pub build_conversation :
    Deps → Registry → SessionRef → Result Failure (Option String) → Registry × Result Failure Live
unfolding open_new build_driver
build_conversation d r ref (failed e) = (r, failed e)
build_conversation d r ref (ok model) =
    open_built d r ref (build_driver d r ref.workspace_id ref.id conversation model none)

unfoldable pub create_in :
    Deps
    → CreateInput
    → String
    → ℕ
    → Registry × Result Failure Workspace
    → Registry × Result Failure Live
unfolding build_conversation
create_in d input id now (r, failed e) = (r, failed e)
create_in d input id now (r, ok w) =
    build_conversation d r (new_conversation d input id now) (requested_model d input.model)

unfoldable pub create_conversation :
    Deps → Registry → CreateInput → String → ℕ → Registry × Result Failure Live
unfolding create_in
create_conversation d r input id now =
    create_in d input id now (workspace_runtime d r input.workspace_id)

pub record SpawnOptions : Type 0 where
  pub parent_session_id : String
  pub workspace_id : String
  pub actor_id : String
  pub agent_type : Option String
  pub title : Option String
  pub model : Option String

abbrev pub new_subagent : Deps → SpawnOptions → String → ℕ → SessionRef
new_subagent d options id now = record {
  id = id;
  workspace_id = options.workspace_id;
  owner_id = options.actor_id;
  kind = subagent;
  parent_session_id = some options.parent_session_id;
  agent_type = options.agent_type;
  title = some (or_default (or_else options.title options.agent_type) "subagent");
  model = none;
  host_node = some (or_default d.node_id "local");
  created_at = now;
  updated_at = now;
}

-- The preset that is asked for, if one is.
abbrev pub preset : JsMap AgentType → Option String → Result Failure (Option AgentType)
preset available asked = elim (truthy asked) [
  | none ↦ ok none
  | some name ↦ elim (JsMap.get available name) [
    | none ↦ failed (unknown_agent_type name)
    | some t ↦ ok (some t)
  ]
]

abbrev pub model_of : Option AgentType → Option String
model_of none = none
model_of (some t) = t.model

-- An explicit model goes before the preset's, and that before the parent's.
unfoldable pub build_subagent :
    Deps
    → Registry
    → SpawnOptions
    → SessionRef
    → SessionRef
    → Result Failure (Option AgentType)
    → Registry × Result Failure Live
unfolding open_new build_driver
build_subagent d r options parent ref (failed e) = (r, failed e)
build_subagent d r options parent ref (ok type) = open_built d r ref (
    build_driver d r ref.workspace_id ref.id subagent
      (resolved d (or_else options.model (or_else (model_of type) parent.model))) type)

unfoldable pub spawn_in :
    Deps
    → SpawnOptions
    → SessionRef
    → String
    → ℕ
    → Registry × Result Failure Workspace
    → Registry × Result Failure Live
unfolding build_subagent
spawn_in d options parent id now (r, failed e) = (r, failed e)
spawn_in d options parent id now (r, ok w) =
    build_subagent d r options parent (new_subagent d options id now)
      (preset (agent_types d r options.workspace_id) options.agent_type)

-- A subagent lives in the workspace of its parent.
unfoldable pub spawn_for :
    Deps → Registry → SpawnOptions → String → ℕ → Option SessionRef → Registry × Result Failure Live
unfolding spawn_in
spawn_for d r options id now none = (r, failed (unknown_parent options.parent_session_id))
spawn_for d r options id now (some parent) =
    if parent.workspace_id == options.workspace_id
    then spawn_in d options parent id now (workspace_runtime d r options.workspace_id)
    else (r, failed other_workspace)

unfoldable pub spawn_subagent :
    Deps → Registry → SpawnOptions → String → ℕ → Registry × Result Failure Live
unfolding spawn_for get_ref
spawn_subagent d r options id now =
    spawn_for d r options id now (get_ref r.index options.parent_session_id)
