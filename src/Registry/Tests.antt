-- ===== src/Registry/Tests.antt =====
-- A registry that packages/runtime/src/session-registry.ts may hold, and instances of its theorems.
use akko.Prelude.{◌≡◌, ◌≢◌, refl, String, Bool, true, false, Option, none, some, List, [], ◌∷◌, ok}
use akko.Prelude.JsMap
use akko.Domain.{SessionRef, SessionKind, conversation, Workspace, host}
use akko.Index.{get_ref}
use akko.Registry.{
  AgentType, Deps, Config, Built, Driver, Live, Registry, new_registry, call_projector, instantiate,
  stale_in, materialize, workspace_runtime,
}
use akko.Registry.Opening.{
  CreateInput, SpawnOptions, rehydrated, begin_get, finish_get, get, rehydrate,
}
use akko.Registry.Steps.{
  Operation, begins, finishes, creates, spawns, evicts, registers, run, new_system,
}
use akko.Domain.{subagent}
use akko.Registry.Closing.{stop_subagent}
use akko.Registry.Authority.{stop_subagent_aborts_own}
use akko.Prelude.{ne_of_test}
use akko.Registry.Kept.{IsKept, put-IsKept}
use akko.Registry.Runs.{run-IsKept, new-IsKept}
use akko.Registry.Gets.{
  driver_from, second_driver, got_cold, first_done, second_done, racing_gets_part, got_is_not_stale,
}

abbrev one_model : SessionKind → Option String → Option AgentType → Option Built
one_model kind model type = some (record { model = some "anthropic/claude"; messages = 2 })

abbrev deps : Deps
deps = record {
  has_projector = true;
  node_id = none;
  has_loader = true;
  disk_types = [];
  resolve_model = λ m. none;
  build = λ id. one_model;
}

abbrev skills : Config
skills = record { skills_version = λ w. "v1"; agent_types = λ w. [] }

abbrev home : Workspace
home = record { id = "ws_1"; name = "Home"; storage_root = "/w"; isolation = host; node_id = none }

abbrev input : CreateInput
input = record { workspace_id = "ws_1"; owner_id = "prn_1"; title = none; model = none }

abbrev options : SpawnOptions
options = record {
  parent_session_id = "ses_1";
  workspace_id = "ws_1";
  actor_id = "prn_1";
  agent_type = none;
  title = none;
  model = none;
}

abbrev day : List Operation
day =
    registers home
    ∷ creates input "ses_1" 5
    ∷ spawns options "ses_2" 6
    ∷ evicts "ses_1"
    ∷ begins "ses_1"
    ∷ begins "ses_1"
    ∷ finishes 0
    ∷ finishes 1
    ∷ []

run-IsKept_example : IsKept (run deps (new_system (some skills)) day).registry
run-IsKept_example = run-IsKept deps (some skills) day

abbrev ref : SessionRef
ref = record {
  id = "ses_1";
  workspace_id = "ws_1";
  owner_id = "prn_1";
  kind = conversation;
  parent_session_id = none;
  agent_type = none;
  title = none;
  model = some "anthropic/claude";
  host_node = some "local";
  created_at = 5;
  updated_at = 5;
}

abbrev cold : Registry
cold = record (new_registry (some skills)) {
  workspaces = ("ws_1", home) ∷ [];
  index = ("ses_1", ref) ∷ [];
}

cold-IsKept : IsKept cold
unfolding JsMap.put
cold-IsKept =
    put-IsKept (record (new_registry (some skills)) { workspaces = ("ws_1", home) ∷ [] }) "ses_1"
      ref refl (new-IsKept (some skills))

abbrev driver : Bool → String → Driver
driver can_spawn version = record {
  model = some "anthropic/claude";
  messages = 2;
  can_spawn = can_spawn;
  prompt_skills = version;
}

abbrev got : Live
got = record { runtime = 0; ref = ref; persisted_count = 2; driver = driver true "v1" }

abbrev built : Built
built = record { model = some "anthropic/claude"; messages = 2 }

first_get : (get deps cold "ses_1").1 ≡ ok got
unfolding get begin_get finish_get get_ref rehydrate workspace_runtime materialize instantiate
    call_projector JsMap.get JsMap.put
first_get = refl

racing_gets_part_example :
    ((begin_get deps cold "ses_1").1 ≡ ok (rehydrated ref (driver_from deps cold ref built)))
    × ((begin_get deps (begin_get deps cold "ses_1").0 "ses_1").1
        ≡ ok (rehydrated ref (second_driver deps cold "ses_1" ref built)))
    × ((first_done deps cold "ses_1" ref built).1.runtime
        ≢ (second_done deps cold "ses_1" ref built).1.runtime)
    × (JsMap.get (second_done deps cold "ses_1" ref built).0.live "ses_1"
        ≡ some (second_done deps cold "ses_1" ref built).1)
unfolding JsMap.get get_ref
racing_gets_part_example = racing_gets_part deps cold "ses_1" ref home built refl refl refl refl

got_is_not_stale_example :
    let after = got_cold deps cold ref built in
    (get deps cold "ses_1" ≡ (after.0, ok after.1))
    × (after.1.driver.prompt_skills ≡ "v1")
    × (JsMap.get after.0.session_skills_version "ses_1" ≡ some "v1")
    × (stale_in after.0 "ws_1" "ses_1" after.1 ≡ false)
unfolding JsMap.get get_ref
got_is_not_stale_example =
    got_is_not_stale deps cold "ses_1" ref home built skills refl refl refl refl refl refl

-- Skills that are written out between the two halves of a `get` count as those of its prompt.
abbrev interrupted : Registry × Live
interrupted =
    let begun = begin_get deps cold "ses_1" in
    let newer : Config = record skills { skills_version = λ w. "v2" } in
    finish_get deps (materialize deps (record begun.0 { config = some newer }) "ws_1")
      (rehydrated ref (driver_from deps cold ref built))

interrupted_is_missed :
    (interrupted.1.driver.prompt_skills ≡ "v1")
    × (JsMap.get interrupted.0.session_skills_version "ses_1" ≡ some "v2")
unfolding begin_get finish_get get_ref rehydrate workspace_runtime materialize instantiate
    call_projector JsMap.get JsMap.put
interrupted_is_missed = (refl, refl)

-- A subagent of `ses_1` that is live.
abbrev child_ref : SessionRef
child_ref = record ref { id = "ses_2"; kind = subagent; parent_session_id = some "ses_1" }

abbrev with_child : Registry
with_child = record cold {
  index = ("ses_2", child_ref) ∷ [];
  live =
      (
        "ses_2",
        record { runtime = 4; ref = child_ref; persisted_count = 0; driver = driver false "v1" },
      )
      ∷ [];
}

stop_subagent_aborts_own_example :
    (stop_subagent with_child "ses_2" (some "ses_1")).0.aborted ≡ 4 ∷ []
unfolding JsMap.get get_ref
stop_subagent_aborts_own_example =
    stop_subagent_aborts_own with_child "ses_2" "ses_1" (ne_of_test "ses_1" "" refl)
