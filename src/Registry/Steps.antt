-- ===== src/Registry/Steps.antt =====
-- Orders of what the registry of packages/runtime/src/session-registry.ts is asked to do. A `get` is
-- two steps, with other steps between them, or none; the `get`s that wait are kept in a list.
use akko.Prelude.{ℕ, String, Option, none, some, List, [], ◌∷◌, ◌++◌, get_elem?, Result, ok, failed}
use akko.Domain.{Workspace}
use akko.Registry.{
  Failure, Deps, Config, Registry, new_registry, register_workspace, ensure_projected,
}
use akko.Registry.Opening.{
  Opened, begin_get, finish_get, CreateInput, create_conversation, SpawnOptions, spawn_subagent,
}
use akko.Registry.Closing.{
  stop_subagent, evict, dispose_all, touch_session, on_renamed, on_model_changed,
}

pub record System : Type 0 where
  pub registry : Registry
  pub waiting : List Opened

pub data Operation : Type 0 where
  begins : String → Operation
  finishes : ℕ → Operation
  creates : CreateInput → String → ℕ → Operation
  spawns : SpawnOptions → String → ℕ → Operation
  stops : String → Option String → Operation
  evicts : String → Operation
  disposes : Operation
  registers : Workspace → Operation
  projects : String → Operation
  touches : String → ℕ → Operation
  renames : String → String → ℕ → Operation
  changes_model : String → String → ℕ → Operation
  -- another part of the program writes the workspace configuration
  configures : Option Config → Operation

abbrev pub and_wait : List Opened → Registry × Result Failure Opened → System
and_wait waiting (r, failed e) = record { registry = r; waiting = waiting }
and_wait waiting (r, ok o) = record { registry = r; waiting = waiting ++ o ∷ [] }

abbrev pub finish : Deps → Registry → Option Opened → Registry
finish d r none = r
finish d r (some o) = (finish_get d r o).0

abbrev pub with_registry : System → Registry → System
with_registry s r = record s { registry = r }

unfoldable pub step : Deps → System → Operation → System
unfolding begin_get finish_get create_conversation spawn_subagent stop_subagent
step d s (begins sid) = and_wait s.waiting (begin_get d s.registry sid)
step d s (finishes i) = with_registry s (finish d s.registry (get_elem? s.waiting i))
step d s (creates input id now) = with_registry s (create_conversation d s.registry input id now).0
step d s (spawns options id now) = with_registry s (spawn_subagent d s.registry options id now).0
step d s (stops sid parent) = with_registry s (stop_subagent s.registry sid parent).0
step d s (evicts sid) = with_registry s (evict s.registry sid)
step d s disposes = with_registry s (dispose_all s.registry)
step d s (registers w) = with_registry s (register_workspace d s.registry w)
step d s (projects sid) = with_registry s (ensure_projected d s.registry sid).0
step d s (touches sid now) = with_registry s (touch_session d s.registry sid now)
step d s (renames sid title now) = with_registry s (on_renamed d s.registry sid title now)
step d s (changes_model sid model now) =
    with_registry s (on_model_changed d s.registry sid model now)
step d s (configures config) = with_registry s (record s.registry { config = config })

abbrev pub new_system : Option Config → System
new_system config = record { registry = new_registry config; waiting = [] }

unfoldable pub run : Deps → System → List Operation → System
unfolding step
run d s [] = s
run d s (o ∷ os) = run d (step d s o) os
