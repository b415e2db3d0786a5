-- ===== src/Registry/Indexed/Runs.antt =====
-- Orders of what the registry of packages/runtime/src/session-registry.ts is asked to do, and its
-- index.
use akko.Prelude.{
  ℕ, zero, suc, ◌≡◌, refl, sym, ap, subst, ◌∙◌, String, true, Option, none, some, is_some, List, [],
  ◌∷◌, All, All-append, All-weaken, arith, Option-cases, inl, inr, Result, ok, failed, get_elem?,
}
use akko.Prelude.JsMap
use akko.Domain.{SessionRef, Workspace}
use akko.Index.{get_ref}
use akko.Registry.{
  Failure, Deps, Config, Driver, build_driver, Registry, new_registry, workspace_runtime,
  register_workspace, ensure_projected,
}
use akko.Registry.Opening.{
  Opened, found, rehydrated, rehydrate, found_or_built, begin_get, finish_get, resolved,
  create_conversation, spawn_subagent,
}
use akko.Registry.Closing.{
  stop_subagent, evict, dispose_all, touch_session, on_renamed, on_model_changed,
}
use akko.Registry.Steps.{
  System, Operation, begins, finishes, creates, spawns, stops, evicts, disposes, registers,
  projects, touches, renames, changes_model, configures, and_wait, finish, step, run, new_system,
}
use akko.Registry.Kept.{RefOk, IsKept, workspace_runtime-SameCore}
use akko.Registry.Runs.{SystemOk, step-IsKept, new-IsKept, rehydrate-same}
use akko.Registry.Indexed

-- What a `get` waits with is in the index.
abbrev pub OpenedIn : Registry → Opened → Type 0
OpenedIn r (found l) = Unit
OpenedIn r (rehydrated ref driver) = is_some (JsMap.get r.index ref.id) ≡ true

abbrev BegunIn : Registry → Result Failure Opened → Type 0
BegunIn r (failed e) = Unit
BegunIn r (ok o) = OpenedIn r o

OpenedIn-Fits : (r q : Registry) (o : Opened) → Indexed.Fits r q → OpenedIn r o → OpenedIn q o
OpenedIn-Fits r q (found l) f h = tt
OpenedIn-Fits r q (rehydrated ref driver) f h = elim (Option-cases (JsMap.get q.index ref.id)) [
  | inl n ↦ (let e = (f ref.id n).0 in let g = h in absurd (ground arith))
  | inr x ↦ ap is_some x.1
]

found_or_built-BegunIn :
    (r : Registry) (ref : SessionRef) (o : Option Driver)
    → is_some (JsMap.get r.index ref.id) ≡ true
    → BegunIn (found_or_built r ref o).0 (found_or_built r ref o).1
found_or_built-BegunIn r ref none i = tt
found_or_built-BegunIn r ref (some driver) i = i

rehydrate-BegunIn :
    (d : Deps) (ref : SessionRef) (p : Registry × Result Failure Workspace)
    → is_some (JsMap.get p.0.index ref.id) ≡ true
    → BegunIn (rehydrate d ref p).0 (rehydrate d ref p).1
unfolding rehydrate
rehydrate-BegunIn d ref (r, failed e) i = tt
rehydrate-BegunIn d ref (r, ok w) i =
    found_or_built-BegunIn r ref
      (build_driver d r ref.workspace_id ref.id ref.kind (resolved d ref.model) none) i

-- The cases of the first half of a `get`: what it leaves fits, and what it waits with is in the index.
begin_get-BegunIn :
    (d : Deps) (r : Registry) (sid : String)
    → IsKept r
    → Indexed.Fits r (begin_get d r sid).0 × BegunIn (begin_get d r sid).0 (begin_get d r sid).1
unfolding begin_get get_ref
begin_get-BegunIn d r sid v = elim (Option-cases (JsMap.get r.live sid)) [
  | inr l ↦ rw (l.1, begin_get) (Indexed.Fits-refl r, tt)
  | inl n ↦ elim (Option-cases (JsMap.get r.index sid)) [
    | inl m ↦ rw (n, m, begin_get) (Indexed.Fits-refl r, tt)
    | inr ref ↦
        let p = workspace_runtime d r ref.0.workspace_id in
        let same : ref.0.id ≡ sid = subst (λ o. RefOk sid o) ref.1 (v sid).1 in
        let known : is_some (JsMap.get p.0.index ref.0.id) ≡ true =
          ap (λ m. is_some (JsMap.get m ref.0.id))
            (workspace_runtime-SameCore d r ref.0.workspace_id).1
          ∙ ap (λ k. is_some (JsMap.get r.index k)) same
          ∙ ap is_some ref.1 in
        rw (n, ref.1, begin_get)
          (
            subst (Indexed.Fits r) (sym (rehydrate-same d ref.0 p))
                (Indexed.workspace_runtime-Fits d r ref.0.workspace_id),
            rehydrate-BegunIn d ref.0 p known,
          )
  ]
]

finish_get-Fits :
    (d : Deps) (r : Registry) (o : Opened) → OpenedIn r o → Indexed.Fits r (finish_get d r o).0
unfolding finish_get
finish_get-Fits d r (found l) i = Indexed.Fits-refl r
finish_get-Fits d r (rehydrated ref driver) i =
    Indexed.instantiate-Fits d r ref driver driver.messages i

finish-Fits :
    (d : Deps) (r : Registry) (waiting : List Opened) (i : ℕ)
    → All (OpenedIn r) waiting
    → Indexed.Fits r (finish d r (get_elem? waiting i))
finish-Fits d r [] i h = Indexed.Fits-refl r
finish-Fits d r (o ∷ waiting) zero h = finish_get-Fits d r o h.0
finish-Fits d r (o ∷ waiting) (suc i) h = finish-Fits d r waiting i h.1

-- The live sessions of the registry, and those that a `get` waits to make live, are in the index.
abbrev pub SystemIn : System → Type 0
SystemIn s = Indexed.IsIndexed s.registry × All (OpenedIn s.registry) s.waiting

Fits-SystemIn :
    (s : System) (r : Registry)
    → Indexed.Fits s.registry r
    → SystemIn s
    → SystemIn (record s { registry = r })
Fits-SystemIn s r f v = (
  Indexed.Fits-IsIndexed s.registry r f v.0,
  All-weaken s.waiting (λ o h. OpenedIn-Fits s.registry r o f h) v.1,
)

and_wait-SystemIn :
    (s : System) (p : Registry × Result Failure Opened)
    → Indexed.Fits s.registry p.0 × BegunIn p.0 p.1
    → SystemIn s
    → SystemIn (and_wait s.waiting p)
and_wait-SystemIn s (r, failed e) b v = Fits-SystemIn s r b.0 v
and_wait-SystemIn s (r, ok o) b v =
    let w = Fits-SystemIn s r b.0 v in
    (w.0, All-append (OpenedIn r) s.waiting (o ∷ []) w.1 (b.1, tt))

step-SystemIn :
    (d : Deps) (s : System) (o : Operation) → IsKept s.registry → SystemIn s → SystemIn (step d s o)
unfolding step
step-SystemIn d s (begins sid) k v =
    and_wait-SystemIn s (begin_get d s.registry sid) (begin_get-BegunIn d s.registry sid k) v
step-SystemIn d s (finishes i) k v =
    Fits-SystemIn s (finish d s.registry (get_elem? s.waiting i))
      (finish-Fits d s.registry s.waiting i v.1) v
step-SystemIn d s (creates input id now) k v =
    Fits-SystemIn s (create_conversation d s.registry input id now).0
      (Indexed.create_conversation-Fits d s.registry input id now) v
step-SystemIn d s (spawns options id now) k v =
    Fits-SystemIn s (spawn_subagent d s.registry options id now).0
      (Indexed.spawn_subagent-Fits d s.registry options id now) v
step-SystemIn d s (stops sid parent) k v =
    Fits-SystemIn s (stop_subagent s.registry sid parent).0
      (Indexed.stop_subagent-Fits s.registry sid parent) v
step-SystemIn d s (evicts sid) k v =
    Fits-SystemIn s (evict s.registry sid) (Indexed.evict-Fits s.registry sid) v
step-SystemIn d s disposes k v =
    Fits-SystemIn s (dispose_all s.registry) (Indexed.dispose_all-Fits s.registry) v
step-SystemIn d s (registers w) k v =
    Fits-SystemIn s (register_workspace d s.registry w)
      (Indexed.register_workspace-Fits d s.registry w) v
step-SystemIn d s (projects sid) k v =
    Fits-SystemIn s (ensure_projected d s.registry sid).0
      (Indexed.ensure_projected-Fits d s.registry sid) v
step-SystemIn d s (touches sid now) k v =
    Fits-SystemIn s (touch_session d s.registry sid now)
      (Indexed.touch_session-Fits d s.registry sid now) v
step-SystemIn d s (renames sid title now) k v =
    Fits-SystemIn s (on_renamed d s.registry sid title now)
      (Indexed.on_renamed-Fits d s.registry sid title now) v
step-SystemIn d s (changes_model sid model now) k v =
    Fits-SystemIn s (on_model_changed d s.registry sid model now)
      (Indexed.on_model_changed-Fits d s.registry sid model now) v
step-SystemIn d s (configures config) k v =
    Fits-SystemIn s (record s.registry { config = config })
      (Indexed.same-Fits s.registry (record s.registry { config = config }) (refl, refl, refl)) v

run-SystemIn :
    (d : Deps) (s : System) (os : List Operation) → SystemOk s → SystemIn s → SystemIn (run d s os)
unfolding run
run-SystemIn d s [] k v = v
run-SystemIn d s (o ∷ os) k v =
    run-SystemIn d (step d s o) os (step-IsKept d s o k) (step-SystemIn d s o k.0 v)

pub new-IsIndexed : (config : Option Config) → Indexed.IsIndexed (new_registry config)
unfolding JsMap.get
new-IsIndexed config sid n = refl

-- Whatever the registry is asked to do, in any order and with any steps between the two of a `get`,
-- a session that is not in the index has no live runtime.
pub run-IsIndexed :
    (d : Deps) (config : Option Config) (os : List Operation)
    → Indexed.IsIndexed (run d (new_system config) os).registry
run-IsIndexed d config os =
    (run-SystemIn d (new_system config) os (new-IsKept config, tt) (new-IsIndexed config, tt)).0
