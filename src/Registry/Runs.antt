-- ===== src/Registry/Runs.antt =====
-- Every order of what the registry of packages/runtime/src/session-registry.ts is asked to do.
use akko.Prelude.{
  ℕ, zero, suc, All, All-append, ◌≡◌, refl, subst, String, Option, none, some, List, [], ◌∷◌,
  Bool-cases, Option-cases, inl, inr, Result, ok, failed, get_elem?,
}
use akko.Prelude.JsMap
use akko.Prelude.JsMap.{JsMap}
use akko.Domain.{SessionRef, Workspace}
use akko.Index.{get_ref, upsert_ref, list_refs, touch}
use akko.Registry.{
  ProjectorCall, Driver, build_driver, Failure, Deps, Config, Live, Registry, new_registry,
  call_projector, register_workspace, describe_all, ensure_projected, ensure_session,
  project_session_meta, may_spawn, workspace_runtime,
}
use akko.Registry.Opening.{
  Opened, found, rehydrated, rehydrate, begin_get, finish_get, found_or_built, resolved,
}
use akko.Registry.Closing.{
  stop_subagent, abort_live, is_foreign, evict, dispose_all, touch_session, on_renamed,
  on_model_changed,
}
use akko.Registry.Steps.{
  System, Operation, begins, finishes, creates, spawns, stops, evicts, disposes, registers,
  projects, touches, renames, changes_model, configures, and_wait, finish, step, run, new_system,
}
use akko.Registry.Kept.{
  RefOk, HasTool, build_driver-HasTool, IsKept, same-IsKept, call_projector-SameCore, put-IsKept,
  delete-LiveOk, instantiate-IsKept, workspace_runtime-IsKept, create_conversation-IsKept,
  spawn_subagent-IsKept,
}

call_projector-IsKept :
    (d : Deps) (r : Registry) (c : ProjectorCall) → IsKept r → IsKept (call_projector d r c)
call_projector-IsKept d r c v =
    same-IsKept r (call_projector d r c) (call_projector-SameCore d r c) v

pub rehydrate-same :
    (d : Deps) (ref : SessionRef) (p : Registry × Result Failure Workspace)
    → (rehydrate d ref p).0 ≡ p.0
unfolding rehydrate
rehydrate-same d ref (r, failed e) = refl
rehydrate-same d ref (r, ok w) =
    by_built (build_driver d r ref.workspace_id ref.id ref.kind (resolved d ref.model) none)
  where
    by_built : (o : Option Driver) → (found_or_built r ref o).0 ≡ r
    by_built none = refl
    by_built (some b) = refl

begin_get-IsKept :
    (d : Deps) (r : Registry) (sid : String) → IsKept r → IsKept (begin_get d r sid).0
unfolding begin_get get_ref
begin_get-IsKept d r sid v = elim (Option-cases (JsMap.get r.live sid)) [
  | inr l ↦ rw (l.1, begin_get) v
  | inl n ↦ elim (Option-cases (JsMap.get r.index sid)) [
    | inl m ↦ rw (n, m, begin_get) v
    | inr ref ↦
        rw (n, ref.1, begin_get)
          (rw (rehydrate-same d ref.0 (workspace_runtime d r ref.0.workspace_id))
            (workspace_runtime-IsKept d r ref.0.workspace_id v))
  ]
]

-- What a `get` waits with was built for the kind of its session.
abbrev pub OpenedOk : Opened → Type 0
OpenedOk (found l) = Unit
OpenedOk (rehydrated ref driver) = driver.can_spawn ≡ may_spawn ref.kind

abbrev BegunOk : Result Failure Opened → Type 0
BegunOk (failed e) = Unit
BegunOk (ok o) = OpenedOk o

found_or_built-BegunOk :
    (r : Registry) (ref : SessionRef) (o : Option Driver)
    → HasTool ref.kind o
    → BegunOk (found_or_built r ref o).1
found_or_built-BegunOk r ref none h = tt
found_or_built-BegunOk r ref (some driver) h = h

rehydrate-BegunOk :
    (d : Deps) (ref : SessionRef) (p : Registry × Result Failure Workspace)
    → BegunOk (rehydrate d ref p).1
unfolding rehydrate
rehydrate-BegunOk d ref (r, failed e) = tt
rehydrate-BegunOk d ref (r, ok w) =
    found_or_built-BegunOk r ref
      (build_driver d r ref.workspace_id ref.id ref.kind (resolved d ref.model) none)
      (build_driver-HasTool d r ref.workspace_id ref.id ref.kind (resolved d ref.model) none)

begin_get-BegunOk : (d : Deps) (r : Registry) (sid : String) → BegunOk (begin_get d r sid).1
unfolding begin_get get_ref
begin_get-BegunOk d r sid = elim (Option-cases (JsMap.get r.live sid)) [
  | inr l ↦ rw (l.1, begin_get) tt
  | inl n ↦ elim (Option-cases (JsMap.get r.index sid)) [
    | inl m ↦ rw (n, m, begin_get) tt
    | inr ref ↦
        rw (n, ref.1, begin_get)
          (rehydrate-BegunOk d ref.0 (workspace_runtime d r ref.0.workspace_id))
  ]
]

finish_get-IsKept :
    (d : Deps) (r : Registry) (o : Opened) → OpenedOk o → IsKept r → IsKept (finish_get d r o).0
unfolding finish_get
finish_get-IsKept d r (found l) h v = v
finish_get-IsKept d r (rehydrated ref driver) h v =
    instantiate-IsKept d r ref driver driver.messages h v

finish-IsKept :
    (d : Deps) (r : Registry) (waiting : List Opened) (i : ℕ)
    → All OpenedOk waiting
    → IsKept r
    → IsKept (finish d r (get_elem? waiting i))
finish-IsKept d r [] i h v = v
finish-IsKept d r (o ∷ waiting) zero h v = finish_get-IsKept d r o h.0 v
finish-IsKept d r (o ∷ waiting) (suc i) h v = finish-IsKept d r waiting i h.1 v

describe_all-IsKept :
    (d : Deps) (r : Registry) (refs : List SessionRef) → IsKept r → IsKept (describe_all d r refs)
describe_all-IsKept d r [] v = v
describe_all-IsKept d r (ref ∷ refs) v =
    describe_all-IsKept d (call_projector d r (project_session_meta ref)) refs
      (call_projector-IsKept d r (project_session_meta ref) v)

register_workspace-IsKept :
    (d : Deps) (r : Registry) (w : Workspace) → IsKept r → IsKept (register_workspace d r w)
unfolding register_workspace
register_workspace-IsKept d r w v =
    let q : Registry = record r { workspaces = JsMap.put r.workspaces w.id w } in
    describe_all-IsKept d q (list_refs q.index w.id) v

ensure_projected-IsKept :
    (d : Deps) (r : Registry) (sid : String) → IsKept r → IsKept (ensure_projected d r sid).0
unfolding ensure_projected get_ref
ensure_projected-IsKept d r sid v = elim (Option-cases (JsMap.get r.index sid)) [
  | inl n ↦ rw (n, ensure_projected) v
  | inr ref ↦ rw (ref.1, ensure_projected) (call_projector-IsKept d r (ensure_session ref.0) v)
]

abort_live-IsKept : (r : Registry) (o : Option Live) → IsKept r → IsKept (abort_live r o).0
abort_live-IsKept r none v = v
abort_live-IsKept r (some l) v = v

stop_subagent-IsKept :
    (r : Registry) (sid : String) (parent : Option String)
    → IsKept r
    → IsKept (stop_subagent r sid parent).0
unfolding stop_subagent get_ref
stop_subagent-IsKept r sid parent v = elim (Option-cases (JsMap.get r.index sid)) [
  | inl n ↦ rw (n, stop_subagent) v
  | inr ref ↦ elim (Bool-cases (may_spawn ref.0.kind)) [
    | inl b ↦ rw (ref.1, b, stop_subagent) v
    | inr b ↦ elim (Bool-cases (is_foreign ref.0 parent)) [
      | inl c ↦ rw (ref.1, b, c, stop_subagent) v
      | inr c ↦ rw (ref.1, b, c, stop_subagent) (abort_live-IsKept r (JsMap.get r.live sid) v)
    ]
  ]
]

evict-IsKept : (r : Registry) (sid : String) → IsKept r → IsKept (evict r sid)
unfolding evict
evict-IsKept r sid v t = elim (Option-cases (JsMap.get r.live sid)) [
  | inl n ↦ rw (n, evict) (v t)
  | inr l ↦ rw (l.1, evict) (delete-LiveOk r sid t (v t).0, (v t).1)
]

dispose_all-IsKept : (r : Registry) → IsKept r → IsKept (dispose_all r)
unfolding dispose_all JsMap.get
dispose_all-IsKept r v t = (tt, (v t).1)

touch-IsKept :
    (r : Registry) (sid : String) (now : ℕ)
    → IsKept r
    → IsKept (record r { index = touch r.index sid now })
unfolding touch
touch-IsKept r sid now v = by_ref (JsMap.get r.index sid) refl
  where
    by_ref :
        (o : Option SessionRef)
        → JsMap.get r.index sid ≡ o
        → IsKept (record r { index = touch r.index sid now })
    by_ref none h = rw (h, touch) v
    by_ref (some ref) h =
        rw (h, touch)
          (put-IsKept r sid (record ref { updated_at = now }) (subst (λ o. RefOk sid o) h (v sid).1)
            v)

touch_session-IsKept :
    (d : Deps) (r : Registry) (sid : String) (now : ℕ)
    → IsKept r
    → IsKept (touch_session d r sid now)
unfolding touch_session get_ref
touch_session-IsKept d r sid now v =
    let q : Registry = record r { index = touch r.index sid now } in
    elim (Option-cases (JsMap.get q.index sid)) [
      | inl n ↦ rw (n, touch_session) (touch-IsKept r sid now v)
      | inr ref ↦
          rw (ref.1, touch_session)
            (call_projector-IsKept d q (project_session_meta ref.0) (touch-IsKept r sid now v))
    ]

upsert_ref-IsKept :
    (r : Registry) (ref : SessionRef)
    → IsKept r
    → IsKept (record r { index = upsert_ref r.index ref })
unfolding upsert_ref
upsert_ref-IsKept r ref v = put-IsKept r ref.id ref refl v

on_renamed-IsKept :
    (d : Deps) (r : Registry) (sid title : String) (now : ℕ)
    → IsKept r
    → IsKept (on_renamed d r sid title now)
unfolding on_renamed get_ref
on_renamed-IsKept d r sid title now v = elim (Option-cases (JsMap.get r.index sid)) [
  | inl n ↦ rw (n, on_renamed) v
  | inr ref ↦
      let next : SessionRef = record ref.0 { title = some title; updated_at = now } in
      let q : Registry = record r { index = upsert_ref r.index next } in
      rw (ref.1, on_renamed)
        (call_projector-IsKept d q (project_session_meta next) (upsert_ref-IsKept r next v))
]

on_model_changed-IsKept :
    (d : Deps) (r : Registry) (sid model : String) (now : ℕ)
    → IsKept r
    → IsKept (on_model_changed d r sid model now)
unfolding on_model_changed get_ref
on_model_changed-IsKept d r sid model now v = elim (Option-cases (JsMap.get r.index sid)) [
  | inl n ↦ rw (n, on_model_changed) v
  | inr ref ↦
      let next : SessionRef = record ref.0 { model = some model; updated_at = now } in
      let q : Registry = record r { index = upsert_ref r.index next } in
      rw (ref.1, on_model_changed)
        (call_projector-IsKept d q (ensure_session next) (upsert_ref-IsKept r next v))
]

abbrev pub SystemOk : System → Type 0
SystemOk s = IsKept s.registry × All OpenedOk s.waiting

and_wait-IsKept :
    (waiting : List Opened) (p : Registry × Result Failure Opened)
    → All OpenedOk waiting
    → BegunOk p.1
    → IsKept p.0
    → SystemOk (and_wait waiting p)
and_wait-IsKept waiting (r, failed e) h b v = (v, h)
and_wait-IsKept waiting (r, ok o) h b v = (v, All-append OpenedOk waiting (o ∷ []) h (b, tt))

pub step-IsKept : (d : Deps) (s : System) (o : Operation) → SystemOk s → SystemOk (step d s o)
unfolding step
step-IsKept d s (begins sid) (v, h) =
    and_wait-IsKept s.waiting (begin_get d s.registry sid) h (begin_get-BegunOk d s.registry sid)
      (begin_get-IsKept d s.registry sid v)
step-IsKept d s (finishes i) (v, h) = (finish-IsKept d s.registry s.waiting i h v, h)
step-IsKept d s (creates input id now) (v, h) =
    (create_conversation-IsKept d s.registry input id now v, h)
step-IsKept d s (spawns options id now) (v, h) =
    (spawn_subagent-IsKept d s.registry options id now v, h)
step-IsKept d s (stops sid parent) (v, h) = (stop_subagent-IsKept s.registry sid parent v, h)
step-IsKept d s (evicts sid) (v, h) = (evict-IsKept s.registry sid v, h)
step-IsKept d s disposes (v, h) = (dispose_all-IsKept s.registry v, h)
step-IsKept d s (registers w) (v, h) = (register_workspace-IsKept d s.registry w v, h)
step-IsKept d s (projects sid) (v, h) = (ensure_projected-IsKept d s.registry sid v, h)
step-IsKept d s (touches sid now) (v, h) = (touch_session-IsKept d s.registry sid now v, h)
step-IsKept d s (renames sid title now) (v, h) = (on_renamed-IsKept d s.registry sid title now v, h)
step-IsKept d s (changes_model sid model now) (v, h) =
    (on_model_changed-IsKept d s.registry sid model now v, h)
step-IsKept d s (configures config) (v, h) =
    (same-IsKept s.registry (record s.registry { config = config }) (refl, refl, refl) v, h)

pub new-IsKept : (config : Option Config) → IsKept (new_registry config)
unfolding JsMap.get
new-IsKept config sid = (tt, tt)

run-IsKept_from : (d : Deps) (s : System) (os : List Operation) → SystemOk s → SystemOk (run d s os)
unfolding run
run-IsKept_from d s [] v = v
run-IsKept_from d s (o ∷ os) v = run-IsKept_from d (step d s o) os (step-IsKept d s o v)

-- Whatever the registry is asked to do, in any order and with any steps between the two of a `get`,
-- the live runtime of a session, if there is one, is of the session that it is kept under,
-- was built with the tool `spawn_subagent` exactly when that session is a conversation, and has a
-- number below those of the runtimes to come; and the index keeps every session under its own id.
pub run-IsKept :
    (d : Deps) (config : Option Config) (os : List Operation)
    → IsKept (run d (new_system config) os).registry
run-IsKept d config os = (run-IsKept_from d (new_system config) os (new-IsKept config, tt)).0
