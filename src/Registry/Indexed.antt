-- ===== src/Registry/Indexed.antt =====
-- What the operations of packages/runtime/src/session-registry.ts do to the index and to the live
-- sessions.
pub mod Runs
use akko.Prelude.{
  ℕ, zero, suc, ◌≡◌, refl, sym, ap, ◌∙◌, ◌⊎◌, String, true, false, Option, none, some, is_some,
  List, [], ◌∷◌, All, All-append, All-weaken, arith, ◌==◌, eq_iff, Bool-cases, Option-cases, inl,
  inr, Result, ok, failed, or_else, get_elem?,
}
use akko.Prelude.JsMap
use akko.Domain.{SessionRef, Workspace, conversation, subagent}
use akko.Index.{get_ref, upsert_ref, list_refs, touch}
use akko.Registry.{
  AgentType, Failure, Deps, Config, Driver, build_driver, Live, Registry, new_registry,
  ProjectorCall, call_projector, ensure_session, project_session_meta, register_workspace,
  describe_all, ensure_projected, may_spawn, agent_types, workspace_runtime, instantiate,
}
use akko.Registry.Opening.{
  Opened, found, rehydrated, rehydrate, found_or_built, begin_get, finish_get, get, and_finish,
  open_new, open_built, build_conversation, create_in, create_conversation, build_subagent,
  spawn_in, spawn_for, spawn_subagent, CreateInput, SpawnOptions, new_conversation, new_subagent,
  requested_model, preset, model_of, resolved,
}
use akko.Registry.Closing.{
  stop_subagent, abort_live, is_foreign, evict, dispose_all, touch_session, on_renamed,
  on_model_changed,
}
use akko.Registry.Steps.{
  System, Operation, begins, finishes, creates, spawns, stops, evicts, disposes, registers,
  projects, touches, renames, changes_model, configures, and_wait, finish, step, run, new_system,
}
use akko.Registry.Kept.{SameCore, call_projector-SameCore, workspace_runtime-SameCore}
use akko.Registry.Runs.{rehydrate-same}

-- Every live session is in the index.
abbrev pub IsIndexed : Registry → Type 0
IsIndexed r = (sid : String) → JsMap.get r.index sid ≡ none → JsMap.get r.live sid ≡ none

-- The index of `q` has lost nothing, and what is new in `live` is in it.
abbrev pub Fits : Registry → Registry → Type 0
Fits r q =
    (sid : String)
    → JsMap.get q.index sid ≡ none
    → (JsMap.get r.index sid ≡ none) × (JsMap.get r.live sid ≡ none → JsMap.get q.live sid ≡ none)

pub Fits-IsIndexed : (r q : Registry) → Fits r q → IsIndexed r → IsIndexed q
Fits-IsIndexed r q f v sid n = (f sid n).1 (v sid (f sid n).0)

pub Fits-refl : (r : Registry) → Fits r r
Fits-refl r sid n = (n, λ h. h)

pub Fits-trans : (p q r : Registry) → Fits p q → Fits q r → Fits p r
Fits-trans p q r f g sid n = ((f sid (g sid n).0).0, λ h. (g sid n).1 ((f sid (g sid n).0).1 h))

pub same-Fits : (r q : Registry) → SameCore r q → Fits r q
same-Fits r q s sid n =
    (ap (λ m. JsMap.get m sid) (sym s.1) ∙ n, λ h. ap (λ m. JsMap.get m sid) s.0 ∙ h)

pub put-Fits :
    (r : Registry) (k : String) (ref : SessionRef)
    → Fits r (record r { index = JsMap.put r.index k ref })
put-Fits r k ref sid n = (ground (arith, JsMap.get-put r.index k sid ref), λ h. h)

pub put-live-Fits :
    (r : Registry) (k : String) (l : Live)
    → is_some (JsMap.get r.index k) ≡ true
    → Fits r (record r { live = JsMap.put r.live k l })
put-live-Fits r k l i sid n = (
  n,
  λ h. elim (Bool-cases (k == sid)) [
    | inl same ↦
        let known = i in
        let e = ap (λ s. JsMap.get r.index s) ((eq_iff k sid).0 same) in
        absurd (ground (arith, e, known))
    | inr other ↦ ground (arith, JsMap.get-put r.live k sid l)
  ],
)

pub instantiate-Fits :
    (d : Deps) (r : Registry) (ref : SessionRef) (driver : Driver) (n : ℕ)
    → is_some (JsMap.get r.index ref.id) ≡ true
    → Fits r (instantiate d r ref driver n).0
unfolding instantiate
instantiate-Fits d r ref driver n i =
    let q = call_projector d r (ensure_session ref) in
    let same = call_projector-SameCore d r (ensure_session ref) in
    Fits-trans r q (instantiate d r ref driver n).0 (same-Fits r q same) (
      put-live-Fits q ref.id (instantiate d r ref driver n).1
        (ap (λ m. is_some (JsMap.get m ref.id)) same.1 ∙ i))

pub call_projector-Fits :
    (d : Deps) (r : Registry) (c : ProjectorCall) → Fits r (call_projector d r c)
call_projector-Fits d r c = same-Fits r (call_projector d r c) (call_projector-SameCore d r c)

pub workspace_runtime-Fits :
    (d : Deps) (r : Registry) (workspace : String) → Fits r (workspace_runtime d r workspace).0
workspace_runtime-Fits d r workspace =
    same-Fits r (workspace_runtime d r workspace).0 (workspace_runtime-SameCore d r workspace)

pub open_new-Fits :
    (d : Deps) (r : Registry) (ref : SessionRef) (driver : Driver)
    → Fits r (open_new d r ref driver).0
unfolding open_new upsert_ref
open_new-Fits d r ref driver =
    let p : Registry = record r { index = JsMap.put r.index ref.id ref } in
    let q = call_projector d p (ensure_session ref) in
    let same = call_projector-SameCore d p (ensure_session ref) in
    Fits-trans r p (open_new d r ref driver).0 (put-Fits r ref.id ref) (
      Fits-trans p q (open_new d r ref driver).0 (same-Fits p q same) (
        instantiate-Fits d q ref driver 0 (
          ap (λ m. is_some (JsMap.get m ref.id)) same.1
          ∙ ap is_some (JsMap.get-put_same r.index ref.id ref))))

pub open_built-Fits :
    (d : Deps) (r : Registry) (ref : SessionRef) (o : Option Driver)
    → Fits r (open_built d r ref o).0
open_built-Fits d r ref none = Fits-refl r
open_built-Fits d r ref (some driver) =
    open_new-Fits d r (record ref { model = driver.model }) driver

pub build_conversation-Fits :
    (d : Deps) (r : Registry) (ref : SessionRef) (m : Result Failure (Option String))
    → Fits r (build_conversation d r ref m).0
unfolding build_conversation
build_conversation-Fits d r ref (failed e) = Fits-refl r
build_conversation-Fits d r ref (ok model) =
    open_built-Fits d r ref (build_driver d r ref.workspace_id ref.id conversation model none)

pub create_in-Fits :
    (d : Deps) (input : CreateInput) (id : String) (now : ℕ)
    (p : Registry × Result Failure Workspace)
    → Fits p.0 (create_in d input id now p).0
unfolding create_in
create_in-Fits d input id now (r, failed e) = Fits-refl r
create_in-Fits d input id now (r, ok w) =
    build_conversation-Fits d r (new_conversation d input id now) (requested_model d input.model)

pub create_conversation-Fits :
    (d : Deps) (r : Registry) (input : CreateInput) (id : String) (now : ℕ)
    → Fits r (create_conversation d r input id now).0
unfolding create_conversation
create_conversation-Fits d r input id now =
    let p = workspace_runtime d r input.workspace_id in
    Fits-trans r p.0 (create_in d input id now p).0 (workspace_runtime-Fits d r input.workspace_id)
      (create_in-Fits d input id now p)

pub build_subagent-Fits :
    (d : Deps) (r : Registry) (options : SpawnOptions) (parent ref : SessionRef)
    (t : Result Failure (Option AgentType))
    → Fits r (build_subagent d r options parent ref t).0
unfolding build_subagent
build_subagent-Fits d r options parent ref (failed e) = Fits-refl r
build_subagent-Fits d r options parent ref (ok type) = open_built-Fits d r ref (
    build_driver d r ref.workspace_id ref.id subagent
      (resolved d (or_else options.model (or_else (model_of type) parent.model))) type)

pub spawn_in-Fits :
    (d : Deps) (options : SpawnOptions) (parent : SessionRef) (id : String) (now : ℕ)
    (p : Registry × Result Failure Workspace)
    → Fits p.0 (spawn_in d options parent id now p).0
unfolding spawn_in
spawn_in-Fits d options parent id now (r, failed e) = Fits-refl r
spawn_in-Fits d options parent id now (r, ok w) =
    build_subagent-Fits d r options parent (new_subagent d options id now)
      (preset (agent_types d r options.workspace_id) options.agent_type)

pub spawn_for-Fits :
    (d : Deps) (r : Registry) (options : SpawnOptions) (id : String) (now : ℕ)
    (o : Option SessionRef)
    → Fits r (spawn_for d r options id now o).0
unfolding spawn_for
spawn_for-Fits d r options id now none = Fits-refl r
spawn_for-Fits d r options id now (some parent) =
    elim (Bool-cases (parent.workspace_id == options.workspace_id)) [
      | inl b ↦
          let p = workspace_runtime d r options.workspace_id in
          rw (b, spawn_for)
            (Fits-trans r p.0 (spawn_in d options parent id now p).0
              (workspace_runtime-Fits d r options.workspace_id)
              (spawn_in-Fits d options parent id now p))
      | inr b ↦ rw (b, spawn_for) (Fits-refl r)
    ]

pub spawn_subagent-Fits :
    (d : Deps) (r : Registry) (options : SpawnOptions) (id : String) (now : ℕ)
    → Fits r (spawn_subagent d r options id now).0
unfolding spawn_subagent
spawn_subagent-Fits d r options id now =
    spawn_for-Fits d r options id now (get_ref r.index options.parent_session_id)

pub abort_live-Fits : (r : Registry) (o : Option Live) → Fits r (abort_live r o).0
abort_live-Fits r none = Fits-refl r
abort_live-Fits r (some l) = Fits-refl r

pub stop_subagent-Fits :
    (r : Registry) (sid : String) (parent : Option String) → Fits r (stop_subagent r sid parent).0
unfolding stop_subagent get_ref
stop_subagent-Fits r sid parent = elim (Option-cases (JsMap.get r.index sid)) [
  | inl n ↦ rw (n, stop_subagent) (Fits-refl r)
  | inr ref ↦ elim (Bool-cases (may_spawn ref.0.kind)) [
    | inl b ↦ rw (ref.1, b, stop_subagent) (Fits-refl r)
    | inr b ↦ elim (Bool-cases (is_foreign ref.0 parent)) [
      | inl c ↦ rw (ref.1, b, c, stop_subagent) (Fits-refl r)
      | inr c ↦ rw (ref.1, b, c, stop_subagent) (abort_live-Fits r (JsMap.get r.live sid))
    ]
  ]
]

pub evict-Fits : (r : Registry) (sid : String) → Fits r (evict r sid)
unfolding evict
evict-Fits r sid = elim (Option-cases (JsMap.get r.live sid)) [
  | inl n ↦ rw (n, evict) (Fits-refl r)
  | inr l ↦
      rw (l.1, evict) (λ t n. (n, λ h. ground (arith, JsMap.get-delete r.live sid t, eq_iff sid t)))
]

pub dispose_all-Fits : (r : Registry) → Fits r (dispose_all r)
unfolding dispose_all JsMap.get
dispose_all-Fits r sid n = (n, λ h. refl)

pub describe_all-Fits :
    (d : Deps) (r : Registry) (refs : List SessionRef) → Fits r (describe_all d r refs)
describe_all-Fits d r [] = Fits-refl r
describe_all-Fits d r (ref ∷ refs) =
    let q = call_projector d r (project_session_meta ref) in
    Fits-trans r q (describe_all d q refs) (call_projector-Fits d r (project_session_meta ref))
      (describe_all-Fits d q refs)

pub register_workspace-Fits :
    (d : Deps) (r : Registry) (w : Workspace) → Fits r (register_workspace d r w)
unfolding register_workspace
register_workspace-Fits d r w =
    let q : Registry = record r { workspaces = JsMap.put r.workspaces w.id w } in
    describe_all-Fits d q (list_refs q.index w.id)

pub ensure_projected-Fits :
    (d : Deps) (r : Registry) (sid : String) → Fits r (ensure_projected d r sid).0
unfolding ensure_projected get_ref
ensure_projected-Fits d r sid = elim (Option-cases (JsMap.get r.index sid)) [
  | inl n ↦ rw (n, ensure_projected) (Fits-refl r)
  | inr ref ↦ rw (ref.1, ensure_projected) (call_projector-Fits d r (ensure_session ref.0))
]

pub touch-Fits :
    (r : Registry) (sid : String) (now : ℕ) → Fits r (record r { index = touch r.index sid now })
unfolding touch
touch-Fits r sid now = elim (Option-cases (JsMap.get r.index sid)) [
  | inl n ↦ rw (n, touch) (Fits-refl r)
  | inr ref ↦ rw (ref.1, touch) (put-Fits r sid (record ref.0 { updated_at = now }))
]

pub touch_session-Fits :
    (d : Deps) (r : Registry) (sid : String) (now : ℕ) → Fits r (touch_session d r sid now)
unfolding touch_session get_ref
touch_session-Fits d r sid now =
    let q : Registry = record r { index = touch r.index sid now } in
    elim (Option-cases (JsMap.get q.index sid)) [
      | inl n ↦ rw (n, touch_session) (touch-Fits r sid now)
      | inr ref ↦
          rw (ref.1, touch_session)
            (Fits-trans r q (call_projector d q (project_session_meta ref.0)) (touch-Fits r sid now)
              (call_projector-Fits d q (project_session_meta ref.0)))
    ]

pub upsert-Fits :
    (d : Deps) (r : Registry) (ref : SessionRef) (c : ProjectorCall)
    → Fits r (call_projector d (record r { index = upsert_ref r.index ref }) c)
unfolding upsert_ref
upsert-Fits d r ref c =
    let q : Registry = record r { index = JsMap.put r.index ref.id ref } in
    Fits-trans r q (call_projector d q c) (put-Fits r ref.id ref) (call_projector-Fits d q c)

pub on_renamed-Fits :
    (d : Deps) (r : Registry) (sid title : String) (now : ℕ) → Fits r (on_renamed d r sid title now)
unfolding on_renamed get_ref
on_renamed-Fits d r sid title now = elim (Option-cases (JsMap.get r.index sid)) [
  | inl n ↦ rw (n, on_renamed) (Fits-refl r)
  | inr ref ↦
      let next : SessionRef = record ref.0 { title = some title; updated_at = now } in
      rw (ref.1, on_renamed) (upsert-Fits d r next (project_session_meta next))
]

pub on_model_changed-Fits :
    (d : Deps) (r : Registry) (sid model : String) (now : ℕ)
    → Fits r (on_model_changed d r sid model now)
unfolding on_model_changed get_ref
on_model_changed-Fits d r sid model now = elim (Option-cases (JsMap.get r.index sid)) [
  | inl n ↦ rw (n, on_model_changed) (Fits-refl r)
  | inr ref ↦
      let next : SessionRef = record ref.0 { model = some model; updated_at = now } in
      rw (ref.1, on_model_changed) (upsert-Fits d r next (ensure_session next))
]
