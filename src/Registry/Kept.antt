-- ===== src/Registry/Kept.antt =====
-- What the registry of packages/runtime/src/session-registry.ts keeps of its live sessions.
use akko.Prelude.{
  ℕ, ◌+◌, ◌<◌, ◌≡◌, refl, sym, subst, ◌∙◌, String, true, false, Option, none, some, arith, ◌==◌,
  eq_iff, if◌then◌else◌, or_else, Bool-cases, Option-cases, inl, inr, ◌⊎◌, Result, ok, failed,
}
use akko.Prelude.JsMap
use akko.Prelude.JsMap.{JsMap}
use akko.Domain.{SessionRef, SessionKind, conversation, subagent, Workspace}
use akko.Index.{MemoryIndex, upsert_ref, get_ref}
use akko.Registry.{
  AgentType, Built, Driver, driver_of, build_driver, agent_types, Failure, Deps, Live, Registry,
  ProjectorCall, call_projector, may_spawn, instantiate, materialize, workspace_runtime,
  ensure_session,
}
use akko.Registry.Opening.{
  open_new, open_built, build_conversation, create_in, create_conversation, build_subagent,
  spawn_in, spawn_for, spawn_subagent, CreateInput, SpawnOptions, new_conversation, new_subagent,
  requested_model, preset, model_of, resolved,
}

-- A live session is the one of its key, and has the tool `spawn_subagent` exactly
-- when it is a conversation; no runtime to come has its number.
abbrev pub LiveOk : Registry → String → Option Live → Type 0
LiveOk r sid none = Unit
LiveOk r sid (some l) =
    (l.ref.id ≡ sid) × (l.driver.can_spawn ≡ may_spawn l.ref.kind) × (l.runtime < r.next_runtime)

abbrev pub RefOk : String → Option SessionRef → Type 0
RefOk sid none = Unit
RefOk sid (some ref) = ref.id ≡ sid

abbrev pub IsKept : Registry → Type 0
IsKept r = (sid : String) → LiveOk r sid (JsMap.get r.live sid) × RefOk sid (JsMap.get r.index sid)

abbrev pub SameCore : Registry → Registry → Type 0
SameCore r q = (q.live ≡ r.live) × (q.index ≡ r.index) × (q.next_runtime ≡ r.next_runtime)

pub same-IsKept : (r q : Registry) → SameCore r q → IsKept r → IsKept q
same-IsKept r q s v sid = rw (s.0, s.1, s.2) (v sid)

pub call_projector-SameCore :
    (d : Deps) (r : Registry) (c : ProjectorCall) → SameCore r (call_projector d r c)
unfolding call_projector
call_projector-SameCore d r c = elim (Bool-cases d.has_projector) [
  | inl b ↦ rw (b, call_projector) (refl, refl, refl)
  | inr b ↦ rw (b, call_projector) (refl, refl, refl)
]

put-RefOk :
    (m : MemoryIndex) (k sid : String) (ref : SessionRef)
    → ref.id ≡ k
    → RefOk sid (JsMap.get m sid)
    → RefOk sid (JsMap.get (JsMap.put m k ref) sid)
put-RefOk m k sid ref h v =
    subst (λ o. RefOk sid o) (sym (JsMap.get-put m k sid ref)) (by_test (Bool-cases (k == sid)))
  where
    by_test :
        ((k == sid) ≡ true) ⊎ ((k == sid) ≡ false)
        → RefOk sid (if k == sid then some ref else JsMap.get m sid)
    by_test (inl b) = rw b (h ∙ (eq_iff k sid).0 b)
    by_test (inr b) = rw b v

same-LiveOk :
    (r q : Registry) (sid : String)
    → q.next_runtime ≡ r.next_runtime
    → (o : Option Live) → LiveOk r sid o
    → LiveOk q sid o
same-LiveOk r q sid h none v = tt
same-LiveOk r q sid h (some l) v = (v.0, v.1, (let lt = v.2 in let e = h in omega arith))

pub put-IsKept :
    (r : Registry) (k : String) (ref : SessionRef)
    → ref.id ≡ k
    → IsKept r
    → IsKept (record r { index = JsMap.put r.index k ref })
put-IsKept r k ref h v sid = (
  same-LiveOk r (record r { index = JsMap.put r.index k ref }) sid refl (JsMap.get r.live sid)
      (v sid).0,
  put-RefOk r.index k sid ref h (v sid).1,
)

-- An empty place of `live` asks for nothing.
pub delete-LiveOk :
    (r : Registry) (k sid : String)
    → LiveOk r sid (JsMap.get r.live sid)
    → LiveOk r sid (JsMap.get (JsMap.delete r.live k) sid)
delete-LiveOk r k sid v =
    subst (λ o. LiveOk r sid o) (sym (JsMap.get-delete r.live k sid))
      (by_test (Bool-cases (k == sid)))
  where
    by_test :
        ((k == sid) ≡ true) ⊎ ((k == sid) ≡ false)
        → LiveOk r sid (if k == sid then none else JsMap.get r.live sid)
    by_test (inl b) = rw b tt
    by_test (inr b) = rw b v

-- The place of a runtime that is new, and the others, whose runtimes have smaller numbers.
older-LiveOk :
    (r : Registry) (sid : String) (o : Option Live)
    → LiveOk r sid o
    → LiveOk (record r { next_runtime = r.next_runtime + 1 }) sid o
older-LiveOk r sid none v = tt
older-LiveOk r sid (some l) v = (v.0, v.1, (let h = v.2 in omega arith))

put-live-LiveOk :
    (r : Registry) (l : Live) (sid : String)
    → l.driver.can_spawn ≡ may_spawn l.ref.kind
    → l.runtime ≡ r.next_runtime
    → LiveOk r sid (JsMap.get r.live sid)
    → LiveOk
        (record r { next_runtime = r.next_runtime + 1 })
        sid
        (JsMap.get (JsMap.put r.live l.ref.id l) sid)
put-live-LiveOk r l sid c n v =
    subst (λ o. LiveOk (record r { next_runtime = r.next_runtime + 1 }) sid o)
      (sym (JsMap.get-put r.live l.ref.id sid l)) (by_test (Bool-cases (l.ref.id == sid)))
  where
    by_test :
        ((l.ref.id == sid) ≡ true) ⊎ ((l.ref.id == sid) ≡ false)
        → LiveOk
            (record r { next_runtime = r.next_runtime + 1 })
            sid
            (if l.ref.id == sid then some l else JsMap.get r.live sid)
    by_test (inl b) =
        let same = (eq_iff l.ref.id sid).0 b in rw b (same, c, (let e = n in omega arith))
    by_test (inr b) = rw b (older-LiveOk r sid (JsMap.get r.live sid) v)

pub instantiate-IsKept :
    (d : Deps) (r : Registry) (ref : SessionRef) (driver : Driver) (n : ℕ)
    → driver.can_spawn ≡ may_spawn ref.kind
    → IsKept r
    → IsKept (instantiate d r ref driver n).0
unfolding instantiate
instantiate-IsKept d r ref driver n tool v sid =
    let q = call_projector d r (ensure_session ref) in
    let same = call_projector-SameCore d r (ensure_session ref) in
    let w = same-IsKept r q same v in
    let l : Live = record {
      runtime = q.next_runtime;
      ref = ref;
      persisted_count = n;
      driver = driver;
    } in
    (put-live-LiveOk q l sid tool refl (w sid).0, (w sid).1)

-- What is built, if anything is, has the tool exactly if it is built for a conversation.
abbrev pub HasTool : SessionKind → Option Driver → Type 0
HasTool kind none = Unit
HasTool kind (some driver) = driver.can_spawn ≡ may_spawn kind

pub build_driver-HasTool :
    (d : Deps) (r : Registry) (workspace id : String) (kind : SessionKind) (model : Option String)
    (type : Option AgentType)
    → HasTool kind (build_driver d r workspace id kind model type)
unfolding build_driver
build_driver-HasTool d r workspace id kind model type = by_built (d.build id kind model type)
  where
    by_built :
        (o : Option Built)
        → HasTool kind (elim o as (λ x. Option Driver) [
          | none ↦ none
          | some b ↦ some (driver_of r workspace kind b)
        ])
    by_built none = tt
    by_built (some b) = refl

open_new-IsKept :
    (d : Deps) (r : Registry) (ref : SessionRef) (driver : Driver)
    → driver.can_spawn ≡ may_spawn ref.kind
    → IsKept r
    → IsKept (open_new d r ref driver).0
unfolding open_new upsert_ref
open_new-IsKept d r ref driver tool v =
    let p : Registry = record r { index = JsMap.put r.index ref.id ref } in
    let q = call_projector d p (ensure_session ref) in
    let same = call_projector-SameCore d p (ensure_session ref) in
    instantiate-IsKept d q ref driver 0 tool (same-IsKept p q same (put-IsKept r ref.id ref refl v))

open_built-IsKept :
    (d : Deps) (r : Registry) (ref : SessionRef) (o : Option Driver)
    → HasTool ref.kind o
    → IsKept r
    → IsKept (open_built d r ref o).0
open_built-IsKept d r ref none tool v = v
open_built-IsKept d r ref (some driver) tool v =
    open_new-IsKept d r (record ref { model = driver.model }) driver tool v

pub materialize-SameCore :
    (d : Deps) (r : Registry) (workspace : String) → SameCore r (materialize d r workspace)
unfolding materialize
materialize-SameCore d r workspace = ground arith

pub workspace_runtime-SameCore :
    (d : Deps) (r : Registry) (workspace : String) → SameCore r (workspace_runtime d r workspace).0
unfolding workspace_runtime
workspace_runtime-SameCore d r workspace = elim (Option-cases (JsMap.get r.workspaces workspace)) [
  | inl n ↦ rw (n, workspace_runtime) (refl, refl, refl)
  | inr w ↦ rw (w.1, workspace_runtime) (materialize-SameCore d r workspace)
]

pub workspace_runtime-IsKept :
    (d : Deps) (r : Registry) (workspace : String)
    → IsKept r
    → IsKept (workspace_runtime d r workspace).0
workspace_runtime-IsKept d r workspace v =
    same-IsKept r (workspace_runtime d r workspace).0 (workspace_runtime-SameCore d r workspace) v

build_conversation-IsKept :
    (d : Deps) (r : Registry) (ref : SessionRef) (m : Result Failure (Option String))
    → ref.kind ≡ conversation
    → IsKept r
    → IsKept (build_conversation d r ref m).0
unfolding build_conversation
build_conversation-IsKept d r ref (failed e) k v = v
build_conversation-IsKept d r ref (ok model) k v =
    let built = build_driver d r ref.workspace_id ref.id conversation model none in
    open_built-IsKept d r ref built
      (subst (λ kind. HasTool kind built) (sym k)
        (build_driver-HasTool d r ref.workspace_id ref.id conversation model none))
      v

create_in-IsKept :
    (d : Deps) (input : CreateInput) (id : String) (now : ℕ)
    (p : Registry × Result Failure Workspace)
    → IsKept p.0
    → IsKept (create_in d input id now p).0
unfolding create_in
create_in-IsKept d input id now (r, failed e) v = v
create_in-IsKept d input id now (r, ok w) v =
    build_conversation-IsKept d r (new_conversation d input id now) (requested_model d input.model)
      refl v

pub create_conversation-IsKept :
    (d : Deps) (r : Registry) (input : CreateInput) (id : String) (now : ℕ)
    → IsKept r
    → IsKept (create_conversation d r input id now).0
unfolding create_conversation
create_conversation-IsKept d r input id now v =
    create_in-IsKept d input id now (workspace_runtime d r input.workspace_id)
      (workspace_runtime-IsKept d r input.workspace_id v)

build_subagent-IsKept :
    (d : Deps) (r : Registry) (options : SpawnOptions) (parent ref : SessionRef)
    (t : Result Failure (Option AgentType))
    → ref.kind ≡ subagent
    → IsKept r
    → IsKept (build_subagent d r options parent ref t).0
unfolding build_subagent
build_subagent-IsKept d r options parent ref (failed e) k v = v
build_subagent-IsKept d r options parent ref (ok type) k v =
    let model = resolved d (or_else options.model (or_else (model_of type) parent.model)) in
    let built = build_driver d r ref.workspace_id ref.id subagent model type in
    open_built-IsKept d r ref built
      (subst (λ kind. HasTool kind built) (sym k)
        (build_driver-HasTool d r ref.workspace_id ref.id subagent model type))
      v

spawn_in-IsKept :
    (d : Deps) (options : SpawnOptions) (parent : SessionRef) (id : String) (now : ℕ)
    (p : Registry × Result Failure Workspace)
    → IsKept p.0
    → IsKept (spawn_in d options parent id now p).0
unfolding spawn_in
spawn_in-IsKept d options parent id now (r, failed e) v = v
spawn_in-IsKept d options parent id now (r, ok w) v =
    build_subagent-IsKept d r options parent (new_subagent d options id now)
      (preset (agent_types d r options.workspace_id) options.agent_type) refl v

spawn_for-IsKept :
    (d : Deps) (r : Registry) (options : SpawnOptions) (id : String) (now : ℕ)
    (o : Option SessionRef)
    → IsKept r
    → IsKept (spawn_for d r options id now o).0
unfolding spawn_for
spawn_for-IsKept d r options id now none v = v
spawn_for-IsKept d r options id now (some parent) v =
    elim (Bool-cases (parent.workspace_id == options.workspace_id)) [
      | inl b ↦
          rw (b, spawn_for)
            (spawn_in-IsKept d options parent id now (workspace_runtime d r options.workspace_id)
              (workspace_runtime-IsKept d r options.workspace_id v))
      | inr b ↦ rw (b, spawn_for) v
    ]

pub spawn_subagent-IsKept :
    (d : Deps) (r : Registry) (options : SpawnOptions) (id : String) (now : ℕ)
    → IsKept r
    → IsKept (spawn_subagent d r options id now).0
unfolding spawn_subagent
spawn_subagent-IsKept d r options id now v =
    spawn_for-IsKept d r options id now (get_ref r.index options.parent_session_id) v
