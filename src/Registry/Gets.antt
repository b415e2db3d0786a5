-- ===== src/Registry/Gets.antt =====
-- What a `get` of packages/runtime/src/session-registry.ts leaves behind.
use akko.Prelude.{
  ℕ, ◌≡◌, ◌≢◌, refl, sym, ap, subst, ◌∙◌, String, Bool, true, false, not, ◌&&◌, Option, none, some,
  arith, ◌==◌, eq_refl, or_default, Result, ok, failed,
}
use akko.Prelude.JsMap
use akko.Prelude.JsMap.{JsMap}
use akko.Domain.{SessionRef, Workspace}
use akko.Index.{get_ref}
use akko.Registry.{
  ProjectorCall, Failure, unknown_session, Deps, Config, Built, Driver, driver_of, build_driver,
  version_on_disk, Live, Registry, call_projector, ensure_session, instantiate, materialize,
  materialize_from, workspace_runtime, stale_in, skills_version_for,
}
use akko.Registry.Opening.{
  rehydrated, rehydrate, found_or_built, resolved, begin_get, finish_get, and_finish, get,
}
use akko.Registry.Kept.{RefOk, IsKept, call_projector-SameCore, materialize-SameCore}

instantiate-live :
    (d : Deps) (r : Registry) (ref : SessionRef) (driver : Driver) (n : ℕ)
    → JsMap.get (instantiate d r ref driver n).0.live ref.id ≡ some (instantiate d r ref driver n).1
unfolding instantiate
instantiate-live d r ref driver n =
    JsMap.get-put_same (call_projector d r (ensure_session ref)).live ref.id
      (instantiate d r ref driver n).1

built-live :
    (d : Deps) (r : Registry) (ref : SessionRef) (o : Option Driver) (l : Live)
    → (and_finish d (found_or_built r ref o)).1 ≡ ok l
    → JsMap.get (and_finish d (found_or_built r ref o)).0.live ref.id ≡ some l
unfolding finish_get
built-live d r ref none l h = cc
built-live d r ref (some driver) l h = instantiate-live d r ref driver driver.messages ∙ cc

rehydrate-live :
    (d : Deps) (ref : SessionRef) (p : Registry × Result Failure Workspace) (l : Live)
    → (and_finish d (rehydrate d ref p)).1 ≡ ok l
    → JsMap.get (and_finish d (rehydrate d ref p)).0.live ref.id ≡ some l
unfolding rehydrate
rehydrate-live d ref (r, failed e) l h = cc
rehydrate-live d ref (r, ok w) l h =
    built-live d r ref
      (build_driver d r ref.workspace_id ref.id ref.kind (resolved d ref.model) none) l h

-- The cases of `get`.
get-found :
    (d : Deps) (r : Registry) (sid : String) (l : Live)
    → JsMap.get r.live sid ≡ some l
    → get d r sid ≡ (r, ok l)
unfolding get begin_get finish_get
get-found d r sid l h = rw (h, get, begin_get) refl

pub get-unknown :
    (d : Deps) (r : Registry) (sid : String)
    → JsMap.get r.live sid ≡ none
    → JsMap.get r.index sid ≡ none
    → get d r sid ≡ (r, failed (unknown_session sid))
unfolding get begin_get get_ref
get-unknown d r sid h n = rw (h, n, get, begin_get) refl

get-cold :
    (d : Deps) (r : Registry) (sid : String) (ref : SessionRef)
    → JsMap.get r.live sid ≡ none
    → JsMap.get r.index sid ≡ some ref
    → get d r sid ≡ and_finish d (rehydrate d ref (workspace_runtime d r ref.workspace_id))
unfolding get begin_get get_ref
get-cold d r sid ref h s = rw (h, s, get, begin_get) refl

get-live :
    (d : Deps) (r : Registry) (sid : String) (l : Live)
    → IsKept r
    → (get d r sid).1 ≡ ok l
    → JsMap.get (get d r sid).0.live sid ≡ some l
get-live d r sid l v h = by_live (JsMap.get r.live sid) refl
  where
    by_ref :
        (o : Option SessionRef)
        → JsMap.get r.live sid ≡ none
        → JsMap.get r.index sid ≡ o
        → JsMap.get (get d r sid).0.live sid ≡ some l
    by_ref none n s = (let e = get-unknown d r sid n s in let g = h in cc)
    by_ref (some ref) n s =
        let e = get-cold d r sid ref n s in
        let same : ref.id ≡ sid = subst (λ o. RefOk sid o) s (v sid).1 in
        let p = workspace_runtime d r ref.workspace_id in
        subst (λ k. JsMap.get (get d r sid).0.live k ≡ some l) same
          (subst (λ g. JsMap.get g.0.live ref.id ≡ some l) (sym e)
            (rehydrate-live d ref p l (ap (λ g. g.1) (sym e) ∙ h)))

    by_live :
        (o : Option Live) → JsMap.get r.live sid ≡ o → JsMap.get (get d r sid).0.live sid ≡ some l
    by_live none n = by_ref (JsMap.get r.index sid) n refl
    by_live (some m) n = (let e = get-found d r sid m n in let g = h in cc)

-- A session that `get` has given is given again, the same runtime, and nothing changes by that.
pub get_again :
    (d : Deps) (r : Registry) (sid : String) (l : Live)
    → IsKept r
    → (get d r sid).1 ≡ ok l
    → get d (get d r sid).0 sid ≡ ((get d r sid).0, ok l)
get_again d r sid l v h = get-found d (get d r sid).0 sid l (get-live d r sid l v h)

known_workspace :
    (d : Deps) (r : Registry) (workspace : String) (w : Workspace)
    → JsMap.get r.workspaces workspace ≡ some w
    → workspace_runtime d r workspace ≡ (materialize d r workspace, ok w)
unfolding workspace_runtime
known_workspace d r workspace w v = rw (v, workspace_runtime) refl

-- What the first half of a `get` builds.
abbrev pub driver_from : Deps → Registry → SessionRef → Built → Driver
driver_from d r ref b = driver_of (materialize d r ref.workspace_id) ref.workspace_id ref.kind b

built_driver :
    (d : Deps) (r : Registry) (ref : SessionRef) (b : Built)
    → d.build ref.id ref.kind (resolved d ref.model) none ≡ some b
    → build_driver d r ref.workspace_id ref.id ref.kind (resolved d ref.model) none
      ≡ some (driver_of r ref.workspace_id ref.kind b)
unfolding build_driver
built_driver d r ref b built = rw (built, build_driver) refl

-- The first half of a `get` that will make a runtime.
begin_get-cold :
    (d : Deps) (r : Registry) (sid : String) (ref : SessionRef) (w : Workspace) (b : Built)
    → JsMap.get r.live sid ≡ none
    → get_ref r.index sid ≡ some ref
    → JsMap.get r.workspaces ref.workspace_id ≡ some w
    → d.build ref.id ref.kind (resolved d ref.model) none ≡ some b
    → begin_get d r sid
      ≡ (materialize d r ref.workspace_id, ok (rehydrated ref (driver_from d r ref b)))
unfolding begin_get get_ref rehydrate
begin_get-cold d r sid ref w b h s v built =
    rw (h, s, begin_get)
      (ap (rehydrate d ref) (known_workspace d r ref.workspace_id w v)
        ∙ ap (found_or_built (materialize d r ref.workspace_id) ref)
            (built_driver d (materialize d r ref.workspace_id) ref b built))

materialize-workspaces :
    (d : Deps) (r : Registry) (workspace : String)
    → (materialize d r workspace).workspaces ≡ r.workspaces
unfolding materialize
materialize-workspaces d r workspace = ground arith

two_finishes :
    (d : Deps) (r : Registry) (ref : SessionRef) (n m : Driver)
    → ((finish_get d r (rehydrated ref n)).1.runtime
        ≢ (finish_get d (finish_get d r (rehydrated ref n)).0 (rehydrated ref m)).1.runtime)
      × (JsMap.get
            (finish_get d (finish_get d r (rehydrated ref n)).0 (rehydrated ref m)).0.live
            ref.id
          ≡ some (finish_get d (finish_get d r (rehydrated ref n)).0 (rehydrated ref m)).1)
unfolding finish_get instantiate
two_finishes d r ref n m =
    let q = (instantiate d r ref n n.messages).0 in
    let p = call_projector-SameCore d q (ensure_session ref) in
    ((λ h. (let e = p.2 in let g = h in omega arith)), instantiate-live d q ref m m.messages)

-- The first halves of two calls of `get` for one session, and then the second halves.
abbrev pub both_begun : Deps → Registry → String → Registry
both_begun d r sid = (begin_get d (begin_get d r sid).0 sid).0

-- What the second of the first halves builds.
abbrev pub second_driver : Deps → Registry → String → SessionRef → Built → Driver
second_driver d r sid ref b = driver_from d (begin_get d r sid).0 ref b

abbrev pub first_done : Deps → Registry → String → SessionRef → Built → Registry × Live
first_done d r sid ref b =
    finish_get d (both_begun d r sid) (rehydrated ref (driver_from d r ref b))

abbrev pub second_done : Deps → Registry → String → SessionRef → Built → Registry × Live
second_done d r sid ref b =
    finish_get d (first_done d r sid ref b).0 (rehydrated ref (second_driver d r sid ref b))

-- Two calls of `get` for a cold session of the index, whose workspace is registered and which can be
-- built, when the second begins before the first has ended: both look the session up and find it
-- cold, both make a runtime, the two runtimes are not the same, and the registry keeps the later one
-- only.
pub racing_gets_part :
    (d : Deps) (r : Registry) (sid : String) (ref : SessionRef) (w : Workspace) (b : Built)
    → JsMap.get r.live sid ≡ none
    → get_ref r.index sid ≡ some ref
    → JsMap.get r.workspaces ref.workspace_id ≡ some w
    → d.build ref.id ref.kind (resolved d ref.model) none ≡ some b
    → ((begin_get d r sid).1 ≡ ok (rehydrated ref (driver_from d r ref b)))
      × ((begin_get d (begin_get d r sid).0 sid).1
          ≡ ok (rehydrated ref (second_driver d r sid ref b)))
      × ((first_done d r sid ref b).1.runtime ≢ (second_done d r sid ref b).1.runtime)
      × (JsMap.get (second_done d r sid ref b).0.live ref.id ≡ some (second_done d r sid ref b).1)
racing_gets_part d r sid ref w b h s v built =
    let one = begin_get-cold d r sid ref w b h s v built in
    let q = materialize d r ref.workspace_id in
    let same = materialize-SameCore d r ref.workspace_id in
    let two =
      begin_get-cold d q sid ref w b (ap (λ m. JsMap.get m sid) same.0 ∙ h)
        (ap (λ m. get_ref m sid) same.1 ∙ s)
        (ap (λ m. JsMap.get m ref.workspace_id) (materialize-workspaces d r ref.workspace_id) ∙ v)
        built in
    let ends =
      two_finishes d (both_begun d r sid) ref (driver_from d r ref b)
        (second_driver d r sid ref b) in
    let first : (begin_get d r sid).0 ≡ q = ap (λ p. p.0) one in
    (
      ap (λ p. p.1) one,
      ap (λ p. (begin_get d p sid).1) first
          ∙ ap (λ p. p.1) two
          ∙ ap (λ p. ok (rehydrated ref (driver_from d p ref b))) (sym first),
      ends.0,
      ends.1,
    )

call_projector-skills :
    (d : Deps) (r : Registry) (c : ProjectorCall)
    → ((call_projector d r c).materialized ≡ r.materialized)
      × ((call_projector d r c).config ≡ r.config)
unfolding call_projector
call_projector-skills d r c = ground arith

materialize-config :
    (d : Deps) (r : Registry) (workspace : String) → (materialize d r workspace).config ≡ r.config
unfolding materialize
materialize-config d r workspace = ground arith

materialize-version :
    (d : Deps) (r : Registry) (workspace : String) (config : Config)
    → r.config ≡ some config
    → d.has_loader ≡ true
    → materialize d r workspace ≡ record r {
      materialized = JsMap.put r.materialized workspace (config.skills_version workspace);
    }
unfolding materialize
materialize-version d r workspace config c loader =
    ap (materialize_from d r workspace) c ∙ rw loader refl

version_now :
    (r : Registry) (workspace : String) (config : Config)
    → r.config ≡ some config
    → skills_version_for r workspace ≡ config.skills_version workspace
version_now r workspace config c = rw c refl

not_stale :
    (r : Registry) (workspace sid : String) (l : Live) (version : String)
    → JsMap.get r.session_skills_version sid ≡ some version
    → skills_version_for r workspace ≡ version
    → stale_in r workspace sid l ≡ false
unfolding stale_in
not_stale r workspace sid l version h s = rw (h, s) (by_test (l.ref.workspace_id == workspace))
  where
    by_test : (t : Bool) → (t && not (version == version)) ≡ false
    by_test true = rw (eq_refl version) refl
    by_test false = refl

-- What is recorded of a session when it is instantiated, and what its workspace has then.
instantiate-version :
    (d : Deps) (r : Registry) (ref : SessionRef) (driver : Driver) (n : ℕ)
    → (JsMap.get (instantiate d r ref driver n).0.session_skills_version ref.id
        ≡ some (version_on_disk r ref.workspace_id))
      × ((instantiate d r ref driver n).0.config ≡ r.config)
unfolding instantiate
instantiate-version d r ref driver n =
    let q = call_projector d r (ensure_session ref) in
    let same = call_projector-skills d r (ensure_session ref) in
    (
      JsMap.get-put_same q.session_skills_version ref.id (version_on_disk q ref.workspace_id)
          ∙ ap (λ ms. some (or_default (JsMap.get ms ref.workspace_id) "")) same.0,
      same.1,
    )

-- The registry, and the runtime, that an uninterrupted `get` of a cold session comes to.
abbrev pub got_cold : Deps → Registry → SessionRef → Built → Registry × Live
got_cold d r ref b =
    finish_get d (materialize d r ref.workspace_id) (rehydrated ref (driver_from d r ref b))

-- A `get` of a cold session that nothing interrupts builds its prompt from the current skills of its
-- workspace, records their version for the session, and so the session is not stale. The registry has
-- a configuration, and the workspace's runtime a loader.
pub got_is_not_stale :
    (d : Deps) (r : Registry) (sid : String) (ref : SessionRef) (w : Workspace) (b : Built)
    (config : Config)
    → JsMap.get r.live sid ≡ none
    → get_ref r.index sid ≡ some ref
    → JsMap.get r.workspaces ref.workspace_id ≡ some w
    → d.build ref.id ref.kind (resolved d ref.model) none ≡ some b
    → r.config ≡ some config
    → d.has_loader ≡ true
    → let after = got_cold d r ref b in
      let current = config.skills_version ref.workspace_id in
      (get d r sid ≡ (after.0, ok after.1))
      × (after.1.driver.prompt_skills ≡ current)
      × (JsMap.get after.0.session_skills_version ref.id ≡ some current)
      × (stale_in after.0 ref.workspace_id ref.id after.1 ≡ false)
unfolding get finish_get instantiate
got_is_not_stale d r sid ref w b config h s v built c loader =
    let q = materialize d r ref.workspace_id in
    let after = got_cold d r ref b in
    let begun = begin_get-cold d r sid ref w b h s v built in
    let current = config.skills_version ref.workspace_id in
    let written : version_on_disk q ref.workspace_id ≡ current =
      ap (λ p. version_on_disk p ref.workspace_id)
        (materialize-version d r ref.workspace_id config c loader)
      ∙ ap (λ o. or_default o "") (JsMap.get-put_same r.materialized ref.workspace_id current) in
    let kept = instantiate-version d q ref (driver_from d r ref b) b.messages in
    let recorded = kept.0 ∙ ap some written in
    (
      ap (and_finish d) begun,
      written,
      recorded,
      not_stale after.0 ref.workspace_id ref.id after.1 current recorded (
          version_now after.0 ref.workspace_id config
            (kept.1 ∙ materialize-config d r ref.workspace_id ∙ c)),
    )
