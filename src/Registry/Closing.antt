-- ===== src/Registry/Closing.antt =====
-- packages/runtime/src/session-registry.ts: what is done to a session that is there already.
use akko.Prelude.{
  ℕ, String, Bool, true, false, not, Option, none, some, List, [], ◌∷◌, ◌++◌, filter, ◌==◌,
  if◌then◌else◌, truthy, Result, ok, failed,
}
use akko.Prelude.JsMap
use akko.Prelude.JsMap.{JsMap}
use akko.Domain.{SessionRef}
use akko.Index.{upsert_ref, get_ref, list_refs, touch}
use akko.Registry.{
  Failure, foreign_subagent, Deps, Live, Registry, ensure_session, project_session_meta,
  call_projector, may_spawn,
}

-- A parent that is named must be the session's own.
abbrev pub same_parent : Option String → String → Bool
same_parent none p = false
same_parent (some q) p = q == p

abbrev pub is_foreign : SessionRef → Option String → Bool
is_foreign ref parent = elim (truthy parent) [
  | none ↦ false
  | some p ↦ not (same_parent ref.parent_session_id p)
]

-- The abort of a runtime, if one is live.
abbrev pub abort_live : Registry → Option Live → Registry × Result Failure Bool
abort_live r none = (r, ok false)
abort_live r (some l) = (record r { aborted = r.aborted ++ l.runtime ∷ [] }, ok true)

unfoldable pub stop_subagent : Registry → String → Option String → Registry × Result Failure Bool
unfolding get_ref
stop_subagent r sid parent = elim (get_ref r.index sid) [
  | none ↦ (r, ok false)
  | some ref ↦
      if may_spawn ref.kind
      then (r, ok false)
      else if is_foreign ref parent
      then (r, failed foreign_subagent)
      else abort_live r (JsMap.get r.live sid)
]

-- `list`: conversations only.
unfoldable pub list : Registry → String → List SessionRef
unfolding list_refs
list r workspace = filter (λ ref. may_spawn ref.kind) (list_refs r.index workspace)

unfoldable pub evict : Registry → String → Registry
evict r sid = elim (JsMap.get r.live sid) [
  | none ↦ r
  | some l ↦ record r {
    live = JsMap.delete r.live sid;
    session_skills_version = JsMap.delete r.session_skills_version sid;
  }
]

unfoldable pub dispose_all : Registry → Registry
dispose_all r = record r { live = [] }

-- The sink that keeps `updatedAt` of a session fresh.
unfoldable pub touch_session : Deps → Registry → String → ℕ → Registry
unfolding touch get_ref call_projector
touch_session d r sid now =
    let q = record r { index = touch r.index sid now } in
    elim (get_ref q.index sid) [
      | none ↦ q
      | some ref ↦ call_projector d q (project_session_meta ref)
    ]

abbrev replace_ref : Registry → SessionRef → Registry
replace_ref r ref = record r { index = upsert_ref r.index ref }

unfoldable pub on_renamed : Deps → Registry → String → String → ℕ → Registry
unfolding get_ref upsert_ref call_projector
on_renamed d r sid title now = elim (get_ref r.index sid) [
  | none ↦ r
  | some ref ↦
      let next = record ref { title = some title; updated_at = now } in
      call_projector d (replace_ref r next) (project_session_meta next)
]

unfoldable pub on_model_changed : Deps → Registry → String → String → ℕ → Registry
unfolding get_ref upsert_ref call_projector
on_model_changed d r sid model now = elim (get_ref r.index sid) [
  | none ↦ r
  | some ref ↦
      let next = record ref { model = some model; updated_at = now } in
      call_projector d (replace_ref r next) (ensure_session next)
]
