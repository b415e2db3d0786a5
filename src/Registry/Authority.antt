-- ===== src/Registry/Authority.antt =====
-- Whom packages/runtime/src/session-registry.ts lets stop a subagent, and what its list shows.
use akko.Prelude.{
  ℕ, ◌≡◌, ◌≢◌, refl, sym, String, Bool, not, ◌&&◌, Option, none, some, List, [], ◌∷◌, ◌++◌,
  append-nil, arith, eq_iff, if◌then◌else◌, truthy, Bool-cases, Option-cases, inl, inr,
}
use akko.Prelude.JsMap
use akko.Domain.{SessionRef}
use akko.Index.{get_ref}
use akko.Registry.{Live, Registry, may_spawn}
use akko.Registry.Closing.{same_parent, is_foreign, abort_live, stop_subagent}

-- A subagent of a parent.
abbrev pub is_own_child : SessionRef → String → Bool
is_own_child ref p = not (may_spawn ref.kind) && same_parent ref.parent_session_id p

abbrev pub runtime_of : Option Live → List ℕ
runtime_of none = []
runtime_of (some l) = l.runtime ∷ []

-- The runtime of a session, where it is live and a subagent of the parent.
abbrev pub own_runtime : Registry → String → String → Option SessionRef → List ℕ
own_runtime r sid p none = []
own_runtime r sid p (some ref) =
    if is_own_child ref p then runtime_of (JsMap.get r.live sid) else []

truthy-named : (p : String) → p ≢ "" → truthy (some p) ≡ some p
unfolding truthy
truthy-named p h = ground (arith, eq_iff p "", h)

foreign-named :
    (ref : SessionRef) (p : String)
    → p ≢ ""
    → is_foreign ref (some p) ≡ not (same_parent ref.parent_session_id p)
foreign-named ref p h = rw (truthy-named p h, is_foreign) refl

abort_live-aborted :
    (r : Registry) (o : Option Live) → (abort_live r o).0.aborted ≡ r.aborted ++ runtime_of o
abort_live-aborted r none = sym (append-nil r.aborted)
abort_live-aborted r (some l) = refl

-- A session that asks for the end of a subagent under its own id, which is not empty, aborts the
-- runtime of that session if it is live and the asker's own subagent, and else aborts nothing.
pub stop_subagent_aborts_own :
    (r : Registry) (sid p : String)
    → p ≢ ""
    → (stop_subagent r sid (some p)).0.aborted
      ≡ r.aborted ++ own_runtime r sid p (get_ref r.index sid)
unfolding stop_subagent
stop_subagent_aborts_own r sid p h = elim (Option-cases (get_ref r.index sid)) [
  | inl n ↦ rw (n, stop_subagent) (sym (append-nil r.aborted))
  | inr ref ↦ elim (Bool-cases (may_spawn ref.0.kind)) [
    | inl b ↦ rw (ref.1, b, stop_subagent) (sym (append-nil r.aborted))
    | inr b ↦ elim (Bool-cases (same_parent ref.0.parent_session_id p)) [
      | inl c ↦
          rw (ref.1, b, foreign-named ref.0 p h, c, stop_subagent)
            (abort_live-aborted r (JsMap.get r.live sid))
      | inr c ↦
          rw (ref.1, b, foreign-named ref.0 p h, c, stop_subagent) (sym (append-nil r.aborted))
    ]
  ]
]
