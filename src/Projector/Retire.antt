-- ===== src/Projector/Retire.antt =====
-- The end of a turn in packages/server/src/jazz-projector.ts.
use akko.Prelude.{
  ℕ, ◌≡◌, refl, ap, ◌∙◌, String, false, none, some, List, [], ◌∷◌, arith, nat_eq, filter,
  Bool-cases, inl, inr,
}
use akko.Prelude.JsMap
use akko.Prelude.JsMap.{JsMap}
use akko.Prelude.JsSet
use akko.Content.{ToolCall}
use akko.Turn.{Timer, fresh_turn, clear_timer}
use akko.Projector.{Projector, drop_turn, retire, turn_of}
use akko.Projector.Calls.{clear_activity, write_activity}

abbrev pub pending : ℕ → List Timer → List Timer
pending id timers = filter (λ t. nat_eq t.id id) timers

pending-clear_timer :
    (timers : List Timer) (id : ℕ) → pending id (clear_timer timers (some id)) ≡ []
pending-clear_timer [] id = refl
pending-clear_timer (t ∷ timers) id = ground (arith, pending-clear_timer timers id)

module _ (stable_id : String → String) (describe_tool_call : ToolCall → String) where
  abbrev pub cleared : Projector → String → Projector
  cleared p sid = clear_activity stable_id describe_tool_call p sid

  clear_activity-timers :
      (p : Projector) (sid : String)
      → (cleared p sid).timers ≡ clear_timer p.timers (turn_of p sid).timer
  unfolding clear_activity write_activity drop_turn retire
  clear_activity-timers p sid = elim (Bool-cases (JsSet.contains p.active sid)) [
    | inl b ↦ rw (b, clear_activity) refl
    | inr b ↦ rw (b, clear_activity) refl
  ]

  clear_activity-turn : (p : Projector) (sid : String) → JsMap.get (cleared p sid).turn sid ≡ none
  unfolding clear_activity write_activity drop_turn retire
  clear_activity-turn p sid = elim (Bool-cases (JsSet.contains p.active sid)) [
    | inl b ↦
        rw (b, clear_activity)
          (JsMap.get-delete_same (JsMap.put (JsMap.delete p.turn sid) sid (fresh_turn "")) sid)
    | inr b ↦ rw (b, clear_activity) (JsMap.get-delete_same p.turn sid)
  ]

  clear_activity-active :
      (p : Projector) (sid : String) → JsSet.contains (cleared p sid).active sid ≡ false
  unfolding clear_activity write_activity drop_turn retire
  clear_activity-active p sid = elim (Bool-cases (JsSet.contains p.active sid)) [
    | inl b ↦ rw (b, clear_activity) (JsSet.contains-remove_same (JsSet.add p.active sid) sid)
    | inr b ↦ rw (b, clear_activity) b
  ]

  -- A turn that has ended is gone: no turn is kept of the session, it is not active, and the timer
  -- that the turn had set is no longer pending. The turn's timer is the number `id`.
  pub ended_turn_is_gone :
      (p : Projector) (sid : String) (id : ℕ)
      → (turn_of p sid).timer ≡ some id
      → (JsMap.get (cleared p sid).turn sid ≡ none)
        × (JsSet.contains (cleared p sid).active sid ≡ false)
        × (pending id (cleared p sid).timers ≡ [])
  ended_turn_is_gone p sid id h = (
    clear_activity-turn p sid,
    clear_activity-active p sid,
    ap (pending id) (clear_activity-timers p sid ∙ ap (clear_timer p.timers) h)
        ∙ pending-clear_timer p.timers id,
  )
