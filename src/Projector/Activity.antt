-- ===== src/Projector/Activity.antt =====
-- The activity row of packages/server/src/jazz-projector.ts: when it shows a turn, and what of it.
use text.Mathlib.TextLemmas.{append_cancel_left}
use akko.Prelude.{
  ◌≡◌, refl, String, Bool, true, false, not, Option, none, some, List, [], ◌∷◌, ◌++◌, arith, eq_iff,
  Bool-cases, inl, inr,
}
use akko.Prelude.JsMap
use akko.Prelude.JsMap.{JsMap}
use akko.Prelude.JsSet
use akko.Content.{ToolCall, MessageRole, from_user, from_assistant, from_other}
use akko.Store.{CommittedEntry}
use akko.ReadModel.{ActivityKind, thinking, streaming, tool, idle, ActivityRow}
use akko.Turn.{clear_timer, settle_turn, TurnState, kind_of_turn, has_label}
use akko.Projector.Frames.{
  SameActivity, project_entry-SameActivity, rebuild-SameActivity, text_delta-SameActivity,
  ensure_session-SameActivity, project_session_meta-SameActivity,
}
use akko.Projector.{
  Projector, LiveEvent, progress, user_message_start, assistant_message_start, text_delta,
  tool_call_end, queue_update, turn_end, agent_end, other_event, turn_of, set_turn, activity_row,
  drop_turn, retire, Operation, hears, receives, fires, drops, ensures, describes, rebuilds_from,
  new_projector,
}
use akko.Projector.Calls.{
  activity_id, project_session_meta, ensure_session, project_entry, rebuild, write_activity,
  clear_activity, after_entry, on_entry_role, on_entry, step, run, label_turn, on_live_event,
  fire_timer, drop_session,
}

abbrev is_idle : ActivityKind → Bool
is_idle idle = true
is_idle kind = false

-- A row that shows something.
abbrev pub is_shown : Option ActivityRow → Bool
is_shown none = false
is_shown (some row) = not (is_idle row.kind)

module _ (stable_id : String → String) (describe_tool_call : ToolCall → String)
    (no_collision : (a b : String) → stable_id a ≡ stable_id b → a ≡ b) where
  activity_id-injective :
      (a b : String)
      → activity_id stable_id describe_tool_call a ≡ activity_id stable_id describe_tool_call b
      → a ≡ b
  activity_id-injective a b h = append_cancel_left "activity:" a b (no_collision _ _ h)

  -- A session is in `active` exactly when its row is there and shows something.
  abbrev pub IsShown : Projector → Type 0
  IsShown p =
      (sid : String)
      → is_shown (JsMap.get p.activity (activity_id stable_id describe_tool_call sid))
        ≡ JsSet.contains p.active sid

  same-IsShown : (p q : Projector) → SameActivity p q → IsShown p → IsShown q
  same-IsShown p q s v sid = rw (s.0, s.1) (v sid)

  abbrev key : String → String
  key sid = activity_id stable_id describe_tool_call sid

  write_activity-IsShown :
      (p : Projector) (sid : String) (kind : ActivityKind)
      → is_idle kind ≡ false
      → IsShown p
      → IsShown (write_activity stable_id describe_tool_call p sid kind)
  unfolding write_activity
  write_activity-IsShown p sid kind h v t = ground (
    arith,
    v t,
    JsMap.get-put p.activity (key sid) (key t) (activity_row p sid kind (turn_of p sid)),
    JsSet.contains-add p.active sid t,
    eq_iff (key sid) (key t),
    eq_iff sid t,
    activity_id-injective sid t,
  )

  -- An idle row goes with the removal from `active`.
  idle_row :
      (p : Projector) (sid t : String) (row : ActivityRow)
      → row.kind ≡ idle
      → IsShown p
      → is_shown (JsMap.get (JsMap.put p.activity (key sid) row) (key t))
        ≡ JsSet.contains (JsSet.remove (JsSet.add p.active sid) sid) t
  idle_row p sid t row h v = ground (
    arith,
    h,
    v t,
    JsMap.get-put p.activity (key sid) (key t) row,
    JsSet.contains-remove (JsSet.add p.active sid) sid t,
    JsSet.contains-add p.active sid t,
    eq_iff (key sid) (key t),
    eq_iff sid t,
    activity_id-injective sid t,
  )

  clear_activity-IsShown :
      (p : Projector) (sid : String)
      → IsShown p
      → IsShown (clear_activity stable_id describe_tool_call p sid)
  unfolding clear_activity write_activity drop_turn retire
  clear_activity-IsShown p sid v t = elim (Bool-cases (JsSet.contains p.active sid)) [
    | inl b ↦ rw (b, clear_activity) (idle_row p sid t _ refl v)
    | inr b ↦ rw (b, clear_activity) (v t)
  ]

  after_entry-IsShown :
      (p : Projector) (sid : String)
      → IsShown p
      → IsShown (after_entry stable_id describe_tool_call p sid)
  unfolding after_entry
  after_entry-IsShown p sid v = elim (Bool-cases (has_label (turn_of p sid).tool_label)) [
    | inl b ↦ rw (b, after_entry) (write_activity-IsShown (set_turn p sid _) sid tool refl v)
    | inr b ↦ rw (b, after_entry) (clear_activity-IsShown p sid v)
  ]

  on_entry-IsShown :
      (p : Projector) (sid : String) (e : CommittedEntry)
      → IsShown p
      → IsShown (on_entry stable_id describe_tool_call p sid e)
  unfolding on_entry
  on_entry-IsShown p sid e v =
      on_role (project_entry stable_id describe_tool_call p sid e) e.entry.role (
        same-IsShown p (project_entry stable_id describe_tool_call p sid e)
          (project_entry-SameActivity stable_id describe_tool_call p sid e) v)
    where
      on_role :
          (q : Projector) (role : MessageRole)
          → IsShown q
          → IsShown (on_entry_role stable_id describe_tool_call q sid role)
      on_role q from_assistant w = after_entry-IsShown q sid w
      on_role q from_user w = w
      on_role q from_other w = w

  on_live_event-IsShown :
      (p : Projector) (sid : String) (e : LiveEvent)
      → IsShown p
      → IsShown (on_live_event stable_id describe_tool_call p sid e)
  unfolding on_live_event label_turn
  on_live_event-IsShown p sid (progress label done total) v =
      write_activity-IsShown (set_turn p sid _) sid tool refl v
  on_live_event-IsShown p sid (user_message_start content) v =
      write_activity-IsShown (set_turn p sid _) sid thinking refl v
  on_live_event-IsShown p sid assistant_message_start v =
      write_activity-IsShown (set_turn p sid _) sid streaming refl v
  on_live_event-IsShown p sid (text_delta delta) v =
      same-IsShown p (on_live_event stable_id describe_tool_call p sid (text_delta delta))
        (text_delta-SameActivity stable_id describe_tool_call p sid delta) v
  on_live_event-IsShown p sid (tool_call_end call) v =
      write_activity-IsShown (set_turn p sid _) sid tool refl v
  on_live_event-IsShown p sid (queue_update steering follow_up) v =
      write_activity-IsShown (set_turn p sid _) sid _
        (not_idle (record (turn_of p sid) { queued = steering ++ follow_up })) v
    where
      not_idle : (t : TurnState) → is_idle (kind_of_turn t) ≡ false
      not_idle t = ground arith
  on_live_event-IsShown p sid turn_end v = clear_activity-IsShown p sid v
  on_live_event-IsShown p sid agent_end v = clear_activity-IsShown p sid v
  on_live_event-IsShown p sid other_event v = v

  step-IsShown :
      (p : Projector) (o : Operation) → IsShown p → IsShown (step stable_id describe_tool_call p o)
  unfolding step fire_timer drop_session
  step-IsShown p (hears sid e) v = on_live_event-IsShown p sid e v
  step-IsShown p (receives sid e) v = on_entry-IsShown p sid e v
  step-IsShown p (fires timer) v =
      write_activity-IsShown
        (record p {
          timers = clear_timer p.timers (some timer.id);
          turn = settle_turn p.turn timer.session_id timer.id;
        })
        timer.session_id streaming refl v
  step-IsShown p (drops sid) v =
      clear_activity-IsShown (record p { subs = JsSet.remove p.subs sid }) sid v
  step-IsShown p (ensures has_bus ref) v =
      same-IsShown p (ensure_session stable_id describe_tool_call has_bus p ref)
        (ensure_session-SameActivity stable_id describe_tool_call has_bus p ref) v
  step-IsShown p (describes ref) v =
      same-IsShown p (project_session_meta stable_id describe_tool_call p ref)
        (project_session_meta-SameActivity stable_id describe_tool_call p ref) v
  step-IsShown p (rebuilds_from sid es) v =
      same-IsShown p (rebuild stable_id describe_tool_call p sid es)
        (rebuild-SameActivity stable_id describe_tool_call p sid es) v

  empty-IsShown : IsShown new_projector
  unfolding JsMap.get JsSet.contains
  empty-IsShown sid = refl

  run-IsShown_from :
      (p : Projector) (os : List Operation)
      → IsShown p
      → IsShown (run stable_id describe_tool_call p os)
  unfolding run
  run-IsShown_from p [] v = v
  run-IsShown_from p (o ∷ os) v =
      run-IsShown_from (step stable_id describe_tool_call p o) os (step-IsShown p o v)

  -- Whatever a projector hears, receives, rebuilds, ensures and drops, and whenever its timers fire,
  -- a session's activity row is there and shows something, thinking, streaming or a tool, exactly
  -- while the session is in the projector's set of active sessions; else it is absent or idle.
  -- The hash is taken to have no collisions.
  pub run-IsShown :
      (os : List Operation) → IsShown (run stable_id describe_tool_call new_projector os)
  run-IsShown os = run-IsShown_from new_projector os empty-IsShown
