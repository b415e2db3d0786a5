-- ===== src/Projector/Calls.antt =====
-- The calls, events and timers of packages/server/src/jazz-projector.ts.
use akko.Prelude.{◌+◌, String, Bool, some, List, [], ◌∷◌, ◌++◌, ◌==◌, if◌then◌else◌}
use Prim.Native.String
use akko.Prelude.JsMap
use akko.Prelude.JsMap.{JsMap}
use akko.Prelude.JsSet
use akko.Domain.{SessionRef}
use akko.Content.{
  ToolCall, MessageRole, from_user, from_assistant, from_other, text_of_content,
  tool_calls_of_content,
}
use akko.Store.{CommittedEntry}
use akko.ReadModel.{
  RowRole, user_row, assistant_row, tool_row, ActivityKind, thinking, streaming, tool, idle,
  ToolLabel, described, progressing,
}
use akko.Turn.{Timer, fresh_turn, has_label, kind_of_turn, clear_timer, settle_turn}
use akko.Projector.{
  Projector, LiveEvent, turn_of, set_turn, activity_row, session_row, start_backfill, message_row,
  put_message, drop_turn, retire, append_stream, Operation, progress, user_message_start,
  assistant_message_start, text_delta, tool_call_end, queue_update, turn_end, agent_end,
  other_event, hears, receives, fires, drops, ensures, describes, rebuilds_from,
}

module _ (stable_id : String → String) (describe_tool_call : ToolCall → String) where
  abbrev pub activity_id : String → String
  activity_id sid = stable_id (String.◌++◌ "activity:" sid)

  abbrev pub session_row_id : String → String
  session_row_id sid = stable_id (String.◌++◌ "session:" sid)

  abbrev pub message_row_id : String → String → String
  message_row_id sid entry =
      stable_id (String.◌++◌ "message:" (String.◌++◌ sid (String.◌++◌ ":" entry)))

  unfoldable pub project_session : Projector → SessionRef → Projector
  project_session p ref = record p {
    sessions = JsMap.put p.sessions (session_row_id ref.id) (session_row ref);
  }

  unfoldable pub project_session_meta : Projector → SessionRef → Projector
  unfolding project_session
  project_session_meta p ref =
      project_session (record p { workspace_of = JsMap.put p.workspace_of ref.id ref.workspace_id })
        ref

  -- `has_bus` says whether the projector was given an event bus.
  unfoldable pub ensure_session : Bool → Projector → SessionRef → Projector
  unfolding project_session start_backfill
  ensure_session has_bus p ref =
      let q =
        project_session
          (record p {
            projected = JsSet.add p.projected ref.id;
            workspace_of = JsMap.put p.workspace_of ref.id ref.workspace_id;
          })
          ref in
      start_backfill (record q { subs = if has_bus then JsSet.add q.subs ref.id else q.subs })
        ref.id

  -- The rows of one entry whose message has a role that is shown.
  unfoldable pub project_message : Projector → String → CommittedEntry → RowRole → Projector
  unfolding put_message
  project_message p sid e role =
      let q =
        put_message p (message_row_id sid e.id)
          (message_row p sid e role (text_of_content e.entry.content) e.ts) in
      put_message q (message_row_id sid (String.◌++◌ e.id ":tools")) (
        message_row p sid e tool_row (tool_calls_of_content describe_tool_call e.entry.content)
          (e.ts + 1))

  unfoldable pub project_role : Projector → String → CommittedEntry → MessageRole → Projector
  unfolding project_message
  project_role p sid e from_user = project_message p sid e user_row
  project_role p sid e from_assistant = project_message p sid e assistant_row
  project_role p sid e from_other = p

  unfoldable pub project_entry : Projector → String → CommittedEntry → Projector
  unfolding project_role
  project_entry p sid e = project_role p sid e e.entry.role

  -- The loop of `rebuild` over the canonical entries.
  unfoldable pub rebuild : Projector → String → List CommittedEntry → Projector
  unfolding project_entry
  rebuild p sid [] = p
  rebuild p sid (e ∷ es) = rebuild (project_entry p sid e) sid es

  unfoldable pub write_activity : Projector → String → ActivityKind → Projector
  write_activity p sid kind = record p {
    activity = JsMap.put p.activity (activity_id sid) (activity_row p sid kind (turn_of p sid));
    active = JsSet.add p.active sid;
  }

  unfoldable pub clear_activity : Projector → String → Projector
  unfolding write_activity drop_turn retire
  clear_activity p sid =
      let q = drop_turn (record p { timers = clear_timer p.timers (turn_of p sid).timer }) sid in
      if JsSet.contains q.active sid
      then retire (drop_turn (write_activity (set_turn q sid (fresh_turn "")) sid idle) sid) sid
      else q

  unfoldable pub after_entry : Projector → String → Projector
  unfolding write_activity clear_activity
  after_entry p sid =
      if has_label (turn_of p sid).tool_label
      then write_activity (set_turn p sid (record (turn_of p sid) { text = "" })) sid tool
      else clear_activity p sid

  unfoldable pub on_entry_role : Projector → String → MessageRole → Projector
  unfolding after_entry
  on_entry_role p sid from_assistant = after_entry p sid
  on_entry_role p sid role = p

  unfoldable pub on_entry : Projector → String → CommittedEntry → Projector
  unfolding project_entry on_entry_role
  on_entry p sid e = on_entry_role (project_entry p sid e) sid e.entry.role

  unfoldable pub label_turn : Projector → String → ToolLabel → Projector
  unfolding write_activity
  label_turn p sid label =
      write_activity (set_turn p sid (record (turn_of p sid) { tool_label = some label })) sid tool

  unfoldable pub on_live_event : Projector → String → LiveEvent → Projector
  unfolding label_turn append_stream write_activity clear_activity
  on_live_event p sid (progress label done total) = label_turn p sid (progressing label done total)
  on_live_event p sid (user_message_start content) =
      write_activity (set_turn p sid (fresh_turn (text_of_content content))) sid thinking
  on_live_event p sid assistant_message_start =
      write_activity (set_turn p sid (record (turn_of p sid) { text = "" })) sid streaming
  on_live_event p sid (text_delta delta) = if delta == "" then p else append_stream p sid delta
  on_live_event p sid (tool_call_end call) = label_turn p sid (described (describe_tool_call call))
  on_live_event p sid (queue_update steering follow_up) =
      let t = record (turn_of p sid) { queued = steering ++ follow_up } in
      write_activity (set_turn p sid t) sid (kind_of_turn t)
  on_live_event p sid turn_end = clear_activity p sid
  on_live_event p sid agent_end = clear_activity p sid
  on_live_event p sid other_event = p

  unfoldable pub fire_timer : Projector → Timer → Projector
  unfolding write_activity
  fire_timer p timer =
      write_activity
        (record p {
          timers = clear_timer p.timers (some timer.id);
          turn = settle_turn p.turn timer.session_id timer.id;
        })
        timer.session_id streaming

  unfoldable pub drop_session : Projector → String → Projector
  unfolding clear_activity
  drop_session p sid =
      let q = clear_activity (record p { subs = JsSet.remove p.subs sid }) sid in
      record q {
        projected = JsSet.remove q.projected sid;
        workspace_of = JsMap.delete q.workspace_of sid;
        backfilled = JsSet.remove q.backfilled sid;
      }

  unfoldable pub step : Projector → Operation → Projector
  unfolding on_live_event on_entry fire_timer drop_session ensure_session project_session_meta
      rebuild
  step p (hears sid e) = on_live_event p sid e
  step p (receives sid e) = on_entry p sid e
  step p (fires timer) = fire_timer p timer
  step p (drops sid) = drop_session p sid
  step p (ensures has_bus ref) = ensure_session has_bus p ref
  step p (describes ref) = project_session_meta p ref
  step p (rebuilds_from sid es) = rebuild p sid es

  unfoldable pub run : Projector → List Operation → Projector
  unfolding step
  run p [] = p
  run p (o ∷ os) = run (step p o) os
