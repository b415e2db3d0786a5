-- ===== src/Projector/Frames.antt =====
-- What packages/server/src/jazz-projector.ts does that leaves the activity rows alone.
use akko.Prelude.{◌≡◌, refl, ◌∙◌, String, Bool, List, [], ◌∷◌, arith}
use akko.Domain.{SessionRef}
use akko.Content.{ToolCall, MessageRole, from_user, from_assistant, from_other}
use akko.Store.{CommittedEntry}
use Prim.Native.String
use akko.Prelude.{◌+◌}
use akko.ReadModel.{MessageRow, RowRole, user_row, assistant_row, tool_row}
use akko.Content.{text_of_content, tool_calls_of_content}
use akko.Projector.{message_row, Projector, text_delta, start_backfill, put_message, append_stream}
use akko.Projector.Calls.{
  message_row_id, project_session, project_session_meta, ensure_session, project_message,
  project_role, project_entry, rebuild, on_live_event,
}

abbrev pub SameActivity : Projector → Projector → Type 0
SameActivity p q = (q.activity ≡ p.activity) × (q.active ≡ p.active)

SameActivity-trans : (p q r : Projector) → SameActivity p q → SameActivity q r → SameActivity p r
SameActivity-trans p q r a b = (b.0 ∙ a.0, b.1 ∙ a.1)

put_message-SameActivity :
    (p : Projector) (id : String) (row : MessageRow) → SameActivity p (put_message p id row)
unfolding put_message
put_message-SameActivity p id row = ground arith

module _ (stable_id : String → String) (describe_tool_call : ToolCall → String) where
  project_message-SameActivity :
      (p : Projector) (sid : String) (e : CommittedEntry) (role : RowRole)
      → SameActivity p (project_message stable_id describe_tool_call p sid e role)
  unfolding project_message
  project_message-SameActivity p sid e role =
      let text_id = message_row_id stable_id describe_tool_call sid e.id in
      let text_row = message_row p sid e role (text_of_content e.entry.content) e.ts in
      let tools_id = message_row_id stable_id describe_tool_call sid (String.◌++◌ e.id ":tools") in
      let tools = tool_calls_of_content describe_tool_call e.entry.content in
      let tools_row = message_row p sid e tool_row tools (e.ts + 1) in
      let q = put_message p text_id text_row in
      SameActivity-trans p q (put_message q tools_id tools_row)
        (put_message-SameActivity p text_id text_row)
        (put_message-SameActivity q tools_id tools_row)

  project_role-SameActivity :
      (p : Projector) (sid : String) (e : CommittedEntry) (role : MessageRole)
      → SameActivity p (project_role stable_id describe_tool_call p sid e role)
  unfolding project_role
  project_role-SameActivity p sid e from_user = project_message-SameActivity p sid e user_row
  project_role-SameActivity p sid e from_assistant =
      project_message-SameActivity p sid e assistant_row
  project_role-SameActivity p sid e from_other = (refl, refl)

  pub project_entry-SameActivity :
      (p : Projector) (sid : String) (e : CommittedEntry)
      → SameActivity p (project_entry stable_id describe_tool_call p sid e)
  unfolding project_entry
  project_entry-SameActivity p sid e = project_role-SameActivity p sid e e.entry.role

  pub rebuild-SameActivity :
      (p : Projector) (sid : String) (es : List CommittedEntry)
      → SameActivity p (rebuild stable_id describe_tool_call p sid es)
  unfolding rebuild
  rebuild-SameActivity p sid [] = (refl, refl)
  rebuild-SameActivity p sid (e ∷ es) =
      SameActivity-trans p (project_entry stable_id describe_tool_call p sid e)
        (rebuild stable_id describe_tool_call p sid (e ∷ es)) (project_entry-SameActivity p sid e)
        (rebuild-SameActivity (project_entry stable_id describe_tool_call p sid e) sid es)

  pub text_delta-SameActivity :
      (p : Projector) (sid delta : String)
      → SameActivity p (on_live_event stable_id describe_tool_call p sid (text_delta delta))
  unfolding on_live_event append_stream
  text_delta-SameActivity p sid delta = ground arith

  pub ensure_session-SameActivity :
      (has_bus : Bool) (p : Projector) (ref : SessionRef)
      → SameActivity p (ensure_session stable_id describe_tool_call has_bus p ref)
  unfolding ensure_session project_session start_backfill
  ensure_session-SameActivity has_bus p ref = ground arith

  pub project_session_meta-SameActivity :
      (p : Projector) (ref : SessionRef)
      → SameActivity p (project_session_meta stable_id describe_tool_call p ref)
  unfolding project_session_meta project_session
  project_session_meta-SameActivity p ref = (refl, refl)
