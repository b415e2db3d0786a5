-- ===== src/Projector/Tests.antt =====
-- Turns that packages/server/src/jazz-projector.ts shows, and instances of its theorems.
use akko.Prelude.{◌≡◌, refl, String, Bool, true, none, List, [], ◌∷◌, map}
use akko.Prelude.JsMap
use akko.Prelude.JsSet
use akko.Domain.{SessionRef, conversation}
use akko.Content.{ToolCall, from_assistant, plain}
use akko.Store.{CommittedEntry}
use akko.Projector.{
  Projector, user_message_start, assistant_message_start, text_delta, turn_end, Operation, hears,
  receives, ensures, new_projector, append_stream, start_backfill,
}
use akko.Projector.Calls.{
  run, step, rebuild, activity_id, on_live_event, ensure_session, write_activity, project_session,
}
use akko.Projector.Activity.{is_shown, run-IsShown}
use akko.Projector.Rows.{live_is_rebuilt}

-- A hash without collisions, and a short line for a call.
abbrev hash : String → String
hash key = key

abbrev call_name : ToolCall → String
call_name call = "call"

abbrev session : SessionRef
session = record {
  id = "ses_1";
  workspace_id = "ws_1";
  owner_id = "prn_1";
  kind = conversation;
  parent_session_id = none;
  agent_type = none;
  title = none;
  model = none;
  host_node = none;
  created_at = 1;
  updated_at = 2;
}

abbrev answer : CommittedEntry
answer = record {
  id = "e2";
  parent_id = none;
  entry = record { role = from_assistant; content = plain "hello" };
  actor_id = none;
  ts = 9;
}

abbrev mid_turn : List Operation
mid_turn =
    ensures true session
    ∷ hears "ses_1" (user_message_start (plain "hi"))
    ∷ hears "ses_1" assistant_message_start
    ∷ hears "ses_1" (text_delta "hel")
    ∷ []

abbrev whole_turn : List Operation
whole_turn =
    ensures true session
    ∷ hears "ses_1" (user_message_start (plain "hi"))
    ∷ hears "ses_1" assistant_message_start
    ∷ hears "ses_1" (text_delta "hel")
    ∷ receives "ses_1" answer
    ∷ hears "ses_1" turn_end
    ∷ []

abbrev kind_shown : Projector → Bool
kind_shown p = is_shown (JsMap.get p.activity (activity_id hash call_name "ses_1"))

mid_turn_shown : kind_shown (run hash call_name new_projector mid_turn) ≡ true
unfolding run step on_live_event write_activity ensure_session append_stream project_session
    start_backfill JsMap.get JsMap.put JsSet.contains JsSet.add
mid_turn_shown = refl

run-IsShown_example :
    is_shown (
      JsMap.get
        (run hash call_name new_projector whole_turn).activity
        (activity_id hash call_name "ses_1"))
    ≡ JsSet.contains (run hash call_name new_projector whole_turn).active "ses_1"
run-IsShown_example = run-IsShown hash call_name (λ a b h. h) whole_turn "ses_1"

live_is_rebuilt_example :
    (run hash call_name new_projector (map (receives "ses_1") (answer ∷ []))).messages
    ≡ (rebuild hash call_name new_projector "ses_1" (answer ∷ [])).messages
live_is_rebuilt_example = live_is_rebuilt hash call_name new_projector "ses_1" (answer ∷ [])

abbrev streaming_now : Projector
streaming_now = run hash call_name new_projector mid_turn
