-- ===== src/Session/Tests.antt =====
-- Runs of the capture of packages/runtime/src/session-runtime.ts, and instances of its theorems.
use akko.Prelude.{◌≡◌, refl, none, some, List, [], ◌∷◌, arith, length, ne_of_test}
use akko.Domain.{Command, CommandVerb, rename, Args}
use akko.Session.Commands.{Applied, Means, apply_command}
use akko.Session.Attribution.{Told, apply_command_attributes}
use akko.Prelude.{false}
use akko.Content.{Message, from_user, from_assistant, plain}
use akko.Store.{EntryRow, indexed, persist_entry, get_entries}
use akko.Session.{
  Runtime, Round, new_runtime, capture_message, capture_at, capture, Event, appends, drives,
  turn_ends, captures, step, run,
}
use akko.Session.Captured.{
  messages_of, rebuilt, IsCaptured, RunsSmoothly, rebuilt-IsCaptured, IsCaptured-run,
  run-IsCaptured,
}
use akko.Session.Complete.{rounds, capture_completes}
use akko.Session.Retry.{succeeds, fails, capture_retry_duplicates}

abbrev question : Message
question = record { role = from_user; content = plain "hi" }

abbrev answer : Message
answer = record { role = from_assistant; content = plain "hello" }

abbrev stored : List EntryRow
stored =
    record {
      session_id = "ses_1";
      committed = record {
        id = "e0";
        parent_id = none;
        entry = question;
        actor_id = some "prn_1";
        ts = 4;
      };
    }
    ∷ []

abbrev turn : List Event
turn =
    drives "prn_2"
    ∷ appends question
    ∷ appends answer
    ∷ turn_ends
    ∷ captures (succeeds "e1" 9)
    ∷ captures (succeeds "e2" 9)
    ∷ []

turn_smooth : RunsSmoothly (rebuilt "ses_1" stored) turn
unfolding run step capture capture_at capture_message persist_entry indexed get_entries
turn_smooth = (tt, (tt, (tt, (tt, ((refl, refl), ((refl, refl), tt))))))

abbrev mid_turn : Runtime
mid_turn = run (rebuilt "ses_1" stored) turn

-- One message of the turn is stored, at its own time, and the capture is at the other one.
mid_turn_entries :
    get_entries mid_turn.rows "ses_1"
    ≡ record { id = "e0"; parent_id = none; entry = question; actor_id = some "prn_1"; ts = 4 }
      ∷ record { id = "e2"; parent_id = none; entry = question; actor_id = some "prn_2"; ts = 9 }
      ∷ []
unfolding run step capture capture_at capture_message persist_entry indexed get_entries
mid_turn_entries = refl

run-IsCaptured_example : IsCaptured (get_entries stored "ses_1") mid_turn
run-IsCaptured_example = run-IsCaptured "ses_1" stored turn turn_smooth

mid_turn-IsCaptured : IsCaptured (get_entries stored "ses_1") mid_turn
mid_turn-IsCaptured = IsCaptured-run _ _ turn (rebuilt-IsCaptured "ses_1" stored) turn_smooth

mid_turn_running : mid_turn.running ≡ some 2
unfolding run step capture capture_at capture_message persist_entry indexed get_entries
mid_turn_running = refl

mid_turn_length : length mid_turn.messages ≡ 3
unfolding run step capture capture_at capture_message persist_entry indexed get_entries
mid_turn_length = refl

abbrev rest : List Round
rest = succeeds "e3" 9 ∷ succeeds "e4" 9 ∷ []

rest_smooth : RunsSmoothly mid_turn (rounds rest)
unfolding run step capture capture_at capture_message persist_entry indexed get_entries
rest_smooth = ((refl, refl), ((refl, refl), tt))

capture_completes_example :
    let s = run mid_turn (rounds rest) in
    (s.running ≡ none)
    × (s.persisted_count ≡ length mid_turn.messages)
    × (messages_of (get_entries s.rows s.session_id) ≡ s.messages)
capture_completes_example =
    capture_completes (get_entries stored "ses_1") mid_turn 2 1 rest mid_turn-IsCaptured
      mid_turn_running (rw mid_turn_length (omega arith)) refl rest_smooth

capture_retry_duplicates_example :
    messages_of (
      get_entries
        (run (new_runtime "ses_1" (question ∷ answer ∷ []) 0 []) (
          turn_ends
          ∷ captures (succeeds "a" 5)
          ∷ captures (succeeds "a" 5)
          ∷ captures (fails "b" 5)
          ∷ turn_ends
          ∷ captures (succeeds "c" 5)
          ∷ captures (succeeds "c" 5)
          ∷ captures (succeeds "d" 5)
          ∷ [])).rows
        "ses_1")
    ≡ question ∷ question ∷ answer ∷ []
capture_retry_duplicates_example =
    capture_retry_duplicates "ses_1" question answer "a" "b" "c" "d" 5 (ne_of_test "a" "c" refl)
      (ne_of_test "a" "d" refl) (ne_of_test "c" "d" refl)

-- A driver that takes everything, and a session that is renamed to nothing.
abbrev means : Means
means = record {
  driver_error = λ c. none;
  resolve_model = none;
  stop = none;
  trim = λ s. s;
  text_length = λ s. 0;
}

abbrev idle_session : Applied
idle_session = record {
  is_streaming = false;
  last_actor = some "prn_1";
  driver_calls = [];
  model_changes = [];
  renames = [];
  patches = [];
}

abbrev no_args : Args
no_args = record {
  text = some "go on";
  streaming_behavior = none;
  model = none;
  title = some "";
  session_id = none;
}

abbrev command_of : CommandVerb → Command
command_of verb = record {
  id = "cmd_1";
  session_id = "ses_1";
  actor_id = "prn_2";
  verb = verb;
  args = no_args;
  ts = 3;
  streaming_behavior = none;
}

apply_command_attributes_example :
    ((apply_command means idle_session (command_of rename)).0.last_actor ≡ some "prn_1")
    × Told idle_session
        (apply_command means idle_session (command_of rename)).0
        (apply_command means idle_session (command_of rename)).1
apply_command_attributes_example = apply_command_attributes means idle_session (command_of rename)
