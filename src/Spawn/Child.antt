-- ===== src/Spawn/Child.antt =====
-- packages/runtime/src/subagent-tool.ts: `runSubagentToCompletion`, which waits for the turn of a child
-- session. What may happen comes as events: those of the child's bus, the timer, the abort signal,
-- and the answer of the child's mailbox. Only a handler that is still attached sees its event.
pub mod Settled
use Prim.Native.Nat.{◌/◌}
use Prim.Native.String
use akko.Prelude.{
  ℕ, ◌+◌, String, Bool, true, false, ◌&&◌, not, Option, none, some, or_default, List, [], ◌∷◌, ◌++◌,
  map, length, nat_eq, if◌then◌else◌, Result, ok, failed,
}
use akko.Prelude.Text.{trim}

pub data ChildFailure : Type 0 where
  -- after so many seconds
  timed_out : ℕ → ChildFailure
  aborted : ChildFailure
  -- the mailbox's reason
  prompt_rejected : String → ChildFailure
  post_failed : String → ChildFailure

pub data Event : Type 0 where
  -- a `message_update` with a `text_delta`
  text_delta : Option String → Event
  agent_end : Event
  -- an event of another kind, or one that pi did not make
  other_event : Event
  timer_fires : Event
  signal_aborts : Event
  -- the mailbox's decision, with the reason if there is one
  decided : Bool → Option String → Event
  post_throws : String → Event

-- The closure's variables, what is still attached, and what the promise has come to.
pub record Run : Type 0 where
  pub text : String
  pub settled : Bool
  pub has_timer : Bool
  pub subscribed : Bool
  pub listening : Bool
  pub result : Option (Result ChildFailure String)

-- With or without an abort signal.
unfoldable pub begin_run : Bool → Run
begin_run has_signal = record {
  text = "";
  settled = false;
  has_timer = true;
  subscribed = true;
  listening = has_signal;
  result = none;
}

unfoldable pub finish : Run → Result ChildFailure String → Run
finish r result = if r.settled then r else record r {
  settled = true;
  has_timer = false;
  subscribed = false;
  listening = false;
  result = some result;
}

-- `Math.round(timeoutMs / 1000)`
abbrev pub seconds : ℕ → ℕ
seconds timeout_ms = (timeout_ms + 500) / 1000

unfoldable pub on_event : ℕ → Run → Event → Run
unfolding finish trim
on_event timeout_ms r (text_delta delta) =
    if r.subscribed then record r { text = String.◌++◌ r.text (or_default delta "") } else r
on_event timeout_ms r agent_end = if r.subscribed then finish r (ok (trim r.text)) else r
on_event timeout_ms r other_event = r
on_event timeout_ms r timer_fires =
    if r.has_timer then finish r (failed (timed_out (seconds timeout_ms))) else r
on_event timeout_ms r signal_aborts = if r.listening then finish r (failed aborted) else r
on_event timeout_ms r (decided accepted reason) =
    if accepted
    then r
    else finish r (failed (prompt_rejected (or_default reason "subagent prompt rejected")))
on_event timeout_ms r (post_throws error) = finish r (failed (post_failed error))

unfoldable pub run_child : ℕ → Run → List Event → Run
unfolding on_event
run_child timeout_ms r [] = r
run_child timeout_ms r (e ∷ es) = run_child timeout_ms (on_event timeout_ms r e) es
