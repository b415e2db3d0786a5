-- ===== src/Session.antt =====
-- packages/runtime/src/session-runtime.ts, the capture of messages: after each turn the driver's new
-- messages are stored, published and fed to the sinks. Captures are chained, so one runs at a time;
-- the driver may add messages, and commands may come in, at each `await`. The list of messages is
-- the driver's own, which only grows. A sink's failure is caught and changes nothing here.
pub mod Captured
pub mod Complete
pub mod Retry
pub mod Commands
pub mod Attribution
mod Tests
use akko.Prelude.{
  ℕ, zero, suc, ◌+◌, ◌-◌, max, String, Bool, Option, none, some, List, [], ◌∷◌, ◌++◌, get_elem?,
  length, if◌then◌else◌, or_default,
}
use akko.Content.{Message, MessageRole, from_user}
use akko.Store.{CommittedEntry, EntryRow, persist_entry}

pub record Runtime : Type 0 where
  pub session_id : String
  -- `driver.messages`
  pub messages : List Message
  pub persisted_count : ℕ
  pub last_entry_id : Option String
  pub last_actor : Option String
  pub last_ts : ℕ
  -- the conversation store
  pub rows : List EntryRow
  -- the `entry` events of the bus
  pub published : List CommittedEntry
  -- captures on the chain that have not begun, and the loop index of the one that has
  pub waiting : ℕ
  pub running : Option ℕ

-- What a round of the loop takes from outside: `newEntryId()`, `Date.now()`, and whether the
-- promise of `persistEntry` is fulfilled.
pub record Round : Type 0 where
  pub new_id : String
  pub now : ℕ
  pub persists : Bool

-- `new AkkoSessionRuntime` over messages of which `persisted` are stored already.
abbrev pub new_runtime : String → List Message → ℕ → List EntryRow → Runtime
new_runtime sid messages persisted rows = record {
  session_id = sid;
  messages = messages;
  persisted_count = persisted;
  last_entry_id = none;
  last_actor = none;
  last_ts = 0;
  rows = rows;
  published = [];
  waiting = 0;
  running = none;
}

abbrev pub actor_for : MessageRole → Option String → Option String
actor_for from_user actor = actor
actor_for role actor = none

-- `Math.max(Date.now(), lastTs + 1)`
abbrev pub next_ts : Runtime → ℕ → ℕ
next_ts r now = max now (r.last_ts + 1)

abbrev pub entry_for : Runtime → Message → Round → CommittedEntry
entry_for r message round = record {
  id = round.new_id;
  parent_id = r.last_entry_id;
  entry = message;
  actor_id = actor_for message.role r.last_actor;
  ts = next_ts r round.now;
}

-- One round of the loop of `capture`; a rejected `persistEntry` ends the capture.
unfoldable pub capture_message : Runtime → ℕ → Message → Round → Runtime
capture_message r i message round =
    if round.persists
    then record r {
      rows = persist_entry r.rows r.session_id (entry_for r message round);
      published = r.published ++ entry_for r message round ∷ [];
      last_entry_id = some round.new_id;
      last_ts = next_ts r round.now;
      running = some (i + 1);
    }
    else record r { last_ts = next_ts r round.now; running = none }

-- The head of the loop: the next message, or the end of the capture.
unfoldable pub capture_at : Runtime → ℕ → Round → Runtime
unfolding capture_message
capture_at r i round = elim (get_elem? r.messages i) [
  | none ↦ record r { persisted_count = length r.messages; running = none }
  | some message ↦ capture_message r i message round
]

begin_capture : Runtime → ℕ → Runtime
begin_capture r zero = r
begin_capture r (suc n) = record r { waiting = n; running = some r.persisted_count }

unfoldable pub capture : Runtime → Option ℕ → Round → Runtime
unfolding capture_at begin_capture
capture r none round = begin_capture r r.waiting
capture r (some i) round = capture_at r i round

pub data Event : Type 0 where
  -- the driver adds a message
  appends : Message → Event
  -- a prompt, steer or follow-up of an actor is applied
  drives : String → Event
  -- `turn_end` or `agent_end`: `scheduleCapture`
  turn_ends : Event
  captures : Round → Event

unfoldable pub step : Runtime → Event → Runtime
unfolding capture
step r (appends message) = record r { messages = r.messages ++ message ∷ [] }
step r (drives actor) = record r { last_actor = some actor }
step r turn_ends = record r { waiting = r.waiting + 1 }
step r (captures round) = capture r r.running round

unfoldable pub run : Runtime → List Event → Runtime
unfolding step
run r [] = r
run r (e ∷ es) = run (step r e) es
