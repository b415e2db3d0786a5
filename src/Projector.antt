-- ===== src/Projector.antt =====
-- packages/server/src/jazz-projector.ts: the projection of the conversation into the read model. The
-- tables are keyed by row id; every write of them succeeds. `stable_id` is the hash of a key,
-- `describe_tool_call` the line that packages/schema/src/index.ts writes for a call. A timer is
-- known by a number; it is pending until it fires or is cleared.
pub mod Calls
pub mod Frames
pub mod Rows
pub mod Activity
pub mod Retire
mod Tests
use akko.Prelude.{
  ℕ, ◌+◌, String, Bool, true, false, not, ◌||◌, Option, none, some, List, [], ◌∷◌, ◌++◌, length,
  filter, nat_eq, ◌==◌, if◌then◌else◌, or_default, is_some,
}
use Prim.Native.String
use akko.Prelude.JsMap
use akko.Prelude.JsMap.{JsMap}
use akko.Prelude.JsSet
use akko.Domain.{SessionRef, SessionKind}
use akko.Content.{
  Content, ToolCall, Message, MessageRole, from_user, from_assistant, from_other, text_of_content,
  tool_calls_of_content,
}
use akko.Store.{CommittedEntry}
use akko.ReadModel.{
  RowRole, user_row, assistant_row, tool_row, MessageRow, SessionTableRow, ActivityKind, thinking,
  streaming, tool, idle, ToolLabel, described, progressing, ActivityRow,
}
use akko.Turn.{
  TurnState, Timer, fresh_turn, has_label, shown_label, first_or_empty, kind_of_turn, clear_timer,
  settle_turn,
}

pub record Projector : Type 0 where
  pub messages : JsMap MessageRow
  pub sessions : JsMap SessionTableRow
  pub activity : JsMap ActivityRow
  pub projected : List String
  pub workspace_of : JsMap String
  pub subs : List String
  pub turn : JsMap TurnState
  pub active : List String
  pub backfilled : List String
  pub timers : List Timer
  pub next_timer : ℕ
  -- the sessions whose `rebuild` was started
  pub rebuilds : List String

-- An event of the bus, as `onLiveEvent` tells them apart.
pub data LiveEvent : Type 0 where
  progress : String → ℕ → ℕ → LiveEvent
  user_message_start : Content → LiveEvent
  assistant_message_start : LiveEvent
  text_delta : String → LiveEvent
  tool_call_end : ToolCall → LiveEvent
  queue_update : List String → List String → LiveEvent
  turn_end agent_end other_event : LiveEvent

-- `turn.get(sessionId) ?? { userText: "", text: "" }`
abbrev pub turn_of : Projector → String → TurnState
turn_of p sid = or_default (JsMap.get p.turn sid) (fresh_turn "")

abbrev pub set_turn : Projector → String → TurnState → Projector
set_turn p sid t = record p { turn = JsMap.put p.turn sid t }

abbrev pub workspace_for : Projector → String → String
workspace_for p sid = or_default (JsMap.get p.workspace_of sid) ""

abbrev pub activity_row : Projector → String → ActivityKind → TurnState → ActivityRow
activity_row p sid kind t = record {
  session_id = sid;
  workspace_id = workspace_for p sid;
  kind = kind;
  user_text = t.user_text;
  text = t.text;
  tool_label = shown_label kind t.tool_label;
  queued_count = length t.queued;
  queued_text = first_or_empty t.queued;
}

abbrev session_row : SessionRef → SessionTableRow
session_row ref = record {
  session_id = ref.id;
  workspace_id = ref.workspace_id;
  owner_id = ref.owner_id;
  kind = ref.kind;
  title = or_default ref.title "";
  model = or_default ref.model "";
  created_at = ref.created_at;
  updated_at = ref.updated_at;
}

-- The first sight of a session starts its backfill.
start_backfill : Projector → String → Projector
start_backfill p sid =
    if JsSet.contains p.backfilled sid
    then p
    else record p { backfilled = JsSet.add p.backfilled sid; rebuilds = p.rebuilds ++ sid ∷ [] }

abbrev pub projection_id : Projector → String → Option String
projection_id p sid = if JsSet.contains p.projected sid then some sid else none

abbrev message_row : Projector → String → CommittedEntry → RowRole → String → ℕ → MessageRow
message_row p sid e role text time = record {
  session_id = sid;
  workspace_id = workspace_for p sid;
  role = role;
  text = text;
  created_at = time;
  author_id = or_default e.actor_id "";
}

-- An upsert that is made only of a text that is not empty.
put_message : Projector → String → MessageRow → Projector
put_message p id row =
    if row.text == "" then p else record p { messages = JsMap.put p.messages id row }

drop_turn : Projector → String → Projector
drop_turn p sid = record p { turn = JsMap.delete p.turn sid }

retire : Projector → String → Projector
retire p sid = record p { active = JsSet.remove p.active sid }

-- `appendStream`: the text grows, and a timer is set unless one of this turn is pending.
append_stream : Projector → String → String → Projector
append_stream p sid delta =
    let t = turn_of p sid in
    let longer = record t { text = String.◌++◌ t.text delta; tool_label = none } in
    if is_some t.timer
    then set_turn p sid longer
    else set_turn
        (record p {
          timers = p.timers ++ record { id = p.next_timer; session_id = sid } ∷ [];
          next_timer = p.next_timer + 1;
        })
        sid (record longer { timer = some p.next_timer })

-- Any order of calls, events, entries and timers.
pub data Operation : Type 0 where
  hears : String → LiveEvent → Operation
  receives : String → CommittedEntry → Operation
  fires : Timer → Operation
  drops : String → Operation
  ensures : Bool → SessionRef → Operation
  describes : SessionRef → Operation
  rebuilds_from : String → List CommittedEntry → Operation

abbrev pub new_projector : Projector
new_projector = record {
  messages = [];
  sessions = [];
  activity = [];
  projected = [];
  workspace_of = [];
  subs = [];
  turn = [];
  active = [];
  backfilled = [];
  timers = [];
  next_timer = 0;
  rebuilds = [];
}
