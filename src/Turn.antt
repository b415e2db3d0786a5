-- ===== src/Turn.antt =====
-- packages/server/src/jazz-projector.ts: what the projector keeps of a turn in flight, and its timer.
use akko.Prelude.{
  ℕ, String, Bool, true, false, not, Option, none, some, List, [], ◌∷◌, filter, nat_eq, ◌==◌,
  if◌then◌else◌,
}
use akko.Prelude.JsMap
use akko.Prelude.JsMap.{JsMap}
use akko.ReadModel.{ToolLabel, described, progressing, ActivityKind, thinking, streaming, tool}

pub record TurnState : Type 0 where
  pub user_text : String
  pub text : String
  pub tool_label : Option ToolLabel
  pub queued : List String
  pub timer : Option ℕ

pub record Timer : Type 0 where
  pub id : ℕ
  pub session_id : String

abbrev pub fresh_turn : String → TurnState
fresh_turn user_text = record {
  user_text = user_text;
  text = "";
  tool_label = none;
  queued = [];
  timer = none;
}

-- A label that is missing or empty is false in a condition.
abbrev pub has_label : Option ToolLabel → Bool
has_label none = false
has_label (some (described s)) = not (s == "")
has_label (some (progressing label done total)) = true

abbrev pub shown_label : ActivityKind → Option ToolLabel → Option ToolLabel
shown_label tool label = label
shown_label kind label = none

abbrev pub first_or_empty : List String → String
first_or_empty [] = ""
first_or_empty (x ∷ xs) = x

abbrev pub kind_of_turn : TurnState → ActivityKind
kind_of_turn t =
    if has_label t.tool_label then tool else if t.text == "" then thinking else streaming

-- `clearTimeout`
abbrev pub clear_timer : List Timer → Option ℕ → List Timer
clear_timer timers none = timers
clear_timer timers (some id) = filter (λ t. not (nat_eq t.id id)) timers

-- The callback of a timer. It resets the field of the turn that had set it, which may no longer
-- be the one in the map.
abbrev pub settle_timer : ℕ → TurnState → TurnState
settle_timer id t = elim t.timer [
  | none ↦ t
  | some i ↦ if nat_eq i id then record t { timer = none } else t
]

abbrev pub settle_turn : JsMap TurnState → String → ℕ → JsMap TurnState
settle_turn turns sid id = elim (JsMap.get turns sid) [
  | none ↦ turns
  | some t ↦ JsMap.put turns sid (settle_timer id t)
]
