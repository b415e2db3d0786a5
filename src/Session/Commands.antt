-- ===== src/Session/Commands.antt =====
-- packages/runtime/src/session-runtime.ts: `applyCommand`, verb by verb. The driver is the session of
-- pi: its calls are listed, and whether one fails is a parameter, as are the resolution of a model,
-- the end of a subagent, and the trimming and the length of a text.
use akko.Prelude.{
  ℕ, String, Bool, true, false, Option, none, some, List, [], ◌∷◌, ◌++◌, ltb, ◌==◌, if◌then◌else◌,
  or_default, truthy, Result, ok, failed,
}
use akko.Domain.{
  Command, CommandVerb, prompt, steer, follow_up, abort, set_model, stop_subagent, rename, Args,
  StreamingBehavior, as_follow_up,
}

pub data DriverCall : Type 0 where
  prompts : Option String → Option StreamingBehavior → DriverCall
  steers follows_up : Option String → DriverCall
  aborts : DriverCall
  sets_model : String → DriverCall

-- What is broadcast of a session.
pub data Patch : Type 0 where
  model_patch title_patch : String → Patch

pub record Applied : Type 0 where
  pub is_streaming : Bool
  pub last_actor : Option String
  pub driver_calls : List DriverCall
  -- the calls of `onModelChanged` and of `onRenamed`
  pub model_changes : List String
  pub renames : List String
  pub patches : List Patch

pub record Means : Type 0 where
  -- the error of a call of the driver; a prompt that its preflight turns down is one
  pub driver_error : DriverCall → Option String
  pub resolve_model : Option (String → Result String String)
  pub stop : Option (String → Result String Bool)
  pub trim : String → String
  pub text_length : String → ℕ

abbrev pub outcome : Applied → Option String → Applied × Result String Bool
outcome a none = (a, ok true)
outcome a (some e) = (a, failed e)

abbrev pub call_driver : Means → Applied → DriverCall → Applied × Result String Bool
call_driver m a c =
    outcome (record a { driver_calls = a.driver_calls ++ c ∷ [] }) (m.driver_error c)

abbrev pub by_actor : Applied → String → Applied
by_actor a actor = record a { last_actor = some actor }

-- `applyPrompt`: a prompt to a session that streams is queued, as a follow-up unless it says how.
abbrev pub behavior_for : Bool → Option StreamingBehavior → Option StreamingBehavior
behavior_for is_streaming asked =
    if is_streaming then some (or_default asked as_follow_up) else none

abbrev pub model_is_set :
    Applied → String → Applied × Result String Bool → Applied × Result String Bool
model_is_set before model (a, failed e) = (a, failed e)
model_is_set before model (a, ok b) = (
  record a {
    model_changes = a.model_changes ++ model ∷ [];
    patches = a.patches ++ model_patch model ∷ [];
  },
  ok true,
)

abbrev pub set_resolved :
    Means → Applied → Option (Result String String) → Applied × Result String Bool
set_resolved m a none = (a, failed "setModel: no model resolver configured")
set_resolved m a (some (failed e)) =
    (a, failed (if e == "" then "setModel: no model resolver configured" else e))
set_resolved m a (some (ok model)) = model_is_set a model (call_driver m a (sets_model model))

abbrev pub resolve_with :
    Option (String → Result String String) → String → Option (Result String String)
resolve_with none input = none
resolve_with (some resolve) input = some (resolve input)

abbrev pub apply_set_model : Means → Applied → Option String → Applied × Result String Bool
apply_set_model m a input = elim (truthy input) [
  | none ↦ (a, failed "setModel: missing model")
  | some model ↦ set_resolved m a (resolve_with m.resolve_model model)
]

abbrev pub apply_rename : Means → Applied → String → Applied × Result String Bool
apply_rename m a input =
    let title = m.trim input in
    if title == ""
    then (a, failed "rename: missing title")
    else if ltb 200 (m.text_length title)
    then (a, failed "rename: title too long")
    else (
      record a { renames = a.renames ++ title ∷ []; patches = a.patches ++ title_patch title ∷ [] },
      ok true,
    )

abbrev pub stopped : Applied → Result String Bool → Applied × Result String Bool
stopped a (failed e) = (a, failed e)
stopped a (ok true) = (a, ok true)
stopped a (ok false) = (a, failed "stopSubagent: not a running subagent of this session")

abbrev pub apply_stop : Means → Applied → Option String → Applied × Result String Bool
apply_stop m a id = elim (truthy id) [
  | none ↦ (a, failed "stopSubagent: missing sessionId")
  | some sid ↦ elim m.stop [
    | none ↦ (a, failed "stopSubagent: not supported here")
    | some stop ↦ stopped a (stop sid)
  ]
]

abbrev pub not_implemented : Applied → Applied × Result String Bool
not_implemented a = (a, failed "verb not implemented in slice 1")

unfoldable pub apply_verb :
    Means → Applied → String → Args → CommandVerb → Applied × Result String Bool
apply_verb m a actor args prompt =
    call_driver m (by_actor a actor)
      (prompts args.text (behavior_for a.is_streaming args.streaming_behavior))
apply_verb m a actor args steer = call_driver m (by_actor a actor) (steers args.text)
apply_verb m a actor args follow_up = call_driver m (by_actor a actor) (follows_up args.text)
apply_verb m a actor args set_model = apply_set_model m a args.model
apply_verb m a actor args abort = call_driver m a aborts
apply_verb m a actor args rename = apply_rename m a (or_default args.title "")
apply_verb m a actor args stop_subagent = apply_stop m a args.session_id
apply_verb m a actor args verb = not_implemented a

unfoldable pub apply_command : Means → Applied → Command → Applied × Result String Bool
unfolding apply_verb
apply_command m a c = apply_verb m a c.actor_id c.args c.verb

-- The verbs that speak for their actor.
abbrev pub speaks : CommandVerb → Bool
speaks prompt = true
speaks steer = true
speaks follow_up = true
speaks verb = false

abbrev pub actor_after : Applied → String → Bool → Option String
actor_after a actor true = some actor
actor_after a actor false = a.last_actor
