-- ===== src/Session/Attribution.antt =====
-- Whom `applyCommand` of packages/runtime/src/session-runtime.ts attributes a turn to, and what it
-- leaves alone when it fails.
use akko.Prelude.{
  ◌≡◌, refl, String, Bool, true, false, Option, none, some, [], ◌∷◌, ◌++◌, ltb, ◌==◌, or_default,
  truthy, Bool-cases, Option-cases, inl, inr, Result, ok, failed,
}
use akko.Domain.{
  Command, CommandVerb, prompt, steer, follow_up, abort, set_model, set_thinking_level, compact,
  fork, clone, navigate_tree, spawn_subagent, stop_subagent, set_skill_enabled, rename, Args,
}
use akko.Session.Commands.{
  DriverCall, prompts, steers, follows_up, aborts, sets_model, Applied, Means, outcome, call_driver,
  by_actor, behavior_for, model_is_set, set_resolved, resolve_with, apply_set_model, apply_rename,
  stopped, apply_stop, apply_verb, apply_command, speaks, actor_after,
}

-- The last actor is the one that is named, and a failure has broadcast and recorded nothing.
abbrev pub Told : Applied → Applied → Result String Bool → Type 0
Told a b (ok done) = Unit
Told a b (failed e) =
    (b.patches ≡ a.patches) × (b.renames ≡ a.renames) × (b.model_changes ≡ a.model_changes)

abbrev Fine : Option String → Applied → Applied × Result String Bool → Type 0
Fine actor a x = (x.0.last_actor ≡ actor) × Told a x.0 x.1

outcome-Fine :
    (a b : Applied) (o : Option String)
    → b.patches ≡ a.patches
    → b.renames ≡ a.renames
    → b.model_changes ≡ a.model_changes
    → Fine b.last_actor a (outcome b o)
outcome-Fine a b none p r c = (refl, tt)
outcome-Fine a b (some e) p r c = (refl, (p, r, c))

call_driver-Fine :
    (m : Means) (a : Applied) (c : DriverCall) → Fine a.last_actor a (call_driver m a c)
call_driver-Fine m a c =
    outcome-Fine a (record a { driver_calls = a.driver_calls ++ c ∷ [] }) (m.driver_error c) refl
      refl refl

speak-Fine :
    (m : Means) (a : Applied) (actor : String) (c : DriverCall)
    → Fine (some actor) a (call_driver m (by_actor a actor) c)
speak-Fine m a actor c =
    outcome-Fine a (record (by_actor a actor) { driver_calls = a.driver_calls ++ c ∷ [] })
      (m.driver_error c) refl refl refl

model_is_set-Fine :
    (a b : Applied) (model : String) (o : Option String)
    → b.patches ≡ a.patches
    → b.renames ≡ a.renames
    → b.model_changes ≡ a.model_changes
    → Fine b.last_actor a (model_is_set b model (outcome b o))
model_is_set-Fine a b model none p r c = (refl, tt)
model_is_set-Fine a b model (some e) p r c = (refl, (p, r, c))

set_resolved-Fine :
    (m : Means) (a : Applied) (o : Option (Result String String))
    → Fine a.last_actor a (set_resolved m a o)
set_resolved-Fine m a none = (refl, (refl, refl, refl))
set_resolved-Fine m a (some (failed e)) = (refl, (refl, refl, refl))
set_resolved-Fine m a (some (ok model)) =
    let b : Applied = record a { driver_calls = a.driver_calls ++ sets_model model ∷ [] } in
    model_is_set-Fine a b model (m.driver_error (sets_model model)) refl refl refl

apply_set_model-Fine :
    (m : Means) (a : Applied) (input : Option String)
    → Fine a.last_actor a (apply_set_model m a input)
apply_set_model-Fine m a input = elim (Option-cases (truthy input)) [
  | inl n ↦ rw (n, apply_set_model) (refl, (refl, refl, refl))
  | inr s ↦ rw (s.1, apply_set_model) (set_resolved-Fine m a (resolve_with m.resolve_model s.0))
]

apply_rename-Fine :
    (m : Means) (a : Applied) (input : String) → Fine a.last_actor a (apply_rename m a input)
apply_rename-Fine m a input = elim (Bool-cases (m.trim input == "")) [
  | inl b ↦ rw (b, apply_rename) (refl, (refl, refl, refl))
  | inr b ↦ elim (Bool-cases (ltb 200 (m.text_length (m.trim input)))) [
    | inl c ↦ rw (b, c, apply_rename) (refl, (refl, refl, refl))
    | inr c ↦ rw (b, c, apply_rename) (refl, tt)
  ]
]

stopped-Fine : (a : Applied) (r : Result String Bool) → Fine a.last_actor a (stopped a r)
stopped-Fine a (failed e) = (refl, (refl, refl, refl))
stopped-Fine a (ok true) = (refl, tt)
stopped-Fine a (ok false) = (refl, (refl, refl, refl))

apply_stop-Fine :
    (m : Means) (a : Applied) (id : Option String) → Fine a.last_actor a (apply_stop m a id)
apply_stop-Fine m a id = elim (Option-cases (truthy id)) [
  | inl n ↦ rw (n, apply_stop) (refl, (refl, refl, refl))
  | inr s ↦ elim (Option-cases m.stop) [
    | inl n ↦ rw (s.1, n, apply_stop) (refl, (refl, refl, refl))
    | inr f ↦ rw (s.1, f.1, apply_stop) (stopped-Fine a (f.0 s.0))
  ]
]

apply_verb-Fine :
    (m : Means) (a : Applied) (actor : String) (args : Args) (verb : CommandVerb)
    → Fine (actor_after a actor (speaks verb)) a (apply_verb m a actor args verb)
unfolding apply_verb
apply_verb-Fine m a actor args prompt =
    speak-Fine m a actor (prompts args.text (behavior_for a.is_streaming args.streaming_behavior))
apply_verb-Fine m a actor args steer = speak-Fine m a actor (steers args.text)
apply_verb-Fine m a actor args follow_up = speak-Fine m a actor (follows_up args.text)
apply_verb-Fine m a actor args set_model = apply_set_model-Fine m a args.model
apply_verb-Fine m a actor args abort = call_driver-Fine m a aborts
apply_verb-Fine m a actor args rename = apply_rename-Fine m a (or_default args.title "")
apply_verb-Fine m a actor args stop_subagent = apply_stop-Fine m a args.session_id
apply_verb-Fine m a actor args set_thinking_level = (refl, (refl, refl, refl))
apply_verb-Fine m a actor args compact = (refl, (refl, refl, refl))
apply_verb-Fine m a actor args fork = (refl, (refl, refl, refl))
apply_verb-Fine m a actor args clone = (refl, (refl, refl, refl))
apply_verb-Fine m a actor args navigate_tree = (refl, (refl, refl, refl))
apply_verb-Fine m a actor args spawn_subagent = (refl, (refl, refl, refl))
apply_verb-Fine m a actor args set_skill_enabled = (refl, (refl, refl, refl))

-- A command changes whom the next messages are attributed to exactly when it is a prompt, a steer or
-- a follow-up: then it is the command's own actor, whether or not the driver takes it; every other
-- verb leaves the actor before. And a command that fails has changed neither the model nor the title
-- that are on record, and has broadcast nothing.
pub apply_command_attributes :
    (m : Means) (a : Applied) (c : Command)
    → ((apply_command m a c).0.last_actor ≡ actor_after a c.actor_id (speaks c.verb))
      × Told a (apply_command m a c).0 (apply_command m a c).1
unfolding apply_command
apply_command_attributes m a c = apply_verb-Fine m a c.actor_id c.args c.verb
