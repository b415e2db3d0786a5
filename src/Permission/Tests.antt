-- ===== src/Permission/Tests.antt =====
-- A session's mailbox that asks packages/runtime/src/session-registry.ts, and its theorem there.
use akko.Prelude.{◌≡◌, refl, String, true, false, none, some, List, [], ◌∷◌, map, All}
use akko.Domain.{SessionRef, conversation, Command, prompt, Membership, editor, viewer}
use akko.Mailbox.{Mailbox, QueueItem, Outcome, returned, Event, posts, resumes, new_mailbox, run}
use akko.Mailbox.Guarded.{IsFine, IsDue}
use akko.Authz.{role_based}
use akko.Permission.{authorize}
use akko.Permission.Applied.{IsPermitted, answer, only_editors_apply}

abbrev session : SessionRef
session = record {
  id = "ses_1";
  workspace_id = "ws_1";
  owner_id = "prn_1";
  kind = conversation;
  parent_session_id = none;
  agent_type = none;
  title = none;
  model = none;
  host_node = none;
  created_at = 1;
  updated_at = 2;
}

abbrev command_of : String → Command
command_of actor = record {
  id = "cmd";
  session_id = "ses_1";
  actor_id = actor;
  verb = prompt;
  args = record {
    text = some "go";
    streaming_behavior = none;
    model = none;
    title = none;
    session_id = none;
  };
  ts = 1;
  streaming_behavior = none;
}

abbrev members : List Membership
members =
    record { workspace_id = "ws_1"; principal_id = "ann"; role = editor }
    ∷ record { workspace_id = "ws_1"; principal_id = "vic"; role = viewer }
    ∷ []

abbrev events : List Event
events =
    posts (command_of "ann")
    ∷ posts (command_of "vic")
    ∷ posts (command_of "eve")
    ∷ resumes
    ∷ resumes
    ∷ resumes
    ∷ resumes
    ∷ []

abbrev applied : QueueItem → Outcome (Unit {0})
applied item = returned tt

abbrev ended : Mailbox
ended = run (answer session (λ i. some members) applied) applied new_mailbox events

one_accepted : map (λ s. s.1.accepted) ended.settled ≡ true ∷ false ∷ false ∷ []
unfolding run authorize role_based
one_accepted = refl

only_editors_apply_example :
    All (IsFine (IsPermitted session (λ i. some members) applied)) ended.calls
    × All (IsDue (IsPermitted session (λ i. some members) applied)) ended.settled
only_editors_apply_example = only_editors_apply session (λ i. some members) applied events
