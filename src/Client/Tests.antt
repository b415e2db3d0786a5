-- ===== src/Client/Tests.antt =====
-- Runs of packages/web/src/lib/client.svelte.ts, and its theorem at a registry.
use akko.Prelude.{◌≡◌, refl, false, none, some, is_some, [], ◌∷◌}
use akko.Prelude.JsMap
use akko.Domain.{SessionRef, conversation}
use akko.Client.{
  Client, answered, from_disk, post_command, prompt_with, finish_command, finish_load_sessions,
  finish_create_session, finish_set_skill_hidden, active_session, send_prompt,
}
use akko.Client.Decision.{reply_of, client_shows_decision}
use akko.Gateway.Routes.{commands}
use akko.Gateway.Tests.{sessions, register, cookie_of, roles, one_session, body}

abbrev session : SessionRef
session = record {
  id = "ses_1";
  workspace_id = "ws_1";
  owner_id = "prn_1";
  kind = conversation;
  parent_session_id = none;
  agent_type = none;
  title = none;
  model = none;
  host_node = none;
  created_at = 1;
  updated_at = 2;
}

abbrev client : Client Unit
client = record {
  workspace_id = "ws_1";
  error = none;
  sessions = some (some session ∷ []);
  models = [];
  active_session_id = some "ses_1";
  skills = [];
  skill_impact = none;
  stale_sessions = [];
  sent = [];
}

trimmed_prompt : (send_prompt client " go ").sent ≡ post_command "ses_1" (prompt_with "go") ∷ []
unfolding send_prompt
trimmed_prompt = refl

blank_prompt : send_prompt client "  " ≡ client
unfolding send_prompt
blank_prompt = refl

refused_visibility :
    (finish_set_skill_hidden client "review" (answered 404 none)).0.error
    ≡ some (from_disk "review")
unfolding finish_set_skill_hidden
refused_visibility = refl

-- An answer that refuses the list leaves the client without one, and its getter throws from then on.
refused_list_is_stored :
    active_session (finish_load_sessions client (answered 403 (some none))).0 ≡ none
unfolding active_session finish_load_sessions
refused_list_is_stored = refl

-- A creation that is refused leaves a hole at the head of the list.
refused_creation_is_stored :
    (finish_create_session client (answered 403 (some none))).0.sessions
    ≡ some (none ∷ some session ∷ [])
unfolding finish_create_session
refused_creation_is_stored = refl

client_shows_decision_example :
    is_some
      (finish_command client (
        reply_of
          (commands sessions none register cookie_of roles "cmd_1" 7 one_session "ses_1"
            (some body)
            "prn_1").1)).error
    ≡ false
unfolding JsMap.get akko.Index.get_ref akko.Members.sql_role_for akko.Registry.Opening.get commands
    finish_command akko.Registry.workspace_runtime akko.Mailbox.run akko.Permission.authorize
    akko.Authz.role_based
client_shows_decision_example =
    client_shows_decision sessions none register cookie_of roles "cmd_1" 7 client one_session
      "ses_1" (some body) "prn_1"
