-- ===== src/Gateway/Tests.antt =====
-- The gateway of packages/server/src/gateway.ts at the registry of
-- packages/runtime/src/session-registry.ts, and instances of its theorems.
use akko.Prelude.{
  ◌≡◌, refl, String, true, false, Option, none, some, List, [], ◌∷◌, ◌⊎◌, ◌==◌, if◌then◌else◌,
}
use akko.Prelude.JsMap
use akko.Domain.{
  SessionRef, SessionKind, conversation, Role, editor, viewer, Membership, prompt, host,
}
use akko.Authz.{role_based}
use akko.Index
use akko.Members.{sql_role_for}
use akko.Mailbox.{QueueItem, Outcome, returned, accept, reject, run}
use akko.Permission.{authorize}
use akko.Auth.{on_user_created}
use akko.Registry.{
  AgentType, Built, Deps, Failure, unknown_session, Live, Registry, new_registry, workspace_runtime,
}
use akko.Registry.Opening
use akko.Registry.Indexed.{IsIndexed}
use akko.Gateway.Routes
use akko.Gateway.{
  Request, post_method, commands_path, Body, Response, json, result_answer, of_auth, Sessions,
  route_of, auth_route, unauthenticated, not_found,
}
use akko.Gateway.OverRegistry.{Served, empty_boxes, registry_sessions}
use akko.Gateway.Guards.{answer, is_refusal, strangers_are_turned_away, outsiders_change_nothing}

abbrev pub session : SessionRef
session = record {
  id = "ses_1";
  workspace_id = "ws_1";
  owner_id = "prn_1";
  kind = conversation;
  parent_session_id = none;
  agent_type = none;
  title = none;
  model = none;
  host_node = none;
  created_at = 1;
  updated_at = 2;
}

abbrev built : SessionKind → Option String → Option AgentType → Option Built
built kind model type = some (record { model = some "anthropic/claude"; messages = 2 })

abbrev deps : Deps
deps = record {
  has_projector = true;
  node_id = none;
  has_loader = true;
  disk_types = [];
  resolve_model = λ m. none;
  build = λ id. built;
}

abbrev text_of : Failure → String
text_of (unknown_session sid) = "unknown session"
text_of failure = "failed"

abbrev applied : Live → QueueItem → Outcome (Unit {0})
applied l item = returned tt

abbrev pub sessions : Sessions (Served Unit) Live
sessions = registry_sessions Unit deps text_of role_based applied (λ w. []) "ses_2" 7

-- A registry that has just started: the index has a session, and none is live.
abbrev started : Registry
started = record (new_registry none) {
  workspaces =
      (
        "ws_1",
        record {
          id = "ws_1";
          name = "Home";
          storage_root = "/w";
          isolation = host;
          node_id = none;
        },
      )
      ∷ [];
  index = ("ses_1", session) ∷ [];
}

-- prn_1 is an editor, and prn_3 a viewer.
abbrev members : List Membership
members =
    record { workspace_id = "ws_1"; principal_id = "prn_1"; role = editor }
    ∷ record { workspace_id = "ws_1"; principal_id = "prn_3"; role = viewer }
    ∷ []

abbrev pub one_session : Served Unit
one_session = record {
  registry = started;
  entries = [];
  boxes = empty_boxes;
  tables = record { users = tt; members = members };
}

started-IsIndexed : IsIndexed started
unfolding JsMap.get
started-IsIndexed sid n = refl

abbrev pub cookie_of : String → Option String
cookie_of cookie = if cookie == "" then none else some cookie

abbrev pub roles : String → String → Option Role
roles workspace p = sql_role_for members workspace p

-- A registration of a new user.
abbrev pub register : Served Unit → Request → Served Unit
register s req = record s {
  tables = record s.tables {
    members =
        on_user_created "ws_1" s.tables.members
          (record { id = "prn_4"; name = "Bob"; email = "b@x" });
  };
}

abbrev pub body : Body
body = record {
  workspace_id = some "ws_1";
  title = none;
  verb = some prompt;
  args = none;
  streaming_behavior = none;
  hidden = false;
}

abbrev prompt_from : String → Request
prompt_from cookie = record {
  method = post_method;
  path = commands_path "ses_1";
  workspace_param = none;
  body = some body;
  cookie = cookie;
}

abbrev answered : Request → Served Unit × Response
answered req = answer sessions none register cookie_of roles "cmd_1" 7 one_session req

-- An editor's command goes through the registry and the mailbox of the runtime that is built for it.
editor_is_served : (answered (prompt_from "prn_1")).1 ≡ json (result_answer accept) 200
unfolding Routes.fetch Index.get_ref JsMap.get sql_role_for Opening.get workspace_runtime run
    authorize role_based
editor_is_served = refl

-- A viewer gets to the mailbox, and no further.
viewer_is_refused :
    (answered (prompt_from "prn_3")).1
    ≡ json (result_answer (reject "viewers cannot modify a session")) 200
unfolding Routes.fetch Index.get_ref JsMap.get sql_role_for Opening.get workspace_runtime run
    authorize role_based
viewer_is_refused = refl

strangers_are_turned_away_example :
    (answered (prompt_from "") ≡ (one_session, unauthenticated))
    ⊎ (answered (prompt_from "") ≡ (one_session, not_found))
    ⊎ ((route_of (commands_path "ses_1") post_method ≡ auth_route)
        × (answered (prompt_from "") ≡ (register one_session (prompt_from ""), of_auth)))
strangers_are_turned_away_example =
    strangers_are_turned_away sessions none register cookie_of roles "cmd_1" 7 one_session
      (prompt_from "") refl

outsiders_change_nothing_example :
    ((answered (prompt_from "prn_2")).0 ≡ one_session)
    × (is_refusal (answered (prompt_from "prn_2")).1 ≡ true)
unfolding route_of JsMap.get Index.get_ref sql_role_for
outsiders_change_nothing_example =
    outsiders_change_nothing sessions none register cookie_of roles "cmd_1" 7 one_session
      (prompt_from "prn_2") "prn_2" started-IsIndexed refl refl refl
