-- ===== src/Gateway/Routes.antt =====
-- The handlers of packages/server/src/gateway.ts, route by route, and `fetch`.
use akko.Prelude.{
  ℕ, String, Bool, true, false, Option, none, some, List, [], if◌then◌else◌, or_default, truthy,
  is_some, Result, ok, failed,
}
use akko.Domain.{SessionRef, Role, viewer, Command, CommandVerb}
use akko.Store.{CommittedEntry}
use akko.Gateway.{
  Body, Request, Answer, done, result_answer, ref_answer, sessions_answer, skills_answer,
  prompt_answer, models_answer, messages_answer, Response, json, of_auth, thrown, Sessions, Skills,
  Route, auth_route, create_route, list_route, other_sessions_route, skills_route, prompt_route,
  models_route, no_route, projection_route, commands_route, history_route, visibility_route,
  route_of, fail, unauthenticated, not_member, shown_history, not_found, with_workspace,
  body_workspace, body_hidden,
}

module _ {S R : Type 0} (sessions : Sessions S R) (skills : Option (Skills S))
    (handle_auth : S → Request → S) (principal_of : String → Option String)
    (role_for : String → String → Option Role) (command_id : String) (now : ℕ) where
  -- A route behind the sign-in.
  abbrev pub signed_in : S → Request → (String → S × Response) → S × Response
  signed_in s req route = elim (principal_of req.cookie) [
    | none ↦ (s, unauthenticated)
    | some p ↦ route p
  ]

  abbrev pub is_member : String → String → Bool
  is_member workspace p = is_some (role_for workspace p)

  -- POST /api/sessions/<id>/projection
  unfoldable pub projection : S → String → String → S × Response
  projection s sid p = elim (sessions.get_ref s sid) [
    | none ↦ (s, fail "unknown session" 404)
    | some ref ↦
        if is_member ref.workspace_id p
        then (sessions.ensure_projected s sid, json done 200)
        else (s, not_member)
  ]

  abbrev pub command_of : String → String → CommandVerb → Body → Command
  command_of sid p verb body = record {
    id = command_id;
    session_id = sid;
    actor_id = p;
    verb = verb;
    args = or_default body.args (record {
      text = none;
      streaming_behavior = none;
      model = none;
      title = none;
      session_id = none;
    });
    ts = now;
    streaming_behavior = body.streaming_behavior;
  }

  abbrev pub post_to : Command → S × Result String R → S × Response
  post_to command (s, failed e) = (s, fail e 400)
  post_to command (s, ok r) =
      ((sessions.post s r command).0, json (result_answer (sessions.post s r command).1) 200)

  abbrev pub send : S → String → String → Option Body → S × Response
  send s sid p none = (s, fail "invalid json" 400)
  send s sid p (some body) = elim body.verb [
    | none ↦ (s, fail "missing verb" 400)
    | some verb ↦ post_to (command_of sid p verb body) (sessions.get s sid)
  ]

  -- A session that is known is for the members of its workspace.
  abbrev pub is_barred : Option SessionRef → String → Bool
  is_barred none p = false
  is_barred (some ref) p = if is_member ref.workspace_id p then false else true

  -- POST /api/sessions/<id>/commands
  unfoldable pub commands : S → String → Option Body → String → S × Response
  commands s sid body p =
      if is_barred (sessions.get_ref s sid) p then (s, not_member) else send s sid p body

  abbrev created : S × Result String SessionRef → S × Response
  created (s, failed e) = (s, thrown e)
  created (s, ok ref) = (s, json (ref_answer ref) 200)

  abbrev pub create_as : S → String → String → Option String → Option Role → S × Response
  create_as s w p title none = (s, not_member)
  create_as s w p title (some viewer) = (s, fail "viewers cannot create sessions" 403)
  create_as s w p title (some role) = created (sessions.create_conversation s w p title)

  -- POST /api/sessions
  unfoldable pub create : S → Option Body → String → S × Response
  create s none p = (s, thrown "invalid json")
  create s (some body) p = elim (truthy body.workspace_id) [
    | none ↦ (s, fail "missing workspaceId" 400)
    | some w ↦ create_as s w p body.title (role_for w p)
  ]

  abbrev listed : Result String (List SessionRef) → Response
  listed (failed e) = thrown e
  listed (ok refs) = json (sessions_answer refs) 200

  -- GET /api/sessions
  unfoldable pub list_sessions : S → Option String → String → S × Response
  list_sessions s workspace p =
      with_workspace s workspace (λ w. is_member w p) (λ w. (s, listed (sessions.list s w p)))

  abbrev skills_of : S → String → Option (Skills S) → Answer
  skills_of s w none = skills_answer [] []
  skills_of s w (some service) =
      skills_answer (service.list_skills s w) (sessions.stale_sessions s w)

  -- GET /api/skills
  unfoldable pub list_skills : S → Option String → String → S × Response
  list_skills s workspace p =
      with_workspace s workspace (λ w. is_member w p) (λ w. (s, json (skills_of s w skills) 200))

  abbrev prompt_of : S → String → Option (Skills S) → S × Response
  prompt_of s w none = (s, json (prompt_answer "") 200)
  prompt_of s w (some service) =
      ((service.preview_prompt s w).0, json (prompt_answer (service.preview_prompt s w).1) 200)

  -- GET /api/skills/prompt
  unfoldable pub skills_prompt : S → Option String → String → S × Response
  skills_prompt s workspace p =
      with_workspace s workspace (λ w. is_member w p) (λ w. prompt_of s w skills)

  abbrev owned : S × Bool → S × Response
  owned (s, true) = (s, json done 200)
  owned (s, false) = (s, fail "not a workspace-owned skill" 404)

  abbrev set_hidden_of : S → String → String → Bool → Option (Skills S) → S × Response
  set_hidden_of s w name hidden none = owned (s, false)
  set_hidden_of s w name hidden (some service) = owned (service.set_hidden s w name hidden)

  -- POST /api/skills/<name>/visibility; a body that is not JSON counts as an empty one.
  unfoldable pub visibility : S → String → Option Body → String → S × Response
  visibility s name body p =
      with_workspace s (body_workspace body) (λ w. is_member w p)
        (λ w. set_hidden_of s w name (body_hidden body) skills)

  abbrev modelled : S × Result String (List String) → S × Response
  modelled (s, failed e) = (s, thrown e)
  modelled (s, ok models) = (s, json (models_answer models) 200)

  -- GET /api/models
  unfoldable pub list_models : S → Option String → String → S × Response
  list_models s workspace p =
      with_workspace s workspace (λ w. is_member w p) (λ w. modelled (sessions.list_models s w))

  abbrev shown : S × Result String (List CommittedEntry) → S × Response
  shown (s, failed e) = (s, fail e 404)
  shown (s, ok es) = (s, json (messages_answer (shown_history es)) 200)

  -- GET /api/sessions/<id>/history
  unfoldable pub history : S → String → String → S × Response
  history s sid p =
      if is_barred (sessions.get_ref s sid) p
      then (s, not_member)
      else shown (sessions.get_entries s sid)

  -- The sign-in of `/api/sessions` comes before its methods are told apart.
  unfoldable pub serve : S → Request → Route → S × Response
  unfolding projection commands create list_sessions list_skills skills_prompt visibility
      list_models history
  serve s req auth_route = (handle_auth s req, of_auth)
  serve s req (projection_route sid) = signed_in s req (projection s sid)
  serve s req (commands_route sid) = signed_in s req (commands s sid req.body)
  serve s req create_route = signed_in s req (create s req.body)
  serve s req list_route = signed_in s req (list_sessions s req.workspace_param)
  serve s req other_sessions_route = signed_in s req (λ p. (s, not_found))
  serve s req skills_route = signed_in s req (list_skills s req.workspace_param)
  serve s req prompt_route = signed_in s req (skills_prompt s req.workspace_param)
  serve s req (visibility_route name) = signed_in s req (visibility s name req.body)
  serve s req models_route = signed_in s req (list_models s req.workspace_param)
  serve s req (history_route sid) = signed_in s req (history s sid)
  serve s req no_route = (s, not_found)

  unfoldable pub fetch : S → Request → S × Response
  unfolding route_of serve
  fetch s req = serve s req (route_of req.path req.method)
