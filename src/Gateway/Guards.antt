-- ===== src/Gateway/Guards.antt =====
-- Who gets past the guards of packages/server/src/gateway.ts.
use akko.Prelude.{
  ℕ, ◌≡◌, refl, sym, ap, ◌∙◌, String, Bool, true, false, Option, none, some, truthy, is_some,
  Option-cases, inl, inr, ◌⊎◌,
}
use akko.Domain.{Command, SessionRef, Role, owner, editor, viewer}
use akko.Gateway.{
  Body, Request, error_answer, Response, json, of_auth, thrown, Sessions, Skills, Route, auth_route,
  create_route, list_route, other_sessions_route, skills_route, prompt_route, models_route,
  no_route, projection_route, commands_route, history_route, visibility_route, route_of,
  unauthenticated, with_workspace, body_workspace, not_found,
}
use akko.Gateway.Routes.{
  command_of, signed_in, projection, post_to, send, is_barred, commands, create_as, create,
  list_sessions, list_skills, skills_prompt, visibility, list_models, history, serve, fetch,
}

-- An answer that says nothing but why there is none.
abbrev pub is_refusal : Response → Bool
is_refusal (json (error_answer reason) status) = true
is_refusal (thrown reason) = true
is_refusal response = false

-- The state is the one before, and nothing is told.
abbrev pub Refused : {S : Type 0} → S → S × Response → Type 0
Refused s x = (x.0 ≡ s) × (is_refusal x.1 ≡ true)

abbrev pub is_auth : Route → Bool
is_auth auth_route = true
is_auth route = false

abbrev pub may_create : Option Role → Bool
may_create none = false
may_create (some viewer) = false
may_create (some role) = true

abbrev pub in_workspace : Option String → (String → Bool) → Bool
in_workspace workspace member = elim (truthy workspace) [ none ↦ false | some w ↦ member w ]

abbrev pub in_session : Option SessionRef → (String → Bool) → Bool
in_session none member = false
in_session (some ref) member = member ref.workspace_id

with_workspace-Refused :
    {S : Type 0} (s : S) (workspace : Option String) (member : String → Bool)
    (route : String → S × Response)
    → in_workspace workspace member ≡ false
    → Refused s (with_workspace s workspace member route)
with_workspace-Refused s workspace member route h = elim (Option-cases (truthy workspace)) [
  | inl n ↦ rw (n, with_workspace) (refl, refl)
  | inr w ↦ rw (w.1, with_workspace) (rw (not_in w.0 w.1) (refl, refl))
]
  where
    not_in : (w : String) → truthy workspace ≡ some w → member w ≡ false
    not_in w e = (let g = h in cc)

module _ {S R : Type 0} (sessions : Sessions S R) (skills : Option (Skills S))
    (handle_auth : S → Request → S) (principal_of : String → Option String)
    (role_for : String → String → Option Role) (command_id : String) (now : ℕ) where
  abbrev pub answer : S → Request → S × Response
  answer s req = fetch sessions skills handle_auth principal_of role_for command_id now s req

  -- The state is the one before, unless the request is the sign-in's own.
  abbrev pub Turned : S → Request → Route → S × Response → Type 0
  Turned s req r x =
      (x ≡ (s, unauthenticated))
      ⊎ (x ≡ (s, not_found))
      ⊎ ((r ≡ auth_route) × (x ≡ (handle_auth s req, of_auth)))

  stranger :
      (s : S) (req : Request) (route : String → S × Response)
      → principal_of req.cookie ≡ none
      → signed_in sessions skills handle_auth principal_of role_for command_id now s req route
        ≡ (s, unauthenticated)
  stranger s req route h = rw (h, signed_in) refl

  served-stranger :
      (s : S) (req : Request) (r : Route)
      → principal_of req.cookie ≡ none
      → Turned s req r
          (serve sessions skills handle_auth principal_of role_for command_id now s req r)
  unfolding serve
  served-stranger s req auth_route h = inr (inr (refl, refl))
  served-stranger s req no_route h = inr (inl refl)
  served-stranger s req create_route h = inl (stranger s req _ h)
  served-stranger s req list_route h = inl (stranger s req _ h)
  served-stranger s req other_sessions_route h = inl (stranger s req _ h)
  served-stranger s req skills_route h = inl (stranger s req _ h)
  served-stranger s req prompt_route h = inl (stranger s req _ h)
  served-stranger s req models_route h = inl (stranger s req _ h)
  served-stranger s req (projection_route sid) h = inl (stranger s req _ h)
  served-stranger s req (commands_route sid) h = inl (stranger s req _ h)
  served-stranger s req (history_route sid) h = inl (stranger s req _ h)
  served-stranger s req (visibility_route name) h = inl (stranger s req _ h)

  -- A request that carries no sign-in, outside the paths of the sign-in itself, changes nothing and is
  -- told nothing: the answer is that it is not authenticated, or that there is no such route. Under
  -- the paths of the sign-in, what is done is what the sign-in's handler does, and the answer is its.
  pub strangers_are_turned_away :
      (s : S) (req : Request)
      → principal_of req.cookie ≡ none
      → (answer s req ≡ (s, unauthenticated))
        ⊎ (answer s req ≡ (s, not_found))
        ⊎ ((route_of req.path req.method ≡ auth_route)
            × (answer s req ≡ (handle_auth s req, of_auth)))
  unfolding fetch
  strangers_are_turned_away s req h = served-stranger s req (route_of req.path req.method) h

  -- Whether a route is open to a principal: a session's to the members of its workspace, a
  -- workspace's to its members, the making of a session to its owners and editors.
  abbrev pub may_pass : S → Request → String → Route → Bool
  may_pass s req p auth_route = false
  may_pass s req p no_route = false
  may_pass s req p other_sessions_route = false
  may_pass s req p create_route =
      in_workspace (body_workspace req.body) (λ w. may_create (role_for w p))
  may_pass s req p list_route = in_workspace req.workspace_param (λ w. is_some (role_for w p))
  may_pass s req p skills_route = in_workspace req.workspace_param (λ w. is_some (role_for w p))
  may_pass s req p prompt_route = in_workspace req.workspace_param (λ w. is_some (role_for w p))
  may_pass s req p models_route = in_workspace req.workspace_param (λ w. is_some (role_for w p))
  may_pass s req p (visibility_route name) =
      in_workspace (body_workspace req.body) (λ w. is_some (role_for w p))
  may_pass s req p (projection_route sid) =
      in_session (sessions.get_ref s sid) (λ w. is_some (role_for w p))
  may_pass s req p (commands_route sid) =
      in_session (sessions.get_ref s sid) (λ w. is_some (role_for w p))
  may_pass s req p (history_route sid) =
      in_session (sessions.get_ref s sid) (λ w. is_some (role_for w p))

  projection-Refused :
      (s : S) (sid p : String)
      → in_session (sessions.get_ref s sid) (λ w. is_some (role_for w p)) ≡ false
      → Refused s
          (projection sessions skills handle_auth principal_of role_for command_id now s sid p)
  unfolding projection
  projection-Refused s sid p h = elim (Option-cases (sessions.get_ref s sid)) [
    | inl n ↦ rw (n, projection) (refl, refl)
    | inr ref ↦
        let out = ap (λ o. in_session o (λ w. is_some (role_for w p))) (sym ref.1) ∙ h in
        rw (ref.1, projection) (rw out (refl, refl))
  ]

  get-Refused :
      (s : S) (sid : String) (c : Command)
      → sessions.is_valid s
      → sessions.get_ref s sid ≡ none
      → Refused s (
          post_to sessions skills handle_auth principal_of role_for command_id now c
            (sessions.get s sid))
  get-Refused s sid c v n = let e = sessions.get_unknown s sid v n in rw e.1 (refl, refl)

  send-Refused :
      (s : S) (sid p : String) (body : Option Body)
      → sessions.is_valid s
      → sessions.get_ref s sid ≡ none
      → Refused s
          (send sessions skills handle_auth principal_of role_for command_id now s sid p body)
  send-Refused s sid p none v n = (refl, refl)
  send-Refused s sid p (some body) v n = elim (Option-cases body.verb) [
    | inl e ↦ rw (e, send) (refl, refl)
    | inr e ↦
        rw (e.1, send)
          (get-Refused s sid
            (command_of sessions skills handle_auth principal_of role_for command_id now sid p e.0
              body)
            v n)
  ]

  commands-Refused :
      (s : S) (sid p : String) (body : Option Body)
      → sessions.is_valid s
      → in_session (sessions.get_ref s sid) (λ w. is_some (role_for w p)) ≡ false
      → Refused s
          (commands sessions skills handle_auth principal_of role_for command_id now s sid body p)
  unfolding commands
  commands-Refused s sid p body v h = elim (Option-cases (sessions.get_ref s sid)) [
    | inl n ↦ rw (n, commands, is_barred) (send-Refused s sid p body v n)
    | inr ref ↦
        let out = ap (λ o. in_session o (λ w. is_some (role_for w p))) (sym ref.1) ∙ h in
        rw (ref.1, commands, is_barred) (rw out (refl, refl))
  ]

  history-Refused :
      (s : S) (sid p : String)
      → in_session (sessions.get_ref s sid) (λ w. is_some (role_for w p)) ≡ false
      → Refused s (history sessions skills handle_auth principal_of role_for command_id now s sid p)
  unfolding history
  history-Refused s sid p h = elim (Option-cases (sessions.get_ref s sid)) [
    | inl n ↦
        let e = sessions.entries_unknown s sid n in rw (n, history, is_barred) (rw e.1 (refl, refl))
    | inr ref ↦
        let out = ap (λ o. in_session o (λ w. is_some (role_for w p))) (sym ref.1) ∙ h in
        rw (ref.1, history, is_barred) (rw out (refl, refl))
  ]

  create_as-Refused :
      (s : S) (w p : String) (title : Option String) (role : Option Role)
      → may_create role ≡ false
      → Refused s (
          create_as sessions skills handle_auth principal_of role_for command_id now s w p title
            role)
  create_as-Refused s w p title none h = (refl, refl)
  create_as-Refused s w p title (some viewer) h = (refl, refl)
  create_as-Refused s w p title (some owner) h = cc
  create_as-Refused s w p title (some editor) h = cc

  create-Refused :
      (s : S) (p : String) (body : Option Body)
      → in_workspace (body_workspace body) (λ w. may_create (role_for w p)) ≡ false
      → Refused s (create sessions skills handle_auth principal_of role_for command_id now s body p)
  unfolding create
  create-Refused s p none h = (refl, refl)
  create-Refused s p (some body) h = elim (Option-cases (truthy body.workspace_id)) [
    | inl n ↦ rw (n, create) (refl, refl)
    | inr w ↦
        let out =
          ap (λ o. elim o as (λ x. Bool) [ none ↦ false | some v ↦ may_create (role_for v p) ])
            (sym w.1)
          ∙ h in
        rw (w.1, create) (create_as-Refused s w.0 p body.title (role_for w.0 p) out)
  ]

  let_in :
      (s : S) (req : Request) (p : String) (route : String → S × Response)
      → principal_of req.cookie ≡ some p
      → Refused s (route p)
      → Refused s
          (signed_in sessions skills handle_auth principal_of role_for command_id now s req route)
  let_in s req p route h v = rw (h, signed_in) v

  serve-Refused :
      (s : S) (req : Request) (p : String) (r : Route)
      → sessions.is_valid s
      → principal_of req.cookie ≡ some p
      → may_pass s req p r ≡ false
      → is_auth r ≡ false
      → Refused s (serve sessions skills handle_auth principal_of role_for command_id now s req r)
  unfolding serve list_sessions list_skills skills_prompt visibility list_models
  serve-Refused s req p auth_route v h m a = cc
  serve-Refused s req p no_route v h m a = (refl, refl)
  serve-Refused s req p other_sessions_route v h m a = let_in s req p _ h (refl, refl)
  serve-Refused s req p create_route v h m a =
      let_in s req p
        (create sessions skills handle_auth principal_of role_for command_id now s req.body) h
        (create-Refused s p req.body m)
  serve-Refused s req p (projection_route sid) v h m a =
      let_in s req p
        (projection sessions skills handle_auth principal_of role_for command_id now s sid) h
        (projection-Refused s sid p m)
  serve-Refused s req p (commands_route sid) v h m a =
      let_in s req p
        (commands sessions skills handle_auth principal_of role_for command_id now s sid req.body) h
        (commands-Refused s sid p req.body v m)
  serve-Refused s req p (history_route sid) v h m a =
      let_in s req p
        (history sessions skills handle_auth principal_of role_for command_id now s sid) h
        (history-Refused s sid p m)
  serve-Refused s req p list_route v h m a =
      let_in s req p _ h (with_workspace-Refused s req.workspace_param _ _ m)
  serve-Refused s req p skills_route v h m a =
      let_in s req p _ h (with_workspace-Refused s req.workspace_param _ _ m)
  serve-Refused s req p prompt_route v h m a =
      let_in s req p _ h (with_workspace-Refused s req.workspace_param _ _ m)
  serve-Refused s req p models_route v h m a =
      let_in s req p _ h (with_workspace-Refused s req.workspace_param _ _ m)
  serve-Refused s req p (visibility_route name) v h m a =
      let_in s req p _ h (with_workspace-Refused s (body_workspace req.body) _ _ m)

  -- A principal whom a route is not open to, a session's route to one who is no member of its
  -- workspace, a workspace's to one who is none, the making of a session to one who is none or a
  -- viewer, changes nothing and is told nothing but a reason, in every valid state of the registry.
  -- The routes of the sign-in are left out.
  pub outsiders_change_nothing :
      (s : S) (req : Request) (p : String)
      → sessions.is_valid s
      → principal_of req.cookie ≡ some p
      → may_pass s req p (route_of req.path req.method) ≡ false
      → is_auth (route_of req.path req.method) ≡ false
      → ((answer s req).0 ≡ s) × (is_refusal (answer s req).1 ≡ true)
  unfolding fetch
  outsiders_change_nothing s req p v h m a =
      serve-Refused s req p (route_of req.path req.method) v h m a
