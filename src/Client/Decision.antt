-- ===== src/Client/Decision.antt =====
-- The client of packages/web/src/lib/client.svelte.ts at the gateway of packages/server/src/gateway.ts:
-- what it shows of a command.
use akko.Prelude.{
  ℕ, ◌≡◌, refl, String, Bool, true, false, not, ◌&&◌, Option, none, some, is_some, arith,
  if◌then◌else◌, Result, ok, failed,
}
use akko.Domain.{Role, Command, CommandVerb}
use akko.Mailbox.{MailboxResult}
use akko.Gateway.{
  Body, Request, Answer, error_answer, result_answer, Response, json, of_auth, thrown, Sessions,
  Skills, fail, not_member,
}
use akko.Gateway.Routes.{commands, send, is_barred, command_of, post_to}
use akko.Client.{Client, Reply, answered, CommandBody, error_of, finish_command}

-- The fields of an answer that the client reads.
abbrev pub body_of : Answer → CommandBody
body_of (error_answer e) = record { error = some e; result = none }
body_of (result_answer r) = record {
  error = none;
  result = some (record { accepted = r.accepted; reason = r.reason });
}
body_of answer = record { error = none; result = none }

-- A response of the gateway as it reaches the client: an exception that leaves the handler becomes
-- an answer of status 500 that is not JSON.
abbrev pub reply_of : Response → Reply CommandBody
reply_of (json answer status) = answered status (some (body_of answer))
reply_of of_auth = answered 200 none
reply_of (thrown e) = answered 500 none

module _ {S R : Type 0} (sessions : Sessions S R) (skills : Option (Skills S))
    (handle_auth : S → Request → S) (principal_of : String → Option String)
    (role_for : String → String → Option Role) (command_id : String) (now : ℕ) where
  -- Whether the command gets to a mailbox that accepts it.
  abbrev accepted_by : Command → S × Result String R → Bool
  accepted_by command (s, failed e) = false
  accepted_by command (s, ok r) = (sessions.post s r command).1.accepted

  abbrev gateway_command : String → String → CommandVerb → Body → Command
  gateway_command = command_of sessions skills handle_auth principal_of role_for command_id now

  abbrev pub is_accepted : S → String → Option Body → String → Bool
  is_accepted s sid none p = false
  is_accepted s sid (some body) p = elim body.verb [
    | none ↦ false
    | some verb ↦ accepted_by (gateway_command sid p verb body) (sessions.get s sid)
  ]

  abbrev gateway_commands : S → String → Option Body → String → S × Response
  gateway_commands = commands sessions skills handle_auth principal_of role_for command_id now

  abbrev gateway_send : S → String → String → Option Body → S × Response
  gateway_send = send sessions skills handle_auth principal_of role_for command_id now

  abbrev barred : S → String → String → Bool
  barred s sid p =
      is_barred sessions skills handle_auth principal_of role_for command_id now
        (sessions.get_ref s sid) p

  shown-post :
      (command : Command) (x : S × Result String R)
      → is_some (
          error_of (
            reply_of
              (post_to sessions skills handle_auth principal_of role_for command_id now command
                x).1))
        ≡ not (accepted_by command x)
  unfolding error_of
  shown-post command (s, failed e) = refl
  shown-post command (s, ok r) = go (sessions.post s r command).1
    where
      go :
          (result : MailboxResult)
          → is_some (error_of (reply_of (json (result_answer result) 200))) ≡ not result.accepted
      go result = ground arith

  shown-send :
      (s : S) (sid p : String) (body : Option Body)
      → is_some (error_of (reply_of (gateway_send s sid p body).1)) ≡ not (is_accepted s sid body p)
  unfolding error_of
  shown-send s sid p none = refl
  shown-send s sid p (some body) = go body.verb
    where
      go :
          (v : Option CommandVerb)
          → is_some (
              error_of (
                reply_of
                  (elim v as (λ _. S × Response) [
                    | none ↦ (s, fail "missing verb" 400)
                    | some verb ↦
                        post_to sessions skills handle_auth principal_of role_for command_id now
                          (gateway_command sid p verb body)
                          (sessions.get s sid)
                  ]).1))
            ≡ not (elim v [
              | none ↦ false
              | some verb ↦ accepted_by (gateway_command sid p verb body) (sessions.get s sid)
            ])
      go none = refl
      go (some verb) = shown-post (gateway_command sid p verb body) (sessions.get s sid)

  module _ {Price : Type 0} where
    -- A command that is sent through the gateway leaves the client without an error exactly when its
    -- sender is not barred from the session and the session's mailbox accepted it; whatever else can
    -- go wrong with it sets one.
    pub client_shows_decision :
        (c : Client Price) (s : S) (sid : String) (body : Option Body) (p : String)
        → is_some (finish_command c (reply_of (gateway_commands s sid body p).1)).error
          ≡ not (not (barred s sid p) && is_accepted s sid body p)
    unfolding finish_command error_of commands
    client_shows_decision c s sid body p = go (barred s sid p)
      where
        go :
            (b : Bool)
            → is_some
                (error_of (reply_of (if b then (s, not_member) else gateway_send s sid p body).1))
              ≡ not (not b && is_accepted s sid body p)
        go true = refl
        go false = shown-send s sid p body
