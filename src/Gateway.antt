-- ===== src/Gateway.antt =====
-- packages/server/src/gateway.ts: the routes under /api. A request comes with its path taken apart,
-- and its body read, if it is JSON. The registry of sessions is an interface, with the laws that the
-- gateway relies on, which Gateway/OverRegistry fills; what `auth.handler` does to the state, who is
-- signed in, and the skills are parameters.
pub mod Routes
pub mod Guards
pub mod OverRegistry
pub mod Tests
use akko.Prelude.{
  ℕ, String, Bool, true, false, ◌||◌, Option, none, some, List, [], ◌∷◌, map, filter, ◌≡◌,
  if◌then◌else◌, or_default, truthy, is_some, Result, ok, failed,
}
use akko.Domain.{
  SessionRef, Role, owner, editor, viewer, Command, CommandVerb, Args, StreamingBehavior,
}
use akko.Content.{Content, MessageRole, from_user, from_assistant, from_other}
use akko.Store.{CommittedEntry}
use akko.Mailbox.{MailboxResult}

pub data Method : Type 0 where
  get_method post_method other_method : Method

-- What the paths of the routes tell apart.
pub data RequestPath : Type 0 where
  auth_path sessions_path skills_path prompt_path models_path other_path : RequestPath
  projection_path commands_path history_path visibility_path : String → RequestPath

pub record Body : Type 0 where
  pub workspace_id : Option String
  pub title : Option String
  pub verb : Option CommandVerb
  pub args : Option Args
  pub streaming_behavior : Option StreamingBehavior
  pub hidden : Bool

pub record Request : Type 0 where
  pub method : Method
  pub path : RequestPath
  pub workspace_param : Option String
  -- `none` is a body that is not JSON
  pub body : Option Body
  pub cookie : String

pub record HistoryMessage : Type 0 where
  pub id : String
  pub role : MessageRole
  pub content : Content
  pub author_id : Option String

pub data Answer : Type 0 where
  error_answer : String → Answer
  done : Answer
  result_answer : MailboxResult → Answer
  ref_answer : SessionRef → Answer
  sessions_answer : List SessionRef → Answer
  skills_answer : List String → List String → Answer
  prompt_answer : String → Answer
  models_answer : List String → Answer
  messages_answer : List HistoryMessage → Answer

pub data Response : Type 0 where
  json : Answer → ℕ → Response
  -- what `auth.handler` answers
  of_auth : Response
  -- an exception leaves the handler
  thrown : String → Response

-- `GatewaySessions`, over the state `S` of the registry and its mailboxes, with handles `R` on live
-- sessions. A call that may throw gives a text then. The laws are for the states that the registry can
-- be in.
pub record Sessions (S R : Type 0) : Type 1 where
  pub get_ref : S → String → Option SessionRef
  pub get : S → String → S × Result String R
  pub post : S → R → Command → S × MailboxResult
  pub create_conversation : S → String → String → Option String → S × Result String SessionRef
  pub list : S → String → String → Result String (List SessionRef)
  pub ensure_projected : S → String → S
  pub get_entries : S → String → S × Result String (List CommittedEntry)
  pub list_models : S → String → S × Result String (List String)
  pub stale_sessions : S → String → List String
  pub is_valid : S → Type 0
  -- a session that is not in the index is not found, and the search changes nothing
  pub get_unknown :
      (s : S) (sid : String)
      → is_valid s
      → get_ref s sid ≡ none
      → (e : String) × (get s sid ≡ (s, failed e))
  pub entries_unknown :
      (s : S) (sid : String)
      → get_ref s sid ≡ none
      → (e : String) × (get_entries s sid ≡ (s, failed e))

-- The skills service, where there is one.
pub record Skills (S : Type 0) : Type 0 where
  pub list_skills : S → String → List String
  pub set_hidden : S → String → String → Bool → S × Bool
  pub preview_prompt : S → String → S × String

-- The routes, and what is left.
pub data Route : Type 0 where
  auth_route create_route list_route other_sessions_route skills_route prompt_route models_route
        no_route :
      Route
  projection_route commands_route history_route visibility_route : String → Route

unfoldable pub route_of : RequestPath → Method → Route
route_of auth_path method = auth_route
route_of (projection_path sid) post_method = projection_route sid
route_of (commands_path sid) post_method = commands_route sid
route_of sessions_path post_method = create_route
route_of sessions_path get_method = list_route
route_of sessions_path other_method = other_sessions_route
route_of skills_path get_method = skills_route
route_of prompt_path get_method = prompt_route
route_of (visibility_path name) post_method = visibility_route name
route_of models_path get_method = models_route
route_of (history_path sid) get_method = history_route sid
route_of path method = no_route

abbrev pub fail : String → ℕ → Response
fail reason status = json (error_answer reason) status

abbrev pub unauthenticated : Response
unauthenticated = fail "unauthenticated" 401

abbrev pub not_member : Response
not_member = fail "not a member of this workspace" 403

abbrev history_message : CommittedEntry → HistoryMessage
history_message e = record {
  id = e.id;
  role = e.entry.role;
  content = e.entry.content;
  author_id = e.actor_id;
}

abbrev is_shown_role : MessageRole → Bool
is_shown_role from_other = false
is_shown_role role = true

abbrev pub shown_history : List CommittedEntry → List HistoryMessage
shown_history es = filter (λ m. is_shown_role m.role) (map history_message es)

abbrev pub not_found : Response
not_found = fail "not found" 404

-- A route whose workspace is a parameter of the query.
abbrev pub with_workspace :
    {S : Type 0} → S → Option String → (String → Bool) → (String → S × Response) → S × Response
with_workspace s workspace member route = elim (truthy workspace) [
  | none ↦ (s, fail "missing workspaceId" 400)
  | some w ↦ if member w then route w else (s, not_member)
]

abbrev pub body_workspace : Option Body → Option String
body_workspace none = none
body_workspace (some body) = body.workspace_id

abbrev pub body_hidden : Option Body → Bool
body_hidden none = false
body_hidden (some body) = body.hidden
