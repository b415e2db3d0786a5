-- ===== src/Client.antt =====
-- packages/web/src/lib/client.svelte.ts: the browser's client, which posts commands and loads lists.
-- A method that waits is in two halves: what it sends, and what it makes of the reply. Its requests
-- are listed in the state. What JSON gives for a missing field is none; `sessions` is none once an
-- answer without the field has been stored in it, and a session of the list is none in the same way.
pub mod Decision
mod Tests
use Prim.Native.String
use akko.Prelude.{
  ℕ, ◌+◌, suc, String, Bool, true, false, ◌&&◌, ◌||◌, not, Option, none, some, or_default, List, [],
  ◌∷◌, ◌++◌, map, length, leb, ltb, nat_eq, ◌==◌, if◌then◌else◌, truthy, Result, ok, failed,
}
use akko.Prelude.Text.{trim}
use akko.Domain.{SessionRef}
use akko.Router.{CatalogEntry}
use akko.Skills.{SkillInfo, SkillImpact}

-- What comes of `fetch`: it throws, or there is a status and a body, none if that is not JSON.
pub data Reply (A : Type 0) : Type 0 where
  fetch_throws : String → Reply A
  answered : ℕ → Option A → Reply A

-- `res.ok`
abbrev pub is_ok : ℕ → Bool
is_ok status = leb 200 status && leb status 299

pub record CommandResult : Type 0 where
  pub accepted : Bool
  pub reason : Option String

pub record CommandBody : Type 0 where
  pub error : Option String
  pub result : Option CommandResult

pub record SkillsBody : Type 0 where
  pub skills : Option (List SkillInfo)
  pub impact : Option SkillImpact
  pub stale_sessions : Option (List String)

-- A title, or `Session n`.
pub data Title : Type 0 where
  titled : String → Title
  numbered : ℕ → Title

pub data ClientCommand : Type 0 where
  set_model_to rename_to prompt_with : String → ClientCommand

pub data ClientRequest : Type 0 where
  get_sessions get_models get_skills get_prompt post_projection : String → ClientRequest
  post_session : String → Title → Option String → ClientRequest
  post_command : String → ClientCommand → ClientRequest
  -- the skill, the workspace, and whether it is to be hidden
  post_visibility : String → String → Bool → ClientRequest

-- What the client says of an error.
pub data Notice : Type 0 where
  text : String → Notice
  -- the message of what reading the answer throws
  exception : Notice
  command_failed : ℕ → Notice
  from_disk could_not_update : String → Notice

pub record Client (Price : Type 0) : Type 0 where
  pub workspace_id : String
  pub error : Option Notice
  pub sessions : Option (List (Option SessionRef))
  pub models : List (CatalogEntry Price)
  pub active_session_id : Option String
  pub skills : List SkillInfo
  pub skill_impact : Option SkillImpact
  pub stale_sessions : List String
  pub sent : List ClientRequest

-- Of a method that may throw, or whose promise may be rejected: the client, and whether it was.
abbrev pub Outcome : Type 0 → Type 0
Outcome Price = Client Price × Bool

-- The session of an id, none where reading the list throws.
abbrev find_session : String → List (Option SessionRef) → Option (Option SessionRef)
find_session id [] = some none
find_session id (none ∷ sessions) = none
find_session id (some s ∷ sessions) = if s.id == id then some (some s) else find_session id sessions

-- A list of sessions in which one has been changed, none where reading the list throws.
abbrev pub change_session :
    String
    → (SessionRef → SessionRef)
    → List (Option SessionRef)
    → Option (List (Option SessionRef))
change_session id change [] = some []
change_session id change (none ∷ sessions) = none
change_session id change (some s ∷ sessions) = elim (change_session id change sessions) [
  | none ↦ none
  | some rest ↦ some ((if s.id == id then some (change s) else some s) ∷ rest)
]

abbrev title_in : Option (List (Option SessionRef)) → Option String → Option Title
title_in sessions (some title) = some (titled title)
title_in none none = none
title_in (some sessions) none = some (numbered (length sessions + 1))

abbrev to_null : CommandResult → Option Notice
to_null r = if r.accepted then none else some (text (or_default r.reason "command rejected"))

-- What `command` reads of a body that is there, in an answer that is not an error.
abbrev read_result : Option CommandResult → Option Notice
read_result none = some exception
read_result (some r) = to_null r

abbrev told : Option String → ℕ → Notice
told none status = command_failed status
told (some error) status = text error

abbrev error_in : Option CommandBody → Option String
error_in none = none
error_in (some body) = body.error

-- The error that a reply to a command leaves; a body that is not JSON throws only in an answer that
-- is no error, and what it throws is shown.
unfoldable pub error_of : Reply CommandBody → Option Notice
error_of (fetch_throws e) = some (text e)
error_of (answered status body) =
    if is_ok status
    then (elim body [ none ↦ some exception | some b ↦ read_result b.result ])
    else some (told (error_in body) status)

module _ {Price : Type 0} where
  abbrev pub send : Client Price → ClientRequest → Client Price
  send c request = record c { sent = c.sent ++ request ∷ [] }

  unfoldable pub active_session : Client Price → Option (Option SessionRef)
  unfolding truthy
  active_session c = elim (truthy c.active_session_id) [
    | none ↦ some none
    | some id ↦ elim c.sessions [ none ↦ none | some sessions ↦ find_session id sessions ]
  ]

  -- `loadSessions`, whatever the status of the answer
  unfoldable pub begin_load_sessions : Client Price → Client Price
  begin_load_sessions c = send c (get_sessions c.workspace_id)

  unfoldable pub finish_load_sessions :
      Client Price → Reply (Option (List SessionRef)) → Outcome Price
  finish_load_sessions c (fetch_throws e) = (c, true)
  finish_load_sessions c (answered status none) = (c, true)
  finish_load_sessions c (answered status (some none)) = (record c { sessions = none }, false)
  finish_load_sessions c (answered status (some (some sessions))) =
      (record c { sessions = some (map some sessions) }, false)

  unfoldable pub begin_load_models : Client Price → Client Price
  begin_load_models c = send c (get_models c.workspace_id)

  -- A body that is JSON and not an error is taken to hold the list.
  unfoldable pub finish_load_models :
      Client Price → Reply (List (CatalogEntry Price)) → Outcome Price
  finish_load_models c (fetch_throws e) = (c, true)
  finish_load_models c (answered status none) = (c, is_ok status)
  finish_load_models c (answered status (some models)) =
      (if is_ok status then record c { models = models } else c, false)

  unfoldable pub select : Client Price → String → Client Price
  select c id = send (record c { active_session_id = some id }) (post_projection id)

  -- The number of a session without a title is that of the list's length.
  unfoldable pub begin_create_session : Client Price → Option String → Option String → Outcome Price
  begin_create_session c title model = elim (title_in c.sessions title) [
    | none ↦ (c, true)
    | some t ↦ (send c (post_session c.workspace_id t model), false)
  ]

  abbrev added : Client Price → Option SessionRef → List (Option SessionRef) → Outcome Price
  added c none sessions = (record c { sessions = some (none ∷ sessions) }, true)
  added c (some ref) sessions =
      (select (record c { sessions = some (some ref ∷ sessions) }) ref.id, false)

  -- The answer's `ref` is put in front, whatever the status, and then its id is read.
  unfoldable pub finish_create_session : Client Price → Reply (Option SessionRef) → Outcome Price
  unfolding select
  finish_create_session c (fetch_throws e) = (c, true)
  finish_create_session c (answered status none) = (c, true)
  finish_create_session c (answered status (some ref)) = elim c.sessions [
    | none ↦ (c, true)
    | some sessions ↦ added c ref sessions
  ]

  unfoldable pub begin_command : Client Price → String → ClientCommand → Client Price
  begin_command c session_id command = send c (post_command session_id command)

  unfoldable pub finish_command : Client Price → Reply CommandBody → Client Price
  unfolding error_of
  finish_command c reply = record c { error = error_of reply }

  abbrev echo : Client Price → String → (SessionRef → SessionRef) → Outcome Price
  echo c session_id change = elim c.sessions [
    | none ↦ (c, true)
    | some sessions ↦ elim (change_session session_id change sessions) [
      | none ↦ (c, true)
      | some changed ↦ (record c { sessions = some changed }, false)
    ]
  ]

  unfoldable pub set_model : Client Price → String → String → Outcome Price
  unfolding begin_command
  set_model c session_id model =
      echo (begin_command c session_id (set_model_to model)) session_id
        (λ s. record s { model = some model })

  unfoldable pub rename : Client Price → String → String → Outcome Price
  unfolding begin_command trim
  rename c session_id title =
      if trim title == ""
      then (c, false)
      else echo (begin_command c session_id (rename_to (trim title))) session_id
          (λ s. record s { title = some (trim title) })

  -- Without an active session, or with a blank text, nothing is sent.
  unfoldable pub send_prompt : Client Price → String → Client Price
  unfolding begin_command trim truthy
  send_prompt c prompt = elim (truthy c.active_session_id) [
    | none ↦ c
    | some sid ↦ if trim prompt == "" then c else begin_command c sid (prompt_with (trim prompt))
  ]

  unfoldable pub begin_load_skills : Client Price → Client Price
  begin_load_skills c = send c (get_skills c.workspace_id)

  unfoldable pub finish_load_skills : Client Price → Reply SkillsBody → Outcome Price
  finish_load_skills c (fetch_throws e) = (c, true)
  finish_load_skills c (answered status none) = (c, is_ok status)
  finish_load_skills c (answered status (some body)) = (
    if is_ok status
        then record c {
          skills = or_default body.skills [];
          skill_impact = body.impact;
          stale_sessions = or_default body.stale_sessions [];
        }
        else c,
    false,
  )

  unfoldable pub begin_load_system_prompt : Client Price → Client Price
  begin_load_system_prompt c = send c (get_prompt c.workspace_id)

  unfoldable pub begin_set_skill_hidden : Client Price → String → Bool → Client Price
  begin_set_skill_hidden c name hidden = send c (post_visibility name c.workspace_id hidden)

  -- Up to the reload of the skills, whose request follows a success.
  unfoldable pub finish_set_skill_hidden : Client Price → String → Reply Unit → Outcome Price
  unfolding begin_load_skills
  finish_set_skill_hidden c name (fetch_throws e) = (c, true)
  finish_set_skill_hidden c name (answered status body) =
      if is_ok status then (begin_load_skills (record c { error = none }), false) else (
        record c {
          error = some (if nat_eq status 404 then from_disk name else could_not_update name);
        },
        false,
      )

-- The prompt that is shown, none where the promise is rejected.
unfoldable pub system_prompt_of : Reply (Option String) → Option String
system_prompt_of (fetch_throws e) = none
system_prompt_of (answered status none) = if is_ok status then none else some ""
system_prompt_of (answered status (some prompt)) =
    some (if is_ok status then or_default prompt "" else "")
