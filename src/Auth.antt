-- ===== src/Auth.antt =====
-- packages/server/src/auth.ts, the functions that are given to Better Auth, and the grant that
-- packages/server/src/main.ts makes for a new user. Better Auth's adapter of users and sessions is an
-- interface, `to_lower` is the `toLowerCase` of a text, and a context that is no JSON is none.
pub mod Registered
mod Tests
use akko.Prelude.{
  ◌≡◌, String, Bool, true, false, ◌||◌, Option, none, some, or_default, List, [], ◌∷◌, ◌==◌,
  if◌then◌else◌, is_some, Result, ok, failed,
}
use akko.Prelude.Text.{trim}
use akko.Domain.{Membership, owner, editor, viewer}
use akko.Members.{sql_grant, sql_list_for_principal}

pub record AuthUser : Type 0 where
  pub id : String
  pub name : String
  pub email : String

-- `ctx.context.internalAdapter`, over the state `S` of its tables. A user that has been created is
-- found by its email.
pub record Adapter (S : Type 0) : Type 0 where
  pub find_user_by_email : S → String → Option AuthUser
  pub create_user : S → String → String → S × AuthUser
  pub create_session : S → String → S × Option String
  pub find_user_by_id : S → String → Option AuthUser
  pub found_after_create :
      (s : S) (email name : String)
      → find_user_by_email (create_user s email name).0 email ≡ some (create_user s email name).1

-- The tables of Better Auth and those of the memberships.
pub record Tables (S : Type 0) : Type 0 where
  pub users : S
  pub members : List Membership

pub record Context : Type 0 where
  pub name : Option String
  pub email : Option String

-- What the ceremony goes on with.
pub record Registrant : Type 0 where
  pub id : String
  pub name : String
  pub display_name : String

pub record AuthenticatedPrincipal : Type 0 where
  pub principal_id : String
  pub display_name : String
  pub email : String

-- `onUserCreated`
unfoldable pub on_user_created : String → List Membership → AuthUser → List Membership
unfolding sql_grant
on_user_created workspace members user =
    sql_grant members (record { workspace_id = workspace; principal_id = user.id; role = owner })

abbrev pub registrant : AuthUser → Registrant
registrant user = record { id = user.id; name = user.name; display_name = user.name }

-- `context ? JSON.parse(context) : {}`, where none is no context and some none is no JSON.
abbrev fields_of : Option (Option Context) → Option Context
fields_of none = some (record { name = none; email = none })
fields_of (some parsed) = parsed

module _ {S : Type 0} (adapter : Adapter S) (to_lower : String → String) (workspace : String) where
  -- The hook runs after the row of the user is there.
  abbrev pub create : Tables S → String → String → Tables S × Result String Registrant
  create s email name =
      let made = adapter.create_user s.users email name in
      (
        record s { users = made.0; members = on_user_created workspace s.members made.1 },
        ok (registrant made.1),
      )

  abbrev pub find_or_create :
      Tables S → String → String → Option AuthUser → Tables S × Result String Registrant
  find_or_create s email name (some user) = (s, ok (registrant user))
  find_or_create s email name none = create s email name

  abbrev pub email_of : Context → String
  email_of context = to_lower (trim (or_default context.email ""))

  abbrev pub name_of : Context → String
  name_of context = trim (or_default context.name "")

  abbrev resolve_fields : Tables S → Option Context → Tables S × Result String Registrant
  resolve_fields s none = (s, failed "invalid registration context")
  resolve_fields s (some context) =
      if (email_of context == "") || (name_of context == "")
      then (s, failed "name and email are required")
      else find_or_create s (email_of context) (name_of context)
          (adapter.find_user_by_email s.users (email_of context))

  unfoldable pub resolve_user :
      Tables S → Option (Option Context) → Tables S × Result String Registrant
  unfolding on_user_created trim
  resolve_user s context = resolve_fields s (fields_of context)

  abbrev cookie_for : S → Option String → Option AuthUser → S × Option (String × AuthUser)
  cookie_for s none user = (s, none)
  cookie_for s (some session) none = (s, none)
  cookie_for s (some session) (some user) = (s, some (session, user))

  abbrev new_session : S × Option String → String → S × Option (String × AuthUser)
  new_session (s, session) id = cookie_for s session (adapter.find_user_by_id s id)

  -- The cookie that is set, if the registrant has no session: a session for the user of that id.
  unfoldable pub after_verification : S → Bool → String → S × Option (String × AuthUser)
  after_verification s has_session id =
      let made = new_session (adapter.create_session s id) id in
      if has_session then (s, none) else made

-- The claim of the read model's token: the first membership's workspace.
abbrev pub claim_of : List Membership → String
claim_of [] = ""
claim_of (m ∷ ms) = m.workspace_id

unfoldable pub define_payload : List Membership → String → String
unfolding sql_list_for_principal
define_payload members user_id = claim_of (sql_list_for_principal members user_id)

-- `getPrincipal`, of the session that the cookie stands for.
unfoldable pub get_principal : Option AuthUser → Option AuthenticatedPrincipal
get_principal none = none
get_principal (some user) =
    some (record { principal_id = user.id; display_name = user.name; email = user.email })
