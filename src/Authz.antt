-- ===== src/Authz.antt =====
-- packages/core/src/authz.ts: actions, decisions and the two policies.
pub mod Laws
mod Tests
use akko.Prelude.{String, Bool, true, false, Option, none, some}
use akko.Domain.{Principal, Role, owner, editor, viewer, SessionRef, CommandVerb}

pub data Resource : Type 0 where
  workspace : String → Resource
  session : SessionRef → Resource
  membership : String → Resource

pub data Action : Type 0 where
  command : CommandVerb → Action
  session_read session_create manage_members configure : Action

pub record Decision : Type 0 where
  pub allow : Bool
  pub reason : Option String

abbrev pub allowed : Decision
allowed = record { allow = true; reason = none }

abbrev pub deny : String → Decision
deny reason = record { allow = false; reason = some reason }

pub record AuthorizationContext : Type 0 where
  pub principal : Principal
  pub role : Option Role
  pub current_driver : Option String

abbrev pub AuthorizationPolicy : Type 0
AuthorizationPolicy = AuthorizationContext → Action → Resource → Decision

unfoldable pub allow_all : AuthorizationPolicy
allow_all ctx action resource = allowed

-- The `switch` of `RoleBasedPolicy.authorize`, once the role is known.
decide_role : Role → Action → Decision
decide_role role session_read = allowed
decide_role viewer (command verb) = deny "viewers cannot modify a session"
decide_role role (command verb) = allowed
decide_role viewer session_create = deny "viewers cannot create sessions"
decide_role role session_create = allowed
decide_role owner manage_members = allowed
decide_role role manage_members = deny "only the workspace owner may do this"
decide_role owner configure = allowed
decide_role role configure = deny "only the workspace owner may do this"

role_decision : Option Role → Action → Decision
unfolding decide_role
role_decision none action = deny "not a member of this workspace"
role_decision (some role) action = decide_role role action

unfoldable pub role_based : AuthorizationPolicy
unfolding role_decision
role_based ctx action resource = role_decision ctx.role action
