-- ===== src/Permission.antt =====
-- `#authorize` of packages/runtime/src/session-registry.ts: what the mailbox of a session asks before a
-- command is applied. The memberships are the table at that time; a registry may have none.
pub mod Applied
mod Tests
use akko.Prelude.{String, Option, none, some, List}
use akko.Domain.{SessionRef, Command, Membership, Role, user}
use akko.Authz.{Decision, AuthorizationPolicy, command, session}
use akko.Members.{sql_role_for}

-- `memberships?.roleFor(workspaceId, actorId)`
abbrev pub role_in : Option (List Membership) → String → String → Option Role
role_in none workspace actor = none
role_in (some members) workspace actor = sql_role_for members workspace actor

unfoldable pub authorize :
    AuthorizationPolicy → Option (List Membership) → SessionRef → Command → Decision
unfolding sql_role_for
authorize policy members ref c =
    policy
      (record {
        principal = record { id = c.actor_id; kind = user; display_name = c.actor_id };
        role = role_in members ref.workspace_id c.actor_id;
        current_driver = none;
      })
      (command c.verb) (session ref)
