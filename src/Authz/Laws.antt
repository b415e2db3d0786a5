-- ===== src/Authz/Laws.antt =====
-- What the role policy of packages/core/src/authz.ts promises.
use akko.Prelude.{ℕ, ◌≤◌, ◌≡◌, ◌≢◌, ◌↔◌, true, false, Option, none, some, arith}
use akko.Domain.{Role, owner, editor, viewer}
use akko.Authz.{
  Action, command, session_read, session_create, manage_members, configure, Resource,
  AuthorizationContext, role_decision, role_based,
}

-- The ladder of roles: a viewer reads, an editor also writes, an owner also manages.
abbrev pub rank : Role → ℕ
rank viewer = 1
rank editor = 2
rank owner = 3

abbrev pub level : Option Role → ℕ
level none = 0
level (some r) = rank r

-- The rung that an action asks for.
abbrev pub needed : Action → ℕ
needed session_read = 1
needed (command verb) = 2
needed session_create = 2
needed manage_members = 3
needed configure = 3

role_decision_allows :
    (r : Option Role) (a : Action) → ((role_decision r a).allow ≡ true) ↔ (needed a ≤ level r)
unfolding role_decision
role_decision_allows none (command v) = ground arith
role_decision_allows none session_read = ground arith
role_decision_allows none _ = ground arith
role_decision_allows (some owner) (command v) = ground arith
role_decision_allows (some owner) session_read = ground arith
role_decision_allows (some owner) _ = ground arith
role_decision_allows (some editor) (command v) = ground arith
role_decision_allows (some editor) session_read = ground arith
role_decision_allows (some editor) _ = ground arith
role_decision_allows (some viewer) (command v) = ground arith
role_decision_allows (some viewer) session_read = ground arith
role_decision_allows (some viewer) _ = ground arith

-- The role policy allows an action exactly when the actor's role, none for a stranger, is at least
-- the rung that the action asks for.
pub role_based_allows_iff :
    (ctx : AuthorizationContext) (a : Action) (res : Resource)
    → ((role_based ctx a res).allow ≡ true) ↔ (needed a ≤ level ctx.role)
unfolding role_based
role_based_allows_iff ctx a res = role_decision_allows ctx.role a

role_decision_reason :
    (r : Option Role) (a : Action)
    → ((role_decision r a).allow ≡ false) ↔ ((role_decision r a).reason ≢ none)
unfolding role_decision
role_decision_reason none a = ground arith
role_decision_reason (some owner) (command v) = ground arith
role_decision_reason (some owner) session_read = ground arith
role_decision_reason (some owner) _ = ground arith
role_decision_reason (some editor) (command v) = ground arith
role_decision_reason (some editor) session_read = ground arith
role_decision_reason (some editor) _ = ground arith
role_decision_reason (some viewer) (command v) = ground arith
role_decision_reason (some viewer) session_read = ground arith
role_decision_reason (some viewer) _ = ground arith

-- The role policy gives a reason exactly when it refuses.
pub role_based_reason_iff :
    (ctx : AuthorizationContext) (a : Action) (res : Resource)
    → ((role_based ctx a res).allow ≡ false) ↔ ((role_based ctx a res).reason ≢ none)
unfolding role_based
role_based_reason_iff ctx a res = role_decision_reason ctx.role a
