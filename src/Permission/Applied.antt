-- ===== src/Permission/Applied.antt =====
-- The commands that get through the mailbox of packages/runtime/src/mailbox.ts when it asks
-- packages/runtime/src/session-registry.ts under the role policy of packages/core/src/authz.ts.
use akko.Prelude.{◌≤◌, ◌≡◌, subst, sym, true, Option, none, List, All}
use akko.Domain.{SessionRef, Membership, user}
use akko.Authz.{Decision, role_based, command, session}
use akko.Authz.Laws.{needed, level, role_based_allows_iff}
use akko.Mailbox.{QueueItem, Outcome, returned, threw, Event, new_mailbox, run}
use akko.Mailbox.Guarded.{IsFine, IsDue, run-IsOrderly}
use akko.Permission.{role_in, authorize}

decision_of : Decision → Outcome Decision → Decision
decision_of d (returned e) = e
decision_of d (threw message) = d

module _ (ref : SessionRef) (members : QueueItem → Option (List Membership))
    (apply : QueueItem → Outcome (Unit {0})) where
  -- When its command was decided, the sender had the role that a command asks for in the session's
  -- workspace, that of an editor at least.
  abbrev pub IsPermitted : QueueItem → Type 0
  IsPermitted item =
      needed (command item.command.verb)
      ≤ level (role_in (members item) ref.workspace_id item.command.actor_id)

  abbrev pub answer : QueueItem → Outcome Decision
  answer item = returned (authorize role_based (members item) ref item.command)

  allowed-IsPermitted :
      (item : QueueItem) (d : Decision)
      → answer item ≡ returned d
      → d.allow ≡ true
      → IsPermitted item
  unfolding authorize decision_of
  allowed-IsPermitted item d e h =
      (role_based_allows_iff
          (record {
            principal = record {
              id = item.command.actor_id;
              kind = user;
              display_name = item.command.actor_id;
            };
            role = role_in (members item) ref.workspace_id item.command.actor_id;
            current_driver = none;
          })
          (command item.command.verb) (session ref)).0
        (subst (λ o. (decision_of d o).allow ≡ true) (sym e) h)

  -- Under the role policy, whatever is posted to a session's mailbox, and whenever, a command that is
  -- applied, or that its sender is told has been accepted, came from a principal who was an editor or
  -- an owner of the session's workspace when it was decided. The memberships may change in between.
  pub only_editors_apply :
      (es : List Event)
      → let m = run answer apply new_mailbox es in
        All (IsFine IsPermitted) m.calls × All (IsDue IsPermitted) m.settled
  only_editors_apply es =
      let h =
        run-IsOrderly IsPermitted answer apply allowed-IsPermitted new_mailbox es (tt, tt, tt) in
      (h.0, h.1)
