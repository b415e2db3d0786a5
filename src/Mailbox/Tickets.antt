-- ===== src/Mailbox/Tickets.antt =====
-- Posts draw tickets in order; nothing else of packages/runtime/src/mailbox.ts touches the counter.
use akko.Prelude.{◌+◌, ◌≡◌, refl, List, [], ◌∷◌, ◌++◌, arith, or_default}
use akko.Domain.{Command}
use akko.Authz.{Decision}
use akko.Mailbox.{
  Outcome, returned, threw, MailboxResult, accept, reject, QueueItem, Mailbox, Await, nowhere,
  on_authorize, on_apply, drain_next, post, settle, after_authorize, after_apply, resume_at, resume,
}

next_ticket-drain_next :
    (m : Mailbox) (q : List QueueItem) → (drain_next m q).next_ticket ≡ m.next_ticket
unfolding drain_next
next_ticket-drain_next m [] = refl
next_ticket-drain_next m (x ∷ q) = refl

pub next_ticket-post : (m : Mailbox) (c : Command) → (post m c).next_ticket ≡ m.next_ticket + 1
unfolding post
next_ticket-post m c = ground (
  arith,
  next_ticket-drain_next
      (record m {
        queue = m.queue ++ record { ticket = m.next_ticket; command = c } ∷ [];
        next_ticket = m.next_ticket + 1;
      })
      (m.queue ++ record { ticket = m.next_ticket; command = c } ∷ []),
)

next_ticket-settle :
    (m : Mailbox) (item : QueueItem) (r : MailboxResult)
    → (settle m item r).next_ticket ≡ m.next_ticket
unfolding settle
next_ticket-settle m item r =
    next_ticket-drain_next (record m { settled = m.settled ++ (item, r) ∷ [] }) m.queue

next_ticket-after_authorize :
    (m : Mailbox) (item : QueueItem) (o : Outcome Decision)
    → (after_authorize m item o).next_ticket ≡ m.next_ticket
unfolding after_authorize
next_ticket-after_authorize m item (threw e) = next_ticket-settle m item (reject e)
next_ticket-after_authorize m item (returned d) =
    ground (arith, next_ticket-settle m item (reject (or_default d.reason "not authorized")))

next_ticket-after_apply :
    (m : Mailbox) (item : QueueItem) (o : Outcome (Unit {0}))
    → (after_apply m item o).next_ticket ≡ m.next_ticket
unfolding after_apply
next_ticket-after_apply m item (threw e) = next_ticket-settle m item (reject e)
next_ticket-after_apply m item (returned u) = next_ticket-settle m item accept

module _ (authorize : QueueItem → Outcome Decision) (apply : QueueItem → Outcome (Unit {0})) where
  next_ticket-resume_at :
      (m : Mailbox) (w : Await) → (resume_at authorize apply m w).next_ticket ≡ m.next_ticket
  unfolding resume_at after_authorize after_apply
  next_ticket-resume_at m nowhere = refl
  next_ticket-resume_at m (on_authorize item) = next_ticket-after_authorize m item (authorize item)
  next_ticket-resume_at m (on_apply item) = next_ticket-after_apply m item (apply item)

  pub next_ticket-resume : (m : Mailbox) → (resume authorize apply m).next_ticket ≡ m.next_ticket
  unfolding resume
  next_ticket-resume m = next_ticket-resume_at m m.waits
