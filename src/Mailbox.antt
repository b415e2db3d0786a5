-- ===== src/Mailbox.antt =====
-- packages/runtime/src/mailbox.ts: the per-session queue and its drain loop. The loop runs from one
-- `await` to the next; between them other code may post. What `authorize` and `apply` answer for an
-- item is a parameter; a throw of either, synchronous or not, is met at the `await`.
pub mod Tickets
pub mod Serving
pub mod Progress
pub mod Guarded
mod Tests
use akko.Prelude.{
  ℕ, ◌+◌, String, Bool, true, false, Option, none, some, List, [], ◌∷◌, ◌++◌, map, length,
  if◌then◌else◌, or_default,
}
use akko.Domain.{Command, CommandVerb}
use akko.Authz.{Decision}

-- A promise that is settled.
pub data Outcome (A : Type 0) : Type 0 where
  returned : A → Outcome A
  threw : String → Outcome A

pub record MailboxResult : Type 0 where
  pub accepted : Bool
  pub reason : Option String

abbrev pub accept : MailboxResult
accept = record { accepted = true; reason = none }

abbrev pub reject : String → MailboxResult
reject reason = record { accepted = false; reason = some reason }

-- The ticket stands for the promise that `settle` resolves: one to a post.
pub record QueueItem : Type 0 where
  pub ticket : ℕ
  pub command : Command

-- Where `drain` waits, with its `item`.
pub data Await : Type 0 where
  nowhere : Await
  on_authorize on_apply : QueueItem → Await

-- A call of `deps.authorize` or of `deps.apply`.
pub data Call : Type 0 where
  authorizes applies : QueueItem → Call

pub record Mailbox : Type 0 where
  pub queue : List QueueItem
  pub draining : Bool
  pub waits : Await
  pub calls : List Call
  pub settled : List (QueueItem × MailboxResult)
  pub next_ticket : ℕ

abbrev pub new_mailbox : Mailbox
new_mailbox = record {
  queue = [];
  draining = false;
  waits = nowhere;
  calls = [];
  settled = [];
  next_ticket = 0;
}

abbrev pub pending : Mailbox → List (String × CommandVerb)
pending m = map (λ i. (i.command.actor_id, i.command.verb)) m.queue

abbrev pub size : Mailbox → ℕ
size m = length m.queue

-- The head of the `while` loop, up to the first `await` of its body.
unfoldable pub drain_next : Mailbox → List QueueItem → Mailbox
drain_next m [] = record m { queue = []; draining = false; waits = nowhere }
drain_next m (item ∷ rest) = record m {
  queue = rest;
  draining = true;
  waits = on_authorize item;
  calls = m.calls ++ authorizes item ∷ [];
}

-- `drain()`
abbrev drain : Mailbox → Mailbox
drain m = if m.draining then m else drain_next m m.queue

unfoldable pub post : Mailbox → Command → Mailbox
unfolding drain_next
post m c = drain (record m {
  queue = m.queue ++ record { ticket = m.next_ticket; command = c } ∷ [];
  next_ticket = m.next_ticket + 1;
})

-- `item.settle(result)`, and back to the head of the loop.
unfoldable pub settle : Mailbox → QueueItem → MailboxResult → Mailbox
unfolding drain_next
settle m item result = drain_next (record m { settled = m.settled ++ (item, result) ∷ [] }) m.queue

-- The body of the loop, from `await authorize` on.
after_authorize : Mailbox → QueueItem → Outcome Decision → Mailbox
unfolding settle
after_authorize m item (threw message) = settle m item (reject message)
after_authorize m item (returned decision) =
    if decision.allow
    then record m { waits = on_apply item; calls = m.calls ++ applies item ∷ [] }
    else settle m item (reject (or_default decision.reason "not authorized"))

-- From `await apply` on.
after_apply : Mailbox → QueueItem → Outcome (Unit {0}) → Mailbox
unfolding settle
after_apply m item (threw message) = settle m item (reject message)
after_apply m item (returned _) = settle m item accept

pub data Event : Type 0 where
  posts : Command → Event
  resumes : Event

module _ (authorize : QueueItem → Outcome Decision) (apply : QueueItem → Outcome (Unit {0})) where
  resume_at : Mailbox → Await → Mailbox
  unfolding after_authorize after_apply
  resume_at m nowhere = m
  resume_at m (on_authorize item) = after_authorize m item (authorize item)
  resume_at m (on_apply item) = after_apply m item (apply item)

  -- The promise that the loop awaits is settled.
  pub resume : Mailbox → Mailbox
  unfolding resume_at
  resume m = resume_at m m.waits

  unfoldable pub step : Mailbox → Event → Mailbox
  unfolding resume
  step m (posts c) = post m c
  step m resumes = resume m

  unfoldable pub run : Mailbox → List Event → Mailbox
  unfolding step post
  run m [] = m
  run m (e ∷ es) = run (step m e) es
