-- ===== src/Mailbox/Guarded.antt =====
-- What packages/runtime/src/mailbox.ts applies has been allowed: whatever holds of the items that are
-- allowed holds of those that are applied.
use akko.Prelude.{
  ◌+◌, ◌≡◌, refl, Bool, true, false, List, [], ◌∷◌, ◌++◌, All, All-append, if◌then◌else◌,
  or_default,
}
use akko.Domain.{Command}
use akko.Authz.{Decision}
use akko.Mailbox.{
  Mailbox, QueueItem, MailboxResult, Call, authorizes, applies, Await, nowhere, on_authorize,
  on_apply, Outcome, returned, threw, Event, posts, resumes, drain_next, post, settle,
  after_authorize, after_apply, resume_at, resume, step, run, accept, reject,
}

module _ (P : QueueItem → Type 0) where
  abbrev pub IsFine : Call → Type 0
  IsFine (authorizes item) = Unit
  IsFine (applies item) = P item

  abbrev pub IsDue : QueueItem × MailboxResult → Type 0
  IsDue (item, result) = result.accepted ≡ true → P item

  abbrev IsWaiting : Await → Type 0
  IsWaiting nowhere = Unit
  IsWaiting (on_authorize item) = Unit
  IsWaiting (on_apply item) = P item

  -- Of the calls, of the answers, and of the item that is being applied.
  abbrev pub IsOrderly : Mailbox → Type 0
  IsOrderly m = All IsFine m.calls × All IsDue m.settled × IsWaiting m.waits

  drain_next-IsOrderly :
      (m : Mailbox) (queue : List QueueItem)
      → All IsFine m.calls
      → All IsDue m.settled
      → IsOrderly (drain_next m queue)
  unfolding drain_next
  drain_next-IsOrderly m [] h k = (h, k, tt)
  drain_next-IsOrderly m (item ∷ rest) h k =
      (All-append IsFine m.calls (authorizes item ∷ []) h (tt, tt), k, tt)

  settle-IsOrderly :
      (m : Mailbox) (item : QueueItem) (result : MailboxResult)
      → All IsFine m.calls
      → All IsDue m.settled
      → IsDue (item, result)
      → IsOrderly (settle m item result)
  unfolding settle
  settle-IsOrderly m item result h k due =
      drain_next-IsOrderly (record m { settled = m.settled ++ (item, result) ∷ [] }) m.queue h
        (All-append IsDue m.settled ((item, result) ∷ []) k (due, tt))

  post-IsOrderly : (m : Mailbox) (c : Command) → IsOrderly m → IsOrderly (post m c)
  unfolding post
  post-IsOrderly m c h = go m.draining
    where
      queued : Mailbox
      queued = record m {
        queue = m.queue ++ record { ticket = m.next_ticket; command = c } ∷ [];
        next_ticket = m.next_ticket + 1;
      }

      go : (b : Bool) → IsOrderly (if b then queued else drain_next queued queued.queue)
      go true = h
      go false = drain_next-IsOrderly queued queued.queue h.0 h.1

  module _ (authorize : QueueItem → Outcome Decision) (apply : QueueItem → Outcome (Unit {0}))
      (allows : (item : QueueItem) (d : Decision)
        → authorize item ≡ returned d
        → d.allow ≡ true
        → P item) where
    after_authorize-IsOrderly :
        (m : Mailbox) (item : QueueItem) (o : Outcome Decision)
        → authorize item ≡ o
        → IsOrderly m
        → IsOrderly (after_authorize m item o)
    unfolding after_authorize
    after_authorize-IsOrderly m item (threw message) e h =
        settle-IsOrderly m item (reject message) h.0 h.1 (λ k. absurd (cc k))
    after_authorize-IsOrderly m item (returned d) e h = go d.allow refl
      where
        go :
            (b : Bool)
            → d.allow ≡ b
            → IsOrderly (
                if b
                then record m { waits = on_apply item; calls = m.calls ++ applies item ∷ [] }
                else settle m item (reject (or_default d.reason "not authorized")))
        go true yes_ = (
          All-append IsFine m.calls (applies item ∷ []) h.0 (allows item d e yes_, tt),
          h.1,
          allows item d e yes_,
        )
        go false no_ =
            settle-IsOrderly m item (reject (or_default d.reason "not authorized")) h.0 h.1
              (λ k. absurd (cc k))

    resume_at-IsOrderly :
        (m : Mailbox) (w : Await)
        → All IsFine m.calls × All IsDue m.settled × IsWaiting w
        → IsOrderly m
        → IsOrderly (resume_at authorize apply m w)
    unfolding resume_at after_apply
    resume_at-IsOrderly m nowhere h k = k
    resume_at-IsOrderly m (on_authorize item) h k =
        after_authorize-IsOrderly m item (authorize item) refl k
    resume_at-IsOrderly m (on_apply item) h k = go (apply item)
      where
        go : (o : Outcome (Unit {0})) → IsOrderly (after_apply m item o)
        go (threw message) = settle-IsOrderly m item (reject message) h.0 h.1 (λ x. absurd (cc x))
        go (returned _) = settle-IsOrderly m item accept h.0 h.1 (λ x. h.2)

    step-IsOrderly : (m : Mailbox) (e : Event) → IsOrderly m → IsOrderly (step authorize apply m e)
    unfolding step resume
    step-IsOrderly m (posts c) h = post-IsOrderly m c h
    step-IsOrderly m resumes h = resume_at-IsOrderly m m.waits h h

    -- Whatever is posted, and whenever, every item that is applied and every item that is told to be
    -- accepted is one that was allowed.
    pub run-IsOrderly :
        (m : Mailbox) (es : List Event) → IsOrderly m → IsOrderly (run authorize apply m es)
    unfolding run
    run-IsOrderly m [] h = h
    run-IsOrderly m (e ∷ es) h = run-IsOrderly (step authorize apply m e) es (step-IsOrderly m e h)
