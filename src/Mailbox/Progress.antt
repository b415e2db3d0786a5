-- ===== src/Mailbox/Progress.antt =====
-- The drain loop of packages/runtime/src/mailbox.ts never stops with work left.
use akko.Prelude.{
  ℕ, zero, suc, ◌+◌, ◌-◌, ◌*◌, ◌≤◌, ◌≡◌, refl, ap, false, List, [], ◌∷◌, ◌++◌, append-nil, arith,
  length, length-append, or_default, replicate,
}
use akko.Authz.{Decision}
use akko.Mailbox.{
  Outcome, returned, threw, MailboxResult, accept, reject, QueueItem, Await, nowhere, on_authorize,
  on_apply, Mailbox, new_mailbox, drain_next, settle, after_authorize, after_apply, Event, resumes,
  resume_at, resume, step, run,
}
use akko.Mailbox.Serving.{served, tickets, Serves, Serving, resume-Serving, run-new_mailbox-Serving}

-- The promises that are still to be settled.
abbrev awaited : Await → ℕ
awaited nowhere = 0
awaited (on_authorize item) = 2
awaited (on_apply item) = 1

abbrev cost : Mailbox → ℕ
cost m = awaited m.waits + 2 * length m.queue

cost-drain_next : (m : Mailbox) (q : List QueueItem) → cost (drain_next m q) ≡ 2 * length q
unfolding drain_next
cost-drain_next m [] = refl
cost-drain_next m (item ∷ rest) = omega arith

cost-settle :
    (m : Mailbox) (item : QueueItem) (r : MailboxResult)
    → cost (settle m item r) ≡ 2 * length m.queue
unfolding settle
cost-settle m item r = cost-drain_next (record m { settled = m.settled ++ (item, r) ∷ [] }) m.queue

cost-after_authorize :
    (m : Mailbox) (item : QueueItem) (o : Outcome Decision)
    → cost (after_authorize m item o) ≤ 1 + 2 * length m.queue
unfolding after_authorize
cost-after_authorize m item (threw e) = omega (arith, cost-settle m item (reject e))
cost-after_authorize m item (returned d) =
    ground (arith, cost-settle m item (reject (or_default d.reason "not authorized")))

cost-after_apply :
    (m : Mailbox) (item : QueueItem) (o : Outcome (Unit {0}))
    → cost (after_apply m item o) ≤ 2 * length m.queue
unfolding after_apply
cost-after_apply m item (threw e) = omega (arith, cost-settle m item (reject e))
cost-after_apply m item (returned u) = omega (arith, cost-settle m item accept)

module _ (authorize : QueueItem → Outcome Decision) (apply : QueueItem → Outcome (Unit {0})) where
  cost-resume :
      (done posted : List QueueItem) (m : Mailbox) (w : Await)
      → Serves authorize apply done posted m w
      → cost (resume authorize apply m) ≤ cost m - 1
  unfolding resume resume_at
  cost-resume done posted m nowhere v =
      rw (v.waits, v.awake.1, resume, resume_at) (omega (arith, ap awaited v.waits))
  cost-resume done posted m (on_authorize item) v =
      rw (v.waits, resume, resume_at) (omega (arith, cost-after_authorize m item (authorize item)))
  cost-resume done posted m (on_apply item) v =
      rw (v.waits, resume, resume_at) (omega (arith, cost-after_apply m item (apply item)))

  run-append :
      (m : Mailbox) (es fs : List Event)
      → run authorize apply m (es ++ fs) ≡ run authorize apply (run authorize apply m es) fs
  unfolding run
  run-append m [] fs = refl
  run-append m (e ∷ es) fs = run-append (step authorize apply m e) es fs

  cost-run_resumes :
      (posted : List QueueItem) (m : Mailbox) (n : ℕ)
      → Serving authorize apply posted m
      → cost (run authorize apply m (replicate n resumes)) ≤ cost m - n
  unfolding run step
  cost-run_resumes posted m zero v = omega arith
  cost-run_resumes posted m (suc n) (done, w, v) = omega (
    arith,
    cost-resume done posted m w v,
    cost-run_resumes posted (resume authorize apply m) n
        (resume-Serving authorize apply posted m (done, w, v)),
  )

  cost-le-tickets :
      (done posted : List QueueItem) (m : Mailbox) (w : Await)
      → Serves authorize apply done posted m w
      → cost m ≤ 2 * length posted
  cost-le-tickets done posted m nowhere v = rw (v.waits, v.awake.1) (omega arith)
  cost-le-tickets done posted m (on_authorize item) v =
      rw (v.waits, v.order) (omega (arith, length-append done (item ∷ m.queue)))
  cost-le-tickets done posted m (on_apply item) v =
      rw (v.waits, v.order) (omega (arith, length-append done (item ∷ m.queue)))

  idle_of_cost :
      (done posted : List QueueItem) (m : Mailbox) (w : Await)
      → Serves authorize apply done posted m w
      → cost m ≡ 0
      → (m.settled ≡ served authorize apply posted) × (m.draining ≡ false) × (m.queue ≡ [])
  idle_of_cost done posted m nowhere v h =
      (rw (v.order, v.awake.1, append-nil done) v.settled, v.awake.0, v.awake.1)
  idle_of_cost done posted m (on_authorize item) v h = absurd (omega (arith, ap awaited v.waits))
  idle_of_cost done posted m (on_apply item) v h = absurd (omega (arith, ap awaited v.waits))

  run_resumes-Serving :
      (posted : List QueueItem) (m : Mailbox) (n : ℕ)
      → Serving authorize apply posted m
      → Serving authorize apply posted (run authorize apply m (replicate n resumes))
  unfolding run step
  run_resumes-Serving posted m zero v = v
  run_resumes-Serving posted m (suc n) v =
      run_resumes-Serving posted (resume authorize apply m) n
        (resume-Serving authorize apply posted m v)

  settled_of_bound :
      (posted : List QueueItem) (m : Mailbox) (n : ℕ)
      → Serving authorize apply posted m
      → 2 * length posted ≤ n
      → let r = run authorize apply m (replicate n resumes) in
        (r.settled ≡ served authorize apply posted) × (r.draining ≡ false) × (r.queue ≡ [])
  settled_of_bound posted m n (done, w, v) h =
      let (done', w', v') = run_resumes-Serving posted m n (done, w, v) in
      idle_of_cost done' posted _ w' v'
        (omega (arith, cost-run_resumes posted m n (done, w, v), cost-le-tickets done posted m w v))

  -- After any schedule, once the promises that the loop awaits have been settled twice for each
  -- command that was posted, every command has its answer, the one that it would get alone, in the
  -- order of the posts; the queue is empty and the loop has ended.
  pub run_settles_all :
      (es : List Event) (n : ℕ)
      → 2 * length (tickets 0 es) ≤ n
      → let m = run authorize apply new_mailbox (es ++ replicate n resumes) in
        (m.settled ≡ served authorize apply (tickets 0 es)) × (m.draining ≡ false) × (m.queue ≡ [])
  run_settles_all es n h = rw (run-append new_mailbox es (replicate n resumes)) (
      settled_of_bound (tickets 0 es) (run authorize apply new_mailbox es) n
        (run-new_mailbox-Serving authorize apply es) h)
