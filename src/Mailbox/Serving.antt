-- ===== src/Mailbox/Serving.antt =====
-- The mailbox of packages/runtime/src/mailbox.ts serves its commands one at a time, in the order in
-- which they were posted.
use mathlib.Core.Path.{subst}
use akko.Prelude.{
  ℕ, ◌+◌, ◌≡◌, refl, sym, ap, ◌∙◌, Bool, true, false, List, [], ◌∷◌, ◌++◌, map, append_assoc,
  append-nil, if◌then◌else◌, or_default, Bool-cases, inl, inr,
}
use akko.Domain.{Command}
use akko.Authz.{Decision}
use akko.Mailbox.{
  Outcome, returned, threw, MailboxResult, accept, reject, QueueItem, Await, nowhere, on_authorize,
  on_apply, Call, authorizes, applies, Mailbox, new_mailbox, drain_next, post, settle,
  after_authorize, after_apply, Event, posts, resumes, resume_at, resume, step, run,
}
use akko.Mailbox.Tickets.{next_ticket-post, next_ticket-resume}

abbrev pub ticketed : ℕ → Command → QueueItem
ticketed n c = record { ticket = n; command = c }

-- The items that a schedule posts, ticketed from `n` on.
abbrev pub tickets : ℕ → List Event → List QueueItem
tickets n [] = []
tickets n (posts c ∷ es) = ticketed n c ∷ tickets (n + 1) es
tickets n (resumes ∷ es) = tickets n es

module _ (authorize : QueueItem → Outcome Decision) (apply : QueueItem → Outcome (Unit {0})) where
  -- What becomes of a command that is served alone.
  abbrev applied_result : Outcome (Unit {0}) → MailboxResult
  applied_result (returned _) = accept
  applied_result (threw message) = reject message

  abbrev pub grants : Outcome Decision → Bool
  grants (threw message) = false
  grants (returned d) = d.allow

  abbrev refusal_of : Outcome Decision → MailboxResult
  refusal_of (threw message) = reject message
  refusal_of (returned d) = reject (or_default d.reason "not authorized")

  abbrev pub response : QueueItem → MailboxResult
  response item =
      if grants (authorize item) then applied_result (apply item) else refusal_of (authorize item)

  abbrev pub calls_of : QueueItem → List Call
  calls_of item =
      if grants (authorize item) then authorizes item ∷ applies item ∷ [] else authorizes item ∷ []

  abbrev pub served : List QueueItem → List (QueueItem × MailboxResult)
  served items = map (λ i. (i, response i)) items

  abbrev pub all_calls : List QueueItem → List Call
  all_calls [] = []
  all_calls (i ∷ is) = calls_of i ++ all_calls is

  abbrev pub in_hand : Await → List QueueItem
  in_hand nowhere = []
  in_hand (on_authorize i) = i ∷ []
  in_hand (on_apply i) = i ∷ []

  abbrev pub open_calls : Await → List Call
  open_calls nowhere = []
  open_calls (on_authorize i) = authorizes i ∷ []
  open_calls (on_apply i) = authorizes i ∷ applies i ∷ []

  abbrev pub Granted : Await → Type 0
  Granted nowhere = Unit
  Granted (on_authorize i) = Unit
  Granted (on_apply i) = grants (authorize i) ≡ true

  abbrev pub Awake : Await → Mailbox → Type 0
  Awake nowhere m = (m.draining ≡ false) × (m.queue ≡ [])
  Awake w m = m.draining ≡ true

  -- `done` are the items that are served, `posted` all that came in.
  pub record Serves (done posted : List QueueItem) (m : Mailbox) (w : Await) : Type 0 where
    pub waits : m.waits ≡ w
    pub order : posted ≡ done ++ (in_hand w ++ m.queue)
    pub settled : m.settled ≡ served done
    pub calls : m.calls ≡ all_calls done ++ open_calls w
    pub granted : Granted w
    pub awake : Awake w m

  abbrev pub Serving : List QueueItem → Mailbox → Type 0
  Serving posted m = (done : List QueueItem) × (w : Await) × Serves done posted m w

  served-append :
      (xs : List QueueItem) (i : QueueItem)
      → served (xs ++ i ∷ []) ≡ served xs ++ (i, response i) ∷ []
  served-append [] i = refl
  served-append (x ∷ xs) i = ap (◌∷◌ (x, response x)) (served-append xs i)

  all_calls-append :
      (xs : List QueueItem) (i : QueueItem) → all_calls (xs ++ i ∷ []) ≡ all_calls xs ++ calls_of i
  all_calls-append [] i = append-nil (calls_of i)
  all_calls-append (x ∷ xs) i =
      ap (◌++◌ (calls_of x)) (all_calls-append xs i)
      ∙ sym (append_assoc (calls_of x) (all_calls xs) (calls_of i))

  drain_next-Serving :
      (posted done q : List QueueItem) (m : Mailbox)
      → posted ≡ done ++ q
      → m.settled ≡ served done
      → m.calls ≡ all_calls done
      → Serving posted (drain_next m q)
  unfolding drain_next
  drain_next-Serving posted done [] m o s c = (
    done,
    nowhere,
    record {
      waits = refl;
      order = o;
      settled = s;
      calls = c ∙ sym (append-nil _);
      granted = tt;
      awake = (refl, refl);
    },
  )
  drain_next-Serving posted done (item ∷ rest) m o s c = (
    done,
    on_authorize item,
    record {
      waits = refl;
      order = o;
      settled = s;
      calls = ap (λ l. l ++ authorizes item ∷ []) c;
      granted = tt;
      awake = refl;
    },
  )

  settle-Serving :
      (posted done : List QueueItem) (m : Mailbox) (item : QueueItem) (result : MailboxResult)
      → posted ≡ done ++ item ∷ m.queue
      → m.settled ≡ served done
      → m.calls ≡ all_calls done ++ calls_of item
      → result ≡ response item
      → Serving posted (settle m item result)
  unfolding settle
  settle-Serving posted done m item result o s c r =
      drain_next-Serving posted (done ++ item ∷ []) m.queue
        (record m { settled = m.settled ++ (item, result) ∷ [] })
        (o ∙ sym (append_assoc done (item ∷ []) m.queue))
        (rw (served-append done item, ← r) (ap (λ l. l ++ (item, result) ∷ []) s))
        (c ∙ sym (all_calls-append done item))

  after_authorize-Serving :
      (posted done : List QueueItem) (m : Mailbox) (item : QueueItem) (o : Outcome Decision)
      → authorize item ≡ o
      → Serves done posted m (on_authorize item)
      → Serving posted (after_authorize m item o)
  unfolding after_authorize
  after_authorize-Serving posted done m item (threw message) e v =
      settle-Serving posted done m item (reject message) v.order v.settled (rw e v.calls) (rw e)
  after_authorize-Serving posted done m item (returned d) e v = elim (Bool-cases d.allow) [
    | inl yes_ ↦
        rw (yes_, after_authorize)
          (
            done,
            on_apply item,
            record {
              waits = refl;
              order = v.order;
              settled = v.settled;
              calls =
                  ap (λ l. l ++ applies item ∷ []) v.calls
                  ∙ append_assoc (all_calls done) (authorizes item ∷ []) (applies item ∷ []);
              granted = rw e yes_;
              awake = v.awake;
            },
          )
    | inr no_ ↦
        rw (no_, after_authorize)
          (settle-Serving posted done m item (reject (or_default d.reason "not authorized")) v.order
            v.settled (rw (e, no_) v.calls) (rw (e, no_)))
  ]

  after_apply-Serving :
      (posted done : List QueueItem) (m : Mailbox) (item : QueueItem) (o : Outcome (Unit {0}))
      → apply item ≡ o
      → Serves done posted m (on_apply item)
      → Serving posted (after_apply m item o)
  unfolding after_apply
  after_apply-Serving posted done m item (threw message) e v =
      settle-Serving posted done m item (reject message) v.order v.settled (rw v.granted v.calls)
        (rw (v.granted, e))
  after_apply-Serving posted done m item (returned u) e v =
      settle-Serving posted done m item accept v.order v.settled (rw v.granted v.calls)
        (rw (v.granted, e))

  pub resume-Serving :
      (posted : List QueueItem) (m : Mailbox)
      → Serving posted m
      → Serving posted (resume authorize apply m)
  unfolding resume resume_at
  resume-Serving posted m (done, nowhere, v) = rw (v.waits, resume, resume_at) (done, nowhere, v)
  resume-Serving posted m (done, on_authorize item, v) =
      rw (v.waits, resume, resume_at)
        (after_authorize-Serving posted done m item (authorize item) refl v)
  resume-Serving posted m (done, on_apply item, v) =
      rw (v.waits, resume, resume_at) (after_apply-Serving posted done m item (apply item) refl v)

  order-snoc :
      (posted done : List QueueItem) (item : QueueItem) (queue : List QueueItem) (new : QueueItem)
      → posted ≡ done ++ item ∷ queue
      → posted ++ new ∷ [] ≡ done ++ item ∷ (queue ++ new ∷ [])
  order-snoc posted done item queue new o =
      ap (λ l. l ++ new ∷ []) o ∙ append_assoc done (item ∷ queue) (new ∷ [])

  post-Serving :
      (posted : List QueueItem) (m : Mailbox) (c : Command)
      → Serving posted m
      → Serving (posted ++ ticketed m.next_ticket c ∷ []) (post m c)
  unfolding post
  post-Serving posted m c (done, nowhere, v) =
      rw (v.awake.0, v.awake.1, post)
        (drain_next-Serving (posted ++ ticketed m.next_ticket c ∷ []) done
          (ticketed m.next_ticket c ∷ [])
          (record m { queue = ticketed m.next_ticket c ∷ []; next_ticket = m.next_ticket + 1 })
          (ap (λ l. l ++ ticketed m.next_ticket c ∷ [])
            (v.order ∙ ap (◌++◌ done) v.awake.1 ∙ append-nil done))
          v.settled (v.calls ∙ append-nil _))
  post-Serving posted m c (done, on_authorize item, v) =
      rw (v.awake, post)
        (
          done,
          on_authorize item,
          record {
            waits = v.waits;
            order = order-snoc posted done item m.queue (ticketed m.next_ticket c) v.order;
            settled = v.settled;
            calls = v.calls;
            granted = tt;
            awake = refl;
          },
        )
  post-Serving posted m c (done, on_apply item, v) =
      rw (v.awake, post)
        (
          done,
          on_apply item,
          record {
            waits = v.waits;
            order = order-snoc posted done item m.queue (ticketed m.next_ticket c) v.order;
            settled = v.settled;
            calls = v.calls;
            granted = v.granted;
            awake = refl;
          },
        )

  run-Serving :
      (posted : List QueueItem) (m : Mailbox) (es : List Event)
      → Serving posted m
      → Serving (posted ++ tickets m.next_ticket es) (run authorize apply m es)
  unfolding run step
  run-Serving posted m [] v = rw (append-nil posted) v
  run-Serving posted m (posts c ∷ es) v =
      subst (λ l. Serving l (run authorize apply (post m c) es))
        (rw (next_ticket-post m c)
          (append_assoc posted (ticketed m.next_ticket c ∷ []) (tickets (m.next_ticket + 1) es)))
        (run-Serving (posted ++ ticketed m.next_ticket c ∷ []) (post m c) es
          (post-Serving posted m c v))
  run-Serving posted m (resumes ∷ es) v =
      subst
        (λ n. Serving (posted ++ tickets n es) (run authorize apply (resume authorize apply m) es))
        (next_ticket-resume authorize apply m)
        (run-Serving posted (resume authorize apply m) es (resume-Serving posted m v))

  new_mailbox-Serving : Serving [] new_mailbox
  new_mailbox-Serving = (
    [],
    nowhere,
    record {
      waits = refl;
      order = refl;
      settled = refl;
      calls = refl;
      granted = tt;
      awake = (refl, refl);
    },
  )

  pub run-new_mailbox-Serving :
      (es : List Event) → Serving (tickets 0 es) (run authorize apply new_mailbox es)
  run-new_mailbox-Serving es = run-Serving [] new_mailbox es new_mailbox-Serving

  -- At every moment of every schedule the commands that were posted are, in the order of their
  -- posts, those that are settled, the one in hand and those in the queue; each settled one got the
  -- answer that it would get alone, and the calls of `authorize` and `apply` are those of the
  -- settled ones, one command after the other, followed by those of the one in hand.
  pub run_serves_in_order :
      (es : List Event)
      → let m = run authorize apply new_mailbox es in
        (done : List QueueItem) × (tickets 0 es ≡ done ++ (in_hand m.waits ++ m.queue))
        × (m.settled ≡ served done)
        × (m.calls ≡ all_calls done ++ open_calls m.waits)
  run_serves_in_order es =
      let (done, w, v) = run-new_mailbox-Serving es in
      (done, rw v.waits v.order, v.settled, rw v.waits v.calls)
