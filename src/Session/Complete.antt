-- ===== src/Session/Complete.antt =====
-- A capture of packages/runtime/src/session-runtime.ts that begins gets to the end.
use akko.Prelude.{
  ℕ, zero, suc, ◌+◌, ◌≤◌, ◌<◌, ◌≡◌, refl, sym, ap, ◌∙◌, true, none, some, List, [], ◌∷◌, map, arith,
  length, get_elem?, take, take-length, or_default, lt_of_get, le_of_get_none, Option-cases, inl,
  inr,
}
use mathlib.Core.Path.{subst}
use akko.Store.{CommittedEntry, get_entries}
use akko.Session.{Runtime, Round, capture_message, capture_at, capture, Event, captures, step, run}
use akko.Session.Captured.{messages_of, IsCaptured, IsCaptured-run, RunsSmoothly}

abbrev pub rounds : List Round → List Event
rounds rs = map captures rs

abbrev IsDone : ℕ → Runtime → Type 0
IsDone n r = (r.running ≡ none) × (r.persisted_count ≡ n) × (length r.messages ≡ n)

capture_at_end :
    (r : Runtime) (i : ℕ) (round : Round)
    → length r.messages ≤ i
    → IsDone (length r.messages) (capture_at r i round)
unfolding capture_at
capture_at_end r i round h = elim (Option-cases (get_elem? r.messages i)) [
  | inl e ↦ rw (e, capture_at) (refl, refl, refl)
  | inr (m, e) ↦ absurd (omega (arith, lt_of_get i r.messages m e))
]

capture_at_more :
    (r : Runtime) (i : ℕ) (round : Round)
    → i < length r.messages
    → round.persists ≡ true
    → ((capture_at r i round).running ≡ some (i + 1))
      × ((capture_at r i round).messages ≡ r.messages)
unfolding capture_at capture_message
capture_at_more r i round h fine = elim (Option-cases (get_elem? r.messages i)) [
  | inl e ↦ absurd (omega (arith, le_of_get_none i r.messages e))
  | inr (m, e) ↦ rw (e, capture_at, fine, capture_message) (refl, refl)
]

all_rounds :
    (r : Runtime) (i k : ℕ) (rs : List Round)
    → r.running ≡ some i
    → i + k ≡ length r.messages
    → length rs ≡ suc k
    → RunsSmoothly r (rounds rs)
    → IsDone (length r.messages) (run r (rounds rs))
unfolding run step capture
all_rounds r i k [] at_i e l h = absurd (omega arith)
all_rounds r i zero (x ∷ []) at_i e l h =
    subst (λ o. IsDone (length r.messages) (capture r o x)) (sym at_i)
      (capture_at_end r i x (omega arith))
all_rounds r i zero (x ∷ y ∷ rs) at_i e l h = absurd (omega arith)
all_rounds r i (suc k) (x ∷ rs) at_i e l h =
    let more = capture_at_more r i x (omega arith) h.0.0 in
    let here : step r (captures x) ≡ capture_at r i x = ap (λ o. capture r o x) at_i in
    let same : (step r (captures x)).messages ≡ r.messages = ap (λ s. s.messages) here ∙ more.1 in
    subst (λ n. IsDone n (run (step r (captures x)) (rounds rs))) (ap length same)
      (all_rounds (step r (captures x)) (i + 1) k rs (ap (λ s. s.running) here ∙ more.0)
        (omega (arith, ap length same)) (omega arith) h.1)

-- Where the record of a session is intact so far (its stored history is the earlier one with what
-- was published since, and holds the messages up to where the capture is, as no failed call has left
-- a message twice), a capture that is at message `i`, whose `persistEntry` calls all succeed under new
-- ids, and beside which nothing else happens to the session, ends after one round for each message
-- that is left and one more; then the history of the session holds every message of the driver, once
-- and in order, the count is right, and no capture runs.
pub capture_completes :
    (old : List CommittedEntry) (r : Runtime) (i k : ℕ) (rs : List Round)
    → IsCaptured old r
    → r.running ≡ some i
    → i + k ≡ length r.messages
    → length rs ≡ suc k
    → RunsSmoothly r (rounds rs)
    → let s = run r (rounds rs) in
      (s.running ≡ none)
      × (s.persisted_count ≡ length r.messages)
      × (messages_of (get_entries s.rows s.session_id) ≡ s.messages)
capture_completes old r i k rs v at_i e l h = (
  done.0,
  done.1,
  ap messages_of w.stored
      ∙ w.contents
      ∙ ap
          (λ o.
            take (or_default o (run r (rounds rs)).persisted_count) (run r (rounds rs)).messages)
          done.0
      ∙ ap (λ n. take n (run r (rounds rs)).messages) (done.1 ∙ sym done.2)
      ∙ take-length _,
)
  where
    done : IsDone (length r.messages) (run r (rounds rs))
    done = all_rounds r i k rs at_i e l h

    w : IsCaptured old (run r (rounds rs))
    w = IsCaptured-run old r (rounds rs) v h
