-- ===== src/TokenRefresh/Kept.antt =====
-- The renewals of packages/web/src/lib/jazz-token.ts go on until they are stopped, and no longer.
use akko.Prelude.{
  ℕ, zero, suc, ◌≡◌, refl, String, Bool, true, false, ◌&&◌, ◌||◌, not, none, is_some, List, [], ◌∷◌,
  ltb, arith, if◌then◌else◌,
}
use akko.TokenRefresh.{
  Payload, Refresh, Event, visibility, timer_fires, answers, stops, Fetched, token, signed_out,
  fetch_fails, schedule, refresh, finish_refresh, on_visible, fire_timer, step, start, run, is_due,
  answer_one,
}

-- A timer is set or a request waits, unless it is stopped; then no timer is set and nothing listens.
abbrev pub IsKept : Refresh → Type 0
IsKept s =
    ((s.stopped || is_some s.timer || ltb 0 s.waiting) ≡ true)
    × ((s.stopped && is_some s.timer) ≡ false)
    × (s.listening ≡ not s.stopped)

finish_refresh-IsKept :
    (payload : Payload) (s : Refresh) (fetched : Fetched) (now : ℕ)
    → (s.stopped && is_some s.timer) ≡ false
    → s.listening ≡ not s.stopped
    → IsKept (finish_refresh payload s fetched now)
unfolding finish_refresh schedule
finish_refresh-IsKept payload s (token t applies) now h k = ground (arith, h, k)
finish_refresh-IsKept payload s signed_out now h k = ground (arith, h, k)
finish_refresh-IsKept payload s fetch_fails now h k = ground (arith, h, k)

refresh-IsKept :
    (s : Refresh)
    → (s.stopped && is_some s.timer) ≡ false
    → s.listening ≡ not s.stopped
    → IsKept (refresh s)
unfolding refresh
refresh-IsKept s h k = ground (arith, h, k)

either_way : (a b : Refresh) (c : Bool) → IsKept a → IsKept b → IsKept (if c then a else b)
either_way a b true h k = h
either_way a b false h k = k

on_visible-IsKept :
    (s : Refresh) (visible : Bool) (now : ℕ) → IsKept s → IsKept (on_visible s visible now)
unfolding on_visible
on_visible-IsKept s visible now h =
    either_way (refresh s) s (visible && is_due s.next_due_at now) (refresh-IsKept s h.1 h.2) h

fire_timer-IsKept : (s : Refresh) (now : ℕ) → IsKept s → IsKept (fire_timer s now)
unfolding fire_timer
fire_timer-IsKept s now h =
    either_way (refresh (record s { timer = none })) s (is_due s.timer now)
      (refresh-IsKept (record s { timer = none }) (ground arith) h.2) h

answer_one-IsKept :
    (payload : Payload) (s : Refresh) (fetched : Fetched) (now waiting : ℕ)
    → IsKept s
    → IsKept (answer_one payload s fetched now waiting)
answer_one-IsKept payload s fetched now zero h = h
answer_one-IsKept payload s fetched now (suc rest) h =
    finish_refresh-IsKept payload (record s { waiting = rest }) fetched now h.1 h.2

step-IsKept :
    (payload : Payload) (s : Refresh) (e : Event) (now : ℕ)
    → IsKept s
    → IsKept (step payload s e now)
unfolding step
step-IsKept payload s (visibility visible) now h =
    either_way (on_visible s visible now) s s.listening (on_visible-IsKept s visible now h) h
step-IsKept payload s timer_fires now h = fire_timer-IsKept s now h
step-IsKept payload s (answers fetched) now h = answer_one-IsKept payload s fetched now s.waiting h
step-IsKept payload s stops now h = ground (arith, h)

run-IsKept :
    (payload : Payload) (s : Refresh) (es : List (Event × ℕ)) → IsKept s → IsKept (run payload s es)
unfolding run
run-IsKept payload s [] h = h
run-IsKept payload s ((e, now) ∷ es) h =
    run-IsKept payload (step payload s e now) es (step-IsKept payload s e now h)

-- Whatever happens, and at whatever times, either the renewals have been stopped, or a timer is set
-- or a request waits for its token: a failure never ends them.
pub renewals_go_on :
    (payload : Payload) (es : List (Event × ℕ))
    → let s = run payload start es in (s.stopped || is_some s.timer || ltb 0 s.waiting) ≡ true
unfolding start refresh
renewals_go_on payload es = (run-IsKept payload start es (refl, refl, refl)).0

-- Stopped, with no timer, not listening, and with the tokens that had been applied.
abbrev pub HasStopped : List String → Refresh → Type 0
HasStopped applied s =
    (s.stopped ≡ true) × (s.timer ≡ none) × (s.listening ≡ false) × (s.applied ≡ applied)

finish_refresh-HasStopped :
    (payload : Payload) (applied : List String) (s : Refresh) (fetched : Fetched) (now : ℕ)
    → HasStopped applied s
    → HasStopped applied (finish_refresh payload s fetched now)
unfolding finish_refresh schedule
finish_refresh-HasStopped payload applied s (token t applies) now h = ground (arith, h)
finish_refresh-HasStopped payload applied s signed_out now h = ground (arith, h)
finish_refresh-HasStopped payload applied s fetch_fails now h = ground (arith, h)

step-HasStopped :
    (payload : Payload) (applied : List String) (s : Refresh) (e : Event) (now : ℕ)
    → HasStopped applied s
    → HasStopped applied (step payload s e now)
unfolding step fire_timer
step-HasStopped payload applied s (visibility visible) now h = ground (arith, h)
step-HasStopped payload applied s timer_fires now h = ground (arith, h)
step-HasStopped payload applied s (answers fetched) now h = go s.waiting
  where
    go : (waiting : ℕ) → HasStopped applied (answer_one payload s fetched now waiting)
    go zero = h
    go (suc rest) =
        finish_refresh-HasStopped payload applied (record s { waiting = rest }) fetched now h
step-HasStopped payload applied s stops now h = (refl, refl, refl, h.3)

run-HasStopped :
    (payload : Payload) (applied : List String) (s : Refresh) (es : List (Event × ℕ))
    → HasStopped applied s
    → HasStopped applied (run payload s es)
unfolding run
run-HasStopped payload applied s [] h = h
run-HasStopped payload applied s ((e, now) ∷ es) h =
    run-HasStopped payload applied (step payload s e now) es
      (step-HasStopped payload applied s e now h)

-- Once stopped, whatever still happens, requests that are answered late included, no token is
-- applied, no timer is set and nothing listens.
pub stopped_for_good :
    (payload : Payload) (s : Refresh) (now : ℕ) (es : List (Event × ℕ))
    → HasStopped s.applied (run payload s ((stops, now) ∷ es))
unfolding run step
stopped_for_good payload s now es =
    run-HasStopped payload s.applied (step payload s stops now) es (refl, refl, refl, refl)
