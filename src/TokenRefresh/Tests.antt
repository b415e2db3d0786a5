-- ===== src/TokenRefresh/Tests.antt =====
-- Runs of packages/web/src/lib/jazz-token.ts, and its theorems at concrete tokens.
use akko.Prelude.{
  ℕ, ◌+◌, ◌≤◌, ◌≡◌, ◌≢◌, ◌⊎◌, refl, true, ◌||◌, none, some, is_some, List, [], ◌∷◌, ltb, arith,
  ◌==◌, eq_iff, if◌then◌else◌,
}
use akko.TokenRefresh.{
  Payload, Event, visibility, timer_fires, answers, stops, token, signed_out, fetch_fails, start,
  run, finish_refresh, jwt_expiry_ms,
}
use akko.TokenRefresh.Kept.{renewals_go_on, HasStopped, stopped_for_good}
use akko.TokenRefresh.Delay.{timer_is_in_time}

abbrev payload : Payload
payload part =
    if part == "p+/q" then some (some 900) else if part == "far" then some (some 3000000) else none

expiry_read : jwt_expiry_ms payload "h.p-_q.s" ≡ some 900000
unfolding jwt_expiry_ms
expiry_read = refl

no_middle : jwt_expiry_ms payload "opaque" ≡ none
unfolding jwt_expiry_ms
no_middle = refl

abbrev events : List (Event × ℕ)
events =
    (answers fetch_fails, 10)
    ∷ (timer_fires, 5010)
    ∷ (visibility true, 5020)
    ∷ (answers (token "h.p-_q.s" true), 6000)
    ∷ (answers signed_out, 6001)
    ∷ []

after_events :
    ((run payload start events).applied ≡ "h.p-_q.s" ∷ [])
    × ((run payload start events).timer ≡ some 11001)
unfolding run start
after_events = (refl, refl)

-- A token that ends more than 2 ^ 31 milliseconds from now sets a timer that is due at once.
far_token_is_due_at_once : (finish_refresh payload start (token "h.far.s" true) 0).timer ≡ some 0
unfolding finish_refresh start
far_token_is_due_at_once = refl

-- A request that fails after the stop is still reported.
late_failure_is_reported :
    (run payload start ((stops, 1) ∷ (answers fetch_fails, 2) ∷ [])).reported ≢ []
unfolding run start
late_failure_is_reported h = cc

renewals_go_on_example :
    let s = run payload start events in (s.stopped || is_some s.timer || ltb 0 s.waiting) ≡ true
renewals_go_on_example = renewals_go_on payload events

stopped_for_good_example :
    HasStopped [] (run payload start ((stops, 1) ∷ (answers (token "h.far.s" true), 2) ∷ []))
unfolding start
stopped_for_good_example =
    stopped_for_good payload start 1 ((answers (token "h.far.s" true), 2) ∷ [])

timer_is_in_time_example :
    (at : ℕ) × ((finish_refresh payload start (token "h.p-_q.s" true) 1000).timer ≡ some at)
    × (1000 + 5000 ≤ at)
    × ((at + 60000 ≤ 900000) ⊎ (at ≡ 1000 + 5000))
unfolding start
timer_is_in_time_example =
    timer_is_in_time payload start "h.p-_q.s" 1000 900000 refl
      (λ h. ground (arith, eq_iff "h.p-_q.s" "")) expiry_read (omega arith)
