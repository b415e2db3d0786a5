-- ===== src/TokenRefresh/Delay.antt =====
-- When the timer of packages/web/src/lib/jazz-token.ts is due after a token has been applied.
use Prim.Native.Nat.{◌^◌}
use akko.Prelude.{
  ℕ, ◌+◌, ◌-◌, ◌≤◌, ◌<◌, max, ◌≡◌, ap, ◌≢◌, ◌⊎◌, inl, inr, String, true, false, some, leb, arith,
  eq_iff, Bool-cases,
}
use akko.TokenRefresh.{
  Payload, Refresh, token, schedule, finish_refresh, ms_until_refresh, jwt_expiry_ms, delay_for,
  timeout_of,
}

-- A delay below 2 ^ 31 is waited for; the timer's number does not reach further.
timeout_of_short : (delay : ℕ) → delay < 2 ^ 31 → timeout_of delay ≡ delay
unfolding timeout_of
timeout_of_short delay h = ground (arith, h)

-- After a token is applied whose end comes within some 24 days, the next refresh waits for at least
-- five seconds, and comes a minute or more before the end unless it comes after just these five.
pub timer_is_in_time :
    (payload : Payload) (s : Refresh) (t : String) (now exp : ℕ)
    → s.stopped ≡ false
    → t ≢ ""
    → jwt_expiry_ms payload t ≡ some exp
    → exp < now + 60000 + 2 ^ 31
    → (at : ℕ) × ((finish_refresh payload s (token t true) now).timer ≡ some at)
      × (now + 5000 ≤ at)
      × ((at + 60000 ≤ exp) ⊎ (at ≡ now + 5000))
unfolding finish_refresh schedule ms_until_refresh
timer_is_in_time payload s t now exp going named ends soon =
    let delay = ms_until_refresh payload t now in
    let known = ap (λ o. delay_for o now) ends in
    (
      now + delay,
      ground (arith, going, eq_iff t "", timeout_of_short delay (omega (arith, known, soon))),
      omega (arith, known),
      last (delay_for (some exp) now) delay known (omega arith),
    )
  where
    last :
        (d delay : ℕ)
        → delay ≡ d
        → (d ≡ max 5000 (exp - 60000 - now))
        → (now + delay + 60000 ≤ exp) ⊎ (now + delay ≡ now + 5000)
    last d delay e f = elim (Bool-cases (leb 5000 (exp - 60000 - now))) [
      | inl long ↦ inl (ground (arith, long, e, f))
      | inr short ↦ inr (ground (arith, short, e, f))
    ]
