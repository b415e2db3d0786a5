-- ===== src/WebApp/Refreshing.antt =====
-- The loop of renewals that packages/web/src/App.svelte keeps, and what a second sign-in gets.
use akko.Prelude.{
  ℕ, zero, suc, ◌≡◌, refl, String, Bool, true, false, Option, none, some, List, [], ◌∷◌, bit, arith,
  get_elem?,
}
use akko.WebApp.{
  App, mounted, signed_in, client_for, AuthedUser, Checked, unreachable, nobody, somebody, Token,
  token_throws, no_jwt, jwt, Event, checked, check_again, try_again, token, connected,
  authenticates, logs_out, effect, after_check, retry, after_token, after_connect, logout,
  on_checked, on_check_timer, on_attempt_timer, on_token, on_connected, step, run,
}

-- A loop runs exactly when there is a way to stop it, and then just one.
abbrev pub IsHeld : App → Type 0
IsHeld a = a.refreshing ≡ bit a.has_stop

effect-IsHeld : (a : App) → IsHeld a → IsHeld (effect a)
unfolding effect
effect-IsHeld a h = ground (arith, h)

after_check-IsHeld : (a : App) (c : Checked) → IsHeld a → IsHeld (after_check a c)
unfolding after_check
after_check-IsHeld a unreachable h = h
after_check-IsHeld a nobody h = h
after_check-IsHeld a (somebody u) h =
    effect-IsHeld (record a { user = signed_in u; client = client_for a.client u }) h

on_checked-IsHeld : (a : App) (n : ℕ) (c : Checked) → IsHeld a → IsHeld (on_checked a n c)
on_checked-IsHeld a zero c h = h
on_checked-IsHeld a (suc n) c h = after_check-IsHeld (record a { checks = n }) c h

on_check_timer-IsHeld : (a : App) (n : ℕ) → IsHeld a → IsHeld (on_check_timer a n)
on_check_timer-IsHeld a zero h = h
on_check_timer-IsHeld a (suc n) h = h

on_attempt_timer-IsHeld : (a : App) (n : ℕ) → IsHeld a → IsHeld (on_attempt_timer a n)
on_attempt_timer-IsHeld a zero h = h
on_attempt_timer-IsHeld a (suc n) h = effect-IsHeld (record a { attempt_timers = n }) h

on_token-IsHeld : (a : App) (n : ℕ) (t : Token) → IsHeld a → IsHeld (on_token a n t)
unfolding after_token retry
on_token-IsHeld a zero t h = h
on_token-IsHeld a (suc n) token_throws h = h
on_token-IsHeld a (suc n) no_jwt h = h
on_token-IsHeld a (suc n) (jwt t) h = h

on_connected-IsHeld :
    (a : App) (n : ℕ) (o : Option String) (made : Bool)
    → IsHeld a
    → IsHeld (on_connected a n o made)
unfolding after_connect retry
on_connected-IsHeld a n none made h = h
on_connected-IsHeld a n (some t) false h = h
on_connected-IsHeld a n (some t) true h = ground (arith, h)

logout-IsHeld : (a : App) → IsHeld a → IsHeld (logout a)
unfolding logout
logout-IsHeld a h = ground (arith, h)

step-IsHeld : (a : App) (e : Event) → IsHeld a → IsHeld (step a e)
unfolding step
step-IsHeld a (checked c) h = on_checked-IsHeld a a.checks c h
step-IsHeld a check_again h = on_check_timer-IsHeld a a.check_timers h
step-IsHeld a try_again h = on_attempt_timer-IsHeld a a.attempt_timers h
step-IsHeld a (token t) h = on_token-IsHeld a a.tokens t h
step-IsHeld a (connected n made) h = on_connected-IsHeld a n (get_elem? a.connecting n) made h
step-IsHeld a authenticates h = h
step-IsHeld a logs_out h = logout-IsHeld a h

run-step-IsHeld : (a : App) (es : List Event) → IsHeld a → IsHeld (run a es)
unfolding run
run-step-IsHeld a [] h = h
run-step-IsHeld a (e ∷ es) h = run-step-IsHeld (step a e) es (step-IsHeld a e h)

-- Whatever happens to the page, at most one loop renews the token of the read model, and there is a
-- way to stop it exactly when it runs.
pub run-IsHeld : (es : List Event) → IsHeld (run mounted es)
run-IsHeld es = run-step-IsHeld mounted es refl

-- A page that is connected keeps its connection over a sign-out and the next sign-in, whoever signs
-- in, without an attempt at a new one and without a loop that renews its token.
pub next_user_keeps_connection :
    (es : List Event) (t : String) (u : AuthedUser)
    → (run mounted es).jazz_client ≡ some t
    → let a = run (run mounted es) (logs_out ∷ authenticates ∷ checked (somebody u) ∷ []) in
      (a.jazz_client ≡ some t)
      × (a.client ≡ some u.id)
      × (a.tokens ≡ (run mounted es).tokens)
      × (a.refreshing ≡ 0)
unfolding run step logout after_check effect
next_user_keeps_connection es t u h = go (run mounted es) (run-IsHeld es) h
  where
    go :
        (b : App)
        → IsHeld b
        → b.jazz_client ≡ some t
        → let a = run b (logs_out ∷ authenticates ∷ checked (somebody u) ∷ []) in
          (a.jazz_client ≡ some t)
          × (a.client ≡ some u.id)
          × (a.tokens ≡ b.tokens)
          × (a.refreshing ≡ 0)
    go b held j = ground (arith, held, j)
