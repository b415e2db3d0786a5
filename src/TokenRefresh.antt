-- ===== src/TokenRefresh.antt =====
-- packages/web/src/lib/jazz-token.ts: the renewal of the token of the read model's connection. The
-- clock's time comes with each event; what `getToken` answers, and whether `apply` throws, comes in
-- from outside. `payload` is what base64 and JSON make of the middle of a token: none where they
-- throw, and otherwise its `exp`, if that is a number, which is a natural one.
pub mod Kept
pub mod Delay
mod Tests
use Prim.Native.Nat.{◌%◌, ◌^◌}
use akko.Prelude.{
  ℕ, ◌+◌, ◌-◌, ◌*◌, max, suc, zero, String, Bool, true, false, ◌&&◌, not, Option, none, some, List,
  [], ◌∷◌, ◌++◌, leb, nat_eq, ◌==◌, if◌then◌else◌, truthy,
}
use akko.Prelude.Text.{split, replace_each}

abbrev pub refresh_margin_ms : ℕ
refresh_margin_ms = 60000

abbrev pub min_refresh_delay_ms : ℕ
min_refresh_delay_ms = 5000

abbrev pub default_refresh_ms : ℕ
default_refresh_ms = 600000

-- `token.split(".")[1]`, if it is not empty
abbrev middle : List String → Option String
middle [] = none
middle (head ∷ []) = none
middle (head ∷ part ∷ rest) = if part == "" then none else some part

-- base64 of a URL to base64: `-` to `+`, `_` to `/`
abbrev plain_base64 : String → String
plain_base64 part = replace_each (nat_eq b'_') "/" (replace_each (nat_eq b'-') "+" part)

abbrev in_ms : Option (Option ℕ) → Option ℕ
in_ms none = none
in_ms (some none) = none
in_ms (some (some exp)) = some (exp * 1000)

abbrev pub Payload : Type 0
Payload = String → Option (Option ℕ)

unfoldable pub jwt_expiry_ms : Payload → String → Option ℕ
unfolding split replace_each
jwt_expiry_ms payload token = elim (middle (split b'.' token)) [
  | none ↦ none
  | some part ↦ in_ms (payload (plain_base64 part))
]

abbrev pub delay_for : Option ℕ → ℕ → ℕ
delay_for none now = default_refresh_ms
delay_for (some exp_ms) now = max min_refresh_delay_ms (exp_ms - refresh_margin_ms - now)

-- A negative difference is below the least delay, like the zero that it is here.
unfoldable pub ms_until_refresh : Payload → String → ℕ → ℕ
unfolding jwt_expiry_ms
ms_until_refresh payload token now = delay_for (jwt_expiry_ms payload token) now

pub data Report : Type 0 where
  no_token : Report
  refresh_failed : Report

-- The closure's variables, the requests that wait for an answer, and what has been called.
pub record Refresh : Type 0 where
  -- when the timer that is set fires
  pub timer : Option ℕ
  pub stopped : Bool
  -- none is infinity
  pub next_due_at : Option ℕ
  pub waiting : ℕ
  pub listening : Bool
  pub applied : List String
  pub reported : List Report

-- How long `setTimeout` waits: its delay is taken as a signed number of 32 bits, a negative one as zero.
unfoldable pub timeout_of : ℕ → ℕ
timeout_of delay = let low = delay % 2 ^ 32 in if leb (2 ^ 31) low then 0 else low

unfoldable pub schedule : Refresh → ℕ → ℕ → Refresh
unfolding timeout_of
schedule s now delay =
    if s.stopped
    then s
    else record s { next_due_at = some (now + delay); timer = some (now + timeout_of delay) }

-- `refresh`, up to its wait for the token
unfoldable pub refresh : Refresh → Refresh
refresh s = if s.stopped then s else record s { waiting = s.waiting + 1 }

-- `apply` runs before the next refresh is scheduled; when it throws, `onError` is called.
pub data Fetched : Type 0 where
  token : String → Bool → Fetched
  signed_out : Fetched
  fetch_fails : Fetched

abbrev fail_with : Refresh → Report → ℕ → Refresh
fail_with s report now =
    schedule (record s { reported = s.reported ++ report ∷ [] }) now min_refresh_delay_ms

-- `refresh` from its wait on; an empty token is none.
unfoldable pub finish_refresh : Payload → Refresh → Fetched → ℕ → Refresh
unfolding schedule ms_until_refresh
finish_refresh payload s (token t applies) now =
    if s.stopped
    then s
    else if t == ""
    then fail_with s no_token now
    else if applies
    then schedule (record s { applied = s.applied ++ t ∷ [] }) now (ms_until_refresh payload t now)
    else fail_with s refresh_failed now
finish_refresh payload s signed_out now = if s.stopped then s else fail_with s no_token now
finish_refresh payload s fetch_fails now = fail_with s refresh_failed now

pub data Event : Type 0 where
  -- the page's visibility changes, to visible or not
  visibility : Bool → Event
  timer_fires : Event
  answers : Fetched → Event
  stops : Event

abbrev pub is_due : Option ℕ → ℕ → Bool
is_due none now = false
is_due (some at) now = leb at now

-- `onVisible`
unfoldable pub on_visible : Refresh → Bool → ℕ → Refresh
unfolding refresh
on_visible s visible now = if visible && is_due s.next_due_at now then refresh s else s

-- The timer fires when it is set and its time has come.
unfoldable pub fire_timer : Refresh → ℕ → Refresh
unfolding refresh
fire_timer s now = if is_due s.timer now then refresh (record s { timer = none }) else s

abbrev pub answer_one : Payload → Refresh → Fetched → ℕ → ℕ → Refresh
answer_one payload s fetched now zero = s
answer_one payload s fetched now (suc rest) =
    finish_refresh payload (record s { waiting = rest }) fetched now

unfoldable pub step : Payload → Refresh → Event → ℕ → Refresh
unfolding on_visible fire_timer finish_refresh
step payload s (visibility visible) now = if s.listening then on_visible s visible now else s
step payload s timer_fires now = fire_timer s now
step payload s (answers fetched) now = answer_one payload s fetched now s.waiting
step payload s stops now = record s { stopped = true; timer = none; listening = false }

-- `startJazzTokenRefresh`
unfoldable pub start : Refresh
unfolding refresh
start =
    let s : Refresh = record {
      timer = none;
      stopped = false;
      next_due_at = none;
      waiting = 0;
      listening = true;
      applied = [];
      reported = [];
    } in
    refresh s

unfoldable pub run : Payload → Refresh → List (Event × ℕ) → Refresh
unfolding step
run payload s [] = s
run payload s ((e, now) ∷ es) = run payload (step payload s e now) es
