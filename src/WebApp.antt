-- ===== src/WebApp.antt =====
-- packages/web/src/App.svelte: the sign-in of the page, its connection to the read model, and the
-- renewal of that connection's token. The state is the component's variables and what is in flight;
-- the answers to what it waits for come as events. The effect runs again when what it read changes.
pub mod Sidebar
pub mod Refreshing
mod Tests
use akko.Prelude.{
  ℕ, zero, suc, ◌+◌, ◌-◌, String, Bool, true, false, ◌&&◌, not, Option, none, some, is_some, List,
  [], ◌∷◌, get_elem?, if◌then◌else◌,
}

pub record AuthedUser : Type 0 where
  pub id : String
  pub name : String
  pub email : String

-- `undefined`, `null` or a user
pub data Session : Type 0 where
  checking signed_out : Session
  signed_in : AuthedUser → Session

pub data JazzError : Type 0 where
  no_token unavailable : JazzError

pub record App : Type 0 where
  pub user : Session
  -- the principal of the client of commands
  pub client : Option String
  -- the token that the client of the read model was created with
  pub jazz_client : Option String
  pub jazz_error : Option JazzError
  -- whether `stopTokenRefresh` is set, and how many loops of renewals run
  pub has_stop : Bool
  pub refreshing : ℕ
  -- sessions being checked, and the timers that check again
  pub checks : ℕ
  pub check_timers : ℕ
  -- attempts that wait for a token, those that wait for a connection, and the timers of the next
  pub tokens : ℕ
  pub connecting : List String
  pub attempt_timers : ℕ

-- On mounting, a check starts; nobody is known to be signed in, and the effect does nothing.
abbrev pub mounted : App
mounted = record {
  user = checking;
  client = none;
  jazz_client = none;
  jazz_error = none;
  has_stop = false;
  refreshing = 0;
  checks = 1;
  check_timers = 0;
  tokens = 0;
  connecting = [];
  attempt_timers = 0;
}

-- `$effect`: an attempt, if someone is signed in and there is no connection.
abbrev wants_connection : Session → Option String → Bool
wants_connection (signed_in u) none = true
wants_connection session jazz = false

unfoldable pub effect : App → App
effect a = if wants_connection a.user a.jazz_client then record a { tokens = suc a.tokens } else a

-- What a check comes to: the backend is out of reach, nobody, or a user.
pub data Checked : Type 0 where
  unreachable nobody : Checked
  somebody : AuthedUser → Checked

abbrev pub client_for : Option String → AuthedUser → Option String
client_for none u = some u.id
client_for (some id) u = some id

-- `refreshSession`, from its wait on
unfoldable pub after_check : App → Checked → App
unfolding effect
after_check a unreachable = record a { check_timers = suc a.check_timers }
after_check a nobody = record a { user = signed_out }
after_check a (somebody u) =
    effect (record a { user = signed_in u; client = client_for a.client u })

-- What `getJazzToken` comes to.
pub data Token : Type 0 where
  token_throws no_jwt : Token
  jwt : String → Token

unfoldable pub retry : App → App
retry a = record a { jazz_error = some unavailable; attempt_timers = suc a.attempt_timers }

unfoldable pub after_token : App → Token → App
unfolding retry
after_token a token_throws = retry a
after_token a no_jwt = record a { jazz_error = some no_token }
after_token a (jwt t) = record a { connecting = t ∷ a.connecting }

-- `stopTokenRefresh?.()`, and the loop that it stops
abbrev pub stop_refresh : App → App
stop_refresh a =
    if a.has_stop then record a { has_stop = false; refreshing = a.refreshing - 1 } else a

abbrev start_refresh : App → App
start_refresh a = record a { has_stop = true; refreshing = suc a.refreshing }

-- The new connection is the page's, whatever has happened since.
unfoldable pub after_connect : App → String → Bool → App
unfolding retry
after_connect a t true =
    start_refresh (stop_refresh (record a { jazz_error = none; jazz_client = some t }))
after_connect a t false = retry a

-- `logout`, with the answer of `signOut` taken to come at once
unfoldable pub logout : App → App
logout a = record (stop_refresh a) { client = none; user = signed_out }

pub data Event : Type 0 where
  checked : Checked → Event
  check_again try_again : Event
  token : Token → Event
  -- the attempt of that number among those that wait is connected, or fails
  connected : ℕ → Bool → Event
  -- the form of the sign-in is done
  authenticates logs_out : Event

-- An event that waits for nothing that is in flight does not come.
abbrev pub on_checked : App → ℕ → Checked → App
on_checked a zero c = a
on_checked a (suc n) c = after_check (record a { checks = n }) c

abbrev pub on_check_timer : App → ℕ → App
on_check_timer a zero = a
on_check_timer a (suc n) = record a { check_timers = n; checks = suc a.checks }

abbrev pub on_attempt_timer : App → ℕ → App
on_attempt_timer a zero = a
on_attempt_timer a (suc n) = effect (record a { attempt_timers = n })

abbrev pub on_token : App → ℕ → Token → App
on_token a zero t = a
on_token a (suc n) t = after_token (record a { tokens = n }) t

abbrev remove_at : ℕ → List String → List String
remove_at n [] = []
remove_at zero (t ∷ ts) = ts
remove_at (suc n) (t ∷ ts) = t ∷ remove_at n ts

abbrev pub on_connected : App → ℕ → Option String → Bool → App
on_connected a n none made = a
on_connected a n (some t) made =
    after_connect (record a { connecting = remove_at n a.connecting }) t made

unfoldable pub step : App → Event → App
unfolding after_check effect after_token after_connect logout
step a (checked c) = on_checked a a.checks c
step a check_again = on_check_timer a a.check_timers
step a try_again = on_attempt_timer a a.attempt_timers
step a (token t) = on_token a a.tokens t
step a (connected n made) = on_connected a n (get_elem? a.connecting n) made
step a authenticates = record a { checks = suc a.checks }
step a logs_out = logout a

unfoldable pub run : App → List Event → App
unfolding step
run a [] = a
run a (e ∷ es) = run (step a e) es
