-- ===== src/WebApp/Tests.antt =====
-- Runs of packages/web/src/App.svelte and of its components, and their theorems there.
use akko.Prelude.{◌≡◌, refl, true, none, some, List, [], ◌∷◌}
use akko.WebApp.{
  App, mounted, AuthedUser, Event, checked, somebody, unreachable, check_again, try_again, token,
  jwt, no_jwt, token_throws, connected, authenticates, logs_out, run,
}
use akko.WebApp.Refreshing.{IsHeld, run-IsHeld, next_user_keeps_connection}
use akko.WebApp.Sidebar.{SessionListItem, Renaming, commit, send, on_rename_key, escape}

abbrev ann : AuthedUser
ann = record { id = "ann"; name = "Ann"; email = "a@x" }

abbrev bob : AuthedUser
bob = record { id = "bob"; name = "Bob"; email = "b@x" }

-- The backend and the read model are out of reach at first.
abbrev morning : List Event
morning =
    checked unreachable
    ∷ check_again
    ∷ checked (somebody ann)
    ∷ token token_throws
    ∷ try_again
    ∷ token (jwt "t1")
    ∷ connected 0 true
    ∷ []

connected_at_last : (run mounted morning).jazz_client ≡ some "t1"
unfolding run
connected_at_last = refl

abbrev without_token : App
without_token = run mounted (checked (somebody ann) ∷ token no_jwt ∷ [])

-- Without a token nothing is tried again.
no_token_gives_up :
    (without_token.jazz_client ≡ none)
    × (without_token.tokens ≡ 0)
    × (without_token.attempt_timers ≡ 0)
    × (without_token.checks ≡ 0)
unfolding run
no_token_gives_up = (refl, refl, refl, refl)

run-IsHeld_example : IsHeld (run mounted morning)
run-IsHeld_example = run-IsHeld morning

next_user_keeps_connection_example :
    let a = run (run mounted morning) (logs_out ∷ authenticates ∷ checked (somebody bob) ∷ []) in
    (a.jazz_client ≡ some "t1")
    × (a.client ≡ some "bob")
    × (a.tokens ≡ (run mounted morning).tokens)
    × (a.refreshing ≡ 0)
next_user_keeps_connection_example = next_user_keeps_connection morning "t1" bob connected_at_last

abbrev items : List SessionListItem
items = record { id = "ses_1"; title = some "Old" } ∷ record { id = "ses_2"; title = none } ∷ []

abbrev editing : Renaming
editing = record { editing_id = some "ses_1"; draft = " New " }

unchanged_is_cancelled :
    (commit items (record { editing_id = some "ses_1"; draft = "Old " })).1 ≡ none
unfolding commit
unchanged_is_cancelled = refl

escape_cancels : (on_rename_key items editing escape).1 ≡ none
unfolding on_rename_key
escape_cancels = refl

blank_is_kept : send "  " ≡ ("  ", none)
unfolding send
blank_is_kept = refl
