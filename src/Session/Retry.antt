-- ===== src/Session/Retry.antt =====
-- What packages/runtime/src/session-runtime.ts stores when a `persistEntry` fails.
use akko.Prelude.{ℕ, ◌≡◌, ◌≢◌, String, true, false, [], ◌∷◌, arith, eq_iff, eq_refl}
use akko.Content.{Message}
use akko.Store.{indexed, persist_entry, get_entries}
use akko.Session.{
  Round, new_runtime, capture_message, capture_at, capture, captures, turn_ends, step, run,
}
use akko.Session.Captured.{messages_of}

abbrev pub succeeds : String → ℕ → Round
succeeds id now = record { new_id = id; now = now; persists = true }

abbrev pub fails : String → ℕ → Round
fails id now = record { new_id = id; now = now; persists = false }

-- Two new messages; the second `persistEntry` of the first capture fails, and the next turn's
-- capture succeeds: the first message is stored twice, under two ids.
pub capture_retry_duplicates :
    (sid : String) (first second : Message) (a b c d : String) (now : ℕ)
    → a ≢ c
    → a ≢ d
    → c ≢ d
    → messages_of (
        get_entries
          (run (new_runtime sid (first ∷ second ∷ []) 0 []) (
            turn_ends
            ∷ captures (succeeds a now)
            ∷ captures (succeeds a now)
            ∷ captures (fails b now)
            ∷ turn_ends
            ∷ captures (succeeds c now)
            ∷ captures (succeeds c now)
            ∷ captures (succeeds d now)
            ∷ [])).rows
          sid)
      ≡ first ∷ first ∷ second ∷ []
unfolding run step capture capture_at capture_message persist_entry indexed get_entries
capture_retry_duplicates sid first second a b c d now ac ad cd =
    ground (arith, eq_refl sid, eq_iff a c, eq_iff a d, eq_iff c d)
