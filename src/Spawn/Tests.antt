-- ===== src/Spawn/Tests.antt =====
-- A batch that packages/runtime/src/subagent-tool.ts runs, and instances of its theorems.
use akko.Prelude.{
  ℕ, ◌≡◌, refl, String, Bool, true, false, not, none, some, List, [], ◌∷◌, filter, arith, is_some,
  ◌==◌, nat_eq, if◌then◌else◌, ok, failed, ◌++◌,
}
use akko.Prelude.Text.{trim}
use akko.Limits.{Limiter, Slot, default_limits, new_limiter, global_full}
use akko.Spawn.{Poll, TaskSpec, UnitRun, got_slot, timed_out, run_one, execute, acquire_slot}
use akko.Spawn.Child.{
  Event, text_delta, agent_end, other_event, timer_fires, signal_aborts, decided, begin_run,
  run_child,
}
use akko.Spawn.Child.Settled.{HasEnded, child_settles_once, said, child_answers}
use akko.Spawn.Waiting.{acquire_slot_ends}
use akko.Spawn.Batch.{throws, all_units_fail, throws_iff_all_units_fail}

-- A limiter without room.
abbrev full : Limiter
full = record (new_limiter default_limits) { total = 8 }

abbrev polls : List Poll
polls =
    record { limiter = full; is_aborted = false; now = 10 }
    ∷ record { limiter = full; is_aborted = false; now = 300 }
    ∷ record { limiter = full; is_aborted = false; now = 600 }
    ∷ []

acquire_slot_ends_example : is_some (acquire_slot "ses_1" none 500 polls) ≡ true
acquire_slot_ends_example =
    acquire_slot_ends "ses_1" none 0 500 2 polls (omega arith, (omega arith, (omega arith, tt)))
      (omega arith) (omega arith)

abbrev slot : Slot
slot = record { parent = "ses_1"; provider = none; released = false }

abbrev good : UnitRun
good = record { slotted = got_slot full slot; spawned = ok "ses_2"; ran = ok "done" }

abbrev late : UnitRun
late = record { slotted = timed_out (global_full 8); spawned = failed "x"; ran = failed "x" }

abbrev runs : ℕ → UnitRun
runs i = if nat_eq i 0 then good else late

abbrev tasks : List TaskSpec
tasks =
    record { task = "read a"; title = none; agent_type = none }
    ∷ record { task = ""; title = none; agent_type = none }
    ∷ record { task = "read b"; title = some "b"; agent_type = none }
    ∷ []

abbrev is_empty : String → Bool
is_empty s = s == ""

one_answer_is_enough : throws (execute is_empty tasks runs) ≡ false
unfolding run_one
one_answer_is_enough = throws_iff_all_units_fail is_empty tasks runs

throws_iff_all_units_fail_example :
    throws (execute is_empty tasks runs)
    ≡ all_units_fail 0 (filter (λ t. not (is_empty t.task)) tasks) runs
throws_iff_all_units_fail_example = throws_iff_all_units_fail is_empty tasks runs

abbrev words : List Event
words = decided true none ∷ text_delta (some " Hel") ∷ other_event ∷ text_delta (some "lo\n") ∷ []

child_settles_once_example :
    let r = run_child 1500 (begin_run true) (words ++ timer_fires ∷ []) in
    (run_child 1500 (begin_run true) (words ++ timer_fires ∷ agent_end ∷ signal_aborts ∷ []) ≡ r)
    × HasEnded r
child_settles_once_example = child_settles_once 1500 true words (agent_end ∷ signal_aborts ∷ [])

child_answers_example :
    (run_child 1500 (begin_run false) (words ++ agent_end ∷ timer_fires ∷ [])).result
    ≡ some (ok (trim (said words)))
child_answers_example =
    child_answers 1500 false words (timer_fires ∷ []) (refl, (tt, (tt, (tt, tt))))
