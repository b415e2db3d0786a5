-- ===== src/Spawn/Batch.antt =====
-- What a batch of packages/runtime/src/subagent-tool.ts answers.
use akko.Prelude.{
  ℕ, ◌+◌, ◌≤◌, ◌≡◌, refl, ap, ◌∙◌, String, Bool, true, false, not, List, [], ◌∷◌, arith, nat_eq,
  length, filter, ◌&&◌, Bool-cases, inl, inr, Result, ok, failed,
}
use akko.Spawn.{
  TaskSpec, UnitRun, Slotted, got_slot, aborted_wait, timed_out, TaskOutcome, run_one, run_slotted,
  run_from, insert_by_index, sort_by_index, Section, section_of, ToolResult, no_tasks, all_failed,
  finished, failures, answer, answer_to, execute,
}

index-run_one : (spec : TaskSpec) (i : ℕ) (run : UnitRun) → (run_one spec i run).outcome.index ≡ i
unfolding run_one
index-run_one spec i run = by_slot run.slotted run.spawned run.ran
  where
    by_slot :
        (slotted : Slotted) (spawned ran : Result String String)
        → (run_slotted spec i
            (record { slotted = slotted; spawned = spawned; ran = ran })
            slotted).outcome.index
          ≡ i
    by_slot aborted_wait spawned ran = refl
    by_slot (timed_out r) spawned ran = refl
    by_slot (got_slot l slot) (failed e) ran = refl
    by_slot (got_slot l slot) (ok child) (failed e) = refl
    by_slot (got_slot l slot) (ok child) (ok text) = refl

insert-run_from :
    (o : TaskOutcome) (i : ℕ) (tasks : List TaskSpec) (runs : ℕ → UnitRun)
    → o.index ≤ i
    → insert_by_index o (run_from i tasks runs) ≡ o ∷ run_from i tasks runs
unfolding insert_by_index run_from
insert-run_from o i [] runs h = refl
insert-run_from o i (t ∷ ts) runs h = ground (arith, h, index-run_one t i (runs i))

sort-run_from :
    (i : ℕ) (tasks : List TaskSpec) (runs : ℕ → UnitRun)
    → sort_by_index (run_from i tasks runs) ≡ run_from i tasks runs
unfolding sort_by_index run_from
sort-run_from i [] runs = refl
sort-run_from i (t ∷ ts) runs =
    ap (insert_by_index (run_one t i (runs i)).outcome) (sort-run_from (i + 1) ts runs)
    ∙ insert-run_from (run_one t i (runs i)).outcome (i + 1) ts runs
        (let h = index-run_one t i (runs i) in omega arith)

-- The parts of an answer.
abbrev pub sections : ToolResult → List Section
sections no_tasks = []
sections (all_failed n parts) = parts
sections (finished n k parts ids) = parts

-- One part for each task, in the order of the tasks.
abbrev pub sections_from : ℕ → List TaskSpec → (ℕ → UnitRun) → List Section
sections_from i [] runs = []
sections_from i (t ∷ ts) runs =
    section_of (run_one t i (runs i)).outcome ∷ sections_from (i + 1) ts runs

failures_bound : (os : List TaskOutcome) → failures os ≤ length os
failures_bound [] = ground arith
failures_bound (o ∷ os) = ground (arith, failures_bound os)

-- Whether every unit of work fails.
abbrev pub all_units_fail : ℕ → List TaskSpec → (ℕ → UnitRun) → Bool
all_units_fail i [] runs = true
all_units_fail i (t ∷ ts) runs =
    (run_one t i (runs i)).outcome.is_failed && all_units_fail (i + 1) ts runs

failures-run_from :
    (i : ℕ) (tasks : List TaskSpec) (runs : ℕ → UnitRun)
    → nat_eq (failures (run_from i tasks runs)) (length (run_from i tasks runs))
      ≡ all_units_fail i tasks runs
unfolding run_from
failures-run_from i [] runs = refl
failures-run_from i (t ∷ ts) runs =
    ground (arith, failures_bound (run_from (i + 1) ts runs), failures-run_from (i + 1) ts runs)

-- The call of the tool throws: there is nothing to do, or nothing was done.
abbrev pub throws : ToolResult → Bool
throws no_tasks = true
throws (all_failed n parts) = true
throws (finished n k parts ids) = false

throws-answer : (os : List TaskOutcome) → throws (answer os) ≡ nat_eq (failures os) (length os)
throws-answer os = elim (Bool-cases (nat_eq (failures os) (length os))) [
  | inl b ↦ rw (b, answer) refl
  | inr b ↦ rw (b, answer) refl
]

throws-answer_to :
    (tasks : List TaskSpec) (runs : ℕ → UnitRun)
    → throws (answer_to tasks (sort_by_index (run_from 0 tasks runs))) ≡ all_units_fail 0 tasks runs
throws-answer_to [] runs = refl
throws-answer_to (t ∷ ts) runs =
    throws-answer (sort_by_index (run_from 0 (t ∷ ts) runs))
    ∙ ap (λ os. nat_eq (failures os) (length os)) (sort-run_from 0 (t ∷ ts) runs)
    ∙ failures-run_from 0 (t ∷ ts) runs

-- A batch throws exactly when every unit of work of a task that is not blank fails: one that succeeds
-- is enough for an answer, and where there is no task at all there is none to succeed.
pub throws_iff_all_units_fail :
    (is_blank : String → Bool) (specs : List TaskSpec) (runs : ℕ → UnitRun)
    → throws (execute is_blank specs runs)
      ≡ all_units_fail 0 (filter (λ t. not (is_blank t.task)) specs) runs
unfolding execute
throws_iff_all_units_fail is_blank specs runs =
    throws-answer_to (filter (λ t. not (is_blank t.task)) specs) runs
