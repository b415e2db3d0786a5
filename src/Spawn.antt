-- ===== src/Spawn.antt =====
-- packages/runtime/src/subagent-tool.ts: the wait for a slot, one unit of work, and a batch of units.
-- What the rest of the program does in between comes in from outside: the limiter, the clock and the
-- abort signal at each poll, and what a child session makes of its task. The answer's text is
-- modelled by its parts; `is_blank` is the test that a trimmed text is empty.
pub mod Child
pub mod Progress
pub mod Waiting
pub mod Batch
mod Tests
use akko.Prelude.{
  ℕ, ◌+◌, String, Bool, true, false, not, Option, none, some, or_else, or_default, List, [], ◌∷◌,
  filter, length, map, leb, ltb, ◌==◌, nat_eq, if◌then◌else◌, Result, ok, failed,
}
use akko.Limits.{Limiter, Slot, Admission, admitted, refused, Refusal, admit, release}

-- What `acquireSlot` meets each time around its loop.
pub record Poll : Type 0 where
  pub limiter : Limiter
  pub is_aborted : Bool
  pub now : ℕ

pub data Slotted : Type 0 where
  got_slot : Limiter → Slot → Slotted
  aborted_wait : Slotted
  timed_out : Refusal → Slotted

abbrev pub poll_again : Poll → ℕ → Limiter × Admission → Option Slotted → Option Slotted
poll_again p deadline (l, admitted s) rest = some (got_slot l s)
poll_again p deadline (l, refused r) rest =
    if p.is_aborted
    then some aborted_wait
    else if leb deadline p.now
    then some (timed_out r)
    else rest

-- The loop over the polls that there are; `none` is a wait that is not over.
unfoldable pub acquire_slot : String → Option String → ℕ → List Poll → Option Slotted
acquire_slot parent provider deadline [] = none
acquire_slot parent provider deadline (p ∷ ps) =
    let rest = acquire_slot parent provider deadline ps in
    poll_again p deadline (admit p.limiter parent 1 provider) rest

pub record TaskSpec : Type 0 where
  pub task : String
  pub title : Option String
  pub agent_type : Option String

-- What a unit meets: how its wait for a slot ends, the child that is spawned or the error, and what
-- the child says or the error.
pub record UnitRun : Type 0 where
  pub slotted : Slotted
  pub spawned : Result String String
  pub ran : Result String String

pub data Output : Type 0 where
  not_started : Slotted → Output
  says : String → Output
  failed_with : String → Output

pub record TaskOutcome : Type 0 where
  pub index : ℕ
  pub title : Option String
  pub output : Output
  pub is_failed : Bool
  pub session_id : Option String

-- The outcome of a unit, the slot that it gives back, and the child that it evicts.
pub record UnitEnd : Type 0 where
  pub outcome : TaskOutcome
  pub given_back : Option Slot
  pub evicted : Option String

abbrev outcome_of : TaskSpec → ℕ → Output → Bool → Option String → TaskOutcome
outcome_of spec index output is_failed session_id = record {
  index = index;
  title = spec.title;
  output = output;
  is_failed = is_failed;
  session_id = session_id;
}

abbrev child_outcome : TaskSpec → ℕ → String → Result String String → TaskOutcome
child_outcome spec index child (ok text) =
    outcome_of spec index (says (if text == "" then "(no output)" else text)) false (some child)
child_outcome spec index child (failed e) = outcome_of spec index (failed_with e) true (some child)

-- The `try` and its `finally`.
abbrev with_slot : TaskSpec → ℕ → Slot → Result String String → Result String String → UnitEnd
with_slot spec index slot (failed e) ran = record {
  outcome = outcome_of spec index (failed_with e) true none;
  given_back = some slot;
  evicted = none;
}
with_slot spec index slot (ok child) ran = record {
  outcome = child_outcome spec index child ran;
  given_back = some slot;
  evicted = some child;
}

abbrev run_slotted : TaskSpec → ℕ → UnitRun → Slotted → UnitEnd
run_slotted spec index run (got_slot l slot) = with_slot spec index slot run.spawned run.ran
run_slotted spec index run slotted = record {
  outcome = outcome_of spec index (not_started slotted) true none;
  given_back = none;
  evicted = none;
}

unfoldable pub run_one : TaskSpec → ℕ → UnitRun → UnitEnd
run_one spec index run = run_slotted spec index run run.slotted

-- `Promise.all`: the outcomes come in the order of the tasks.
unfoldable pub run_from : ℕ → List TaskSpec → (ℕ → UnitRun) → List TaskOutcome
unfolding run_one
run_from i [] runs = []
run_from i (spec ∷ specs) runs = (run_one spec i (runs i)).outcome ∷ run_from (i + 1) specs runs

-- `outcomes.sort((a, b) => a.index - b.index)`
unfoldable pub insert_by_index : TaskOutcome → List TaskOutcome → List TaskOutcome
insert_by_index o [] = o ∷ []
insert_by_index o (x ∷ xs) =
    let rest = insert_by_index o xs in if leb o.index x.index then o ∷ x ∷ xs else x ∷ rest

unfoldable pub sort_by_index : List TaskOutcome → List TaskOutcome
unfolding insert_by_index
sort_by_index [] = []
sort_by_index (o ∷ os) = insert_by_index o (sort_by_index os)

-- One part of the answer: `## title (failed)`, or the number of a task without one, and its output.
pub record Section : Type 0 where
  pub heading : Option String
  pub number : ℕ
  pub is_failed : Bool
  pub output : Output

abbrev pub section_of : TaskOutcome → Section
section_of o = record {
  heading = o.title;
  number = o.index + 1;
  is_failed = o.is_failed;
  output = o.output;
}

abbrev pub present_ids : List (Option String) → List String
present_ids [] = []
present_ids (none ∷ ids) = present_ids ids
present_ids (some id ∷ ids) = id ∷ present_ids ids

pub data ToolResult : Type 0 where
  no_tasks : ToolResult
  all_failed : ℕ → List Section → ToolResult
  -- how many finished, how many of these failed, the parts, and the sessions
  finished : ℕ → ℕ → List Section → List String → ToolResult

abbrev pub failures : List TaskOutcome → ℕ
failures outcomes = length (filter (λ o. o.is_failed) outcomes)

abbrev answer : List TaskOutcome → ToolResult
answer outcomes =
    if nat_eq (failures outcomes) (length outcomes)
    then all_failed (failures outcomes) (map section_of outcomes)
    else finished (length outcomes) (failures outcomes) (map section_of outcomes)
        (present_ids (map (λ o. o.session_id) outcomes))

abbrev answer_to : List TaskSpec → List TaskOutcome → ToolResult
answer_to [] outcomes = no_tasks
answer_to (spec ∷ specs) outcomes = answer outcomes

unfoldable pub execute : (String → Bool) → List TaskSpec → (ℕ → UnitRun) → ToolResult
unfolding run_from sort_by_index
execute is_blank specs runs =
    let tasks = filter (λ t. not (is_blank t.task)) specs in
    answer_to tasks (sort_by_index (run_from 0 tasks runs))
