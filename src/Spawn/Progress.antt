-- ===== src/Spawn/Progress.antt =====
-- packages/runtime/src/subagent-tool.ts: the arguments that the tool accepts, and the progress that a
-- batch reports on the bus.
use akko.Prelude.{
  ℕ, zero, suc, ◌+◌, ◌≤◌, ◌≡◌, refl, ◌∙◌, ap, String, Option, none, some, or_default, List, [], ◌∷◌,
  length, arith, get_elem?,
}
use akko.Spawn.{TaskSpec}

-- What a call of the tool brings, of the fields that are looked at; `task` only if it is a text.
pub record ToolArgs : Type 0 where
  pub tasks : Option (List TaskSpec)
  pub task : Option String
  pub title : Option String
  pub model : Option String

abbrev single : Option String → ToolArgs → ToolArgs
single none args = args
single (some task) args = record {
  tasks = some (record { task = task; title = args.title; agent_type = none } ∷ []);
  task = none;
  title = none;
  model = args.model;
}

-- One task is also accepted outside a list.
unfoldable pub prepare_arguments : ToolArgs → ToolArgs
prepare_arguments args = elim args.tasks [ some tasks ↦ args | none ↦ single args.task args ]

pub data Label : Type 0 where
  one_of : String → Label
  -- `n subagents`
  many : ℕ → Label

abbrev pub label_of : List TaskSpec → Label
label_of (spec ∷ []) = one_of (or_default spec.title "subagent")
label_of specs = many (length specs)

-- An event `progress` of the parent's session.
pub record Progress : Type 0 where
  pub label : Label
  pub done : ℕ
  pub total : ℕ

-- The reports of the units that end, with `done` already counted.
unfoldable pub reports_from : Label → ℕ → ℕ → ℕ → List Progress
reports_from label total done zero = []
reports_from label total done (suc ends) =
    record { label = label; done = done + 1; total = total }
    ∷ reports_from label total (done + 1) ends

-- All that a batch reports: one at the start and one for each unit that has ended.
unfoldable pub reports : List TaskSpec → ℕ → List Progress
unfolding reports_from
reports specs ends =
    let label = label_of specs in
    record { label = label; done = 0; total = length specs }
    ∷ reports_from label (length specs) 0 ends

reports_from-get :
    (label : Label) (total done ends i : ℕ)
    → suc i ≤ ends
    → get_elem? (reports_from label total done ends) i
      ≡ some (record { label = label; done = done + suc i; total = total })
unfolding reports_from
reports_from-get label total done zero i h = absurd (omega arith)
reports_from-get label total done (suc ends) zero h = refl
reports_from-get label total done (suc ends) (suc i) h =
    reports_from-get label total (done + 1) ends i (omega arith)
    ∙ ap (λ n. some (record { label = label; done = n; total = total })) (omega arith)

-- The report after `i` ends of units says that `i` of all the batch's tasks are done.
pub reports_count :
    (specs : List TaskSpec) (ends i : ℕ)
    → i ≤ ends
    → get_elem? (reports specs ends) i
      ≡ some (record { label = label_of specs; done = i; total = length specs })
unfolding reports
reports_count specs ends zero h = refl
reports_count specs ends (suc i) h =
    reports_from-get (label_of specs) (length specs) 0 ends i h
    ∙ ap (λ n. some (record { label = label_of specs; done = n; total = length specs }))
        (omega arith)
