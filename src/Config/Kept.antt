-- ===== src/Config/Kept.antt =====
-- The calls of packages/runtime/src/workspace-config-store.ts in any order: the names in a workspace's
-- lists are all different, and in order.
use akko.Prelude.{
  ℕ, ◌≤◌, max, ◌≡◌, refl, ◌∙◌, String, Bool, List, [], ◌∷◌, count, filter, count-map, arith, ◌==◌,
  eq_iff, if◌then◌else◌, All, All-map, All-filter,
}
use akko.Prelude.Sorting.{text_leb, sort_by-All, count-sort_by, IsSorted, IsSorted-map}
use akko.Config.{
  skill_key, agent_type_key, StoredSkill, SkillInput, StoredAgentType, AgentTypeInput, ConfigStore,
  hide_row, to_skill, to_skill_row, to_agent_type, to_agent_type_row, list_skills, upsert_skill,
  set_skill_hidden, delete_skill, list_agent_types, upsert_agent_type, delete_agent_type,
}
use akko.Config.Table.{
  HasKey, is_at, put_row, list_rows, by_name, update_rows, delete_rows, list_rows-IsSorted,
}

module _ {ℓ} {A : Type ℓ} ⦃k : HasKey A⦄ where
  -- The primary key: at most one row at each.
  abbrev pub HasUniqueKeys : List A → Type 0
  HasUniqueKeys rows = (w n : String) → count (is_at w n) rows ≤ 1

  count-put_row :
      (rows : List A) (new : A) (w n : String)
      → count (is_at w n) (put_row rows new)
        ≡ (if is_at w n new then max 1 (count (is_at w n) rows) else count (is_at w n) rows)
  unfolding put_row
  count-put_row [] new w n = ground arith
  count-put_row (row ∷ rows) new w n = ground (
    arith,
    count-put_row rows new w n,
    eq_iff (k.workspace_of row) (k.workspace_of new),
    eq_iff (k.name_of row) (k.name_of new),
    eq_iff (k.workspace_of row) w,
    eq_iff (k.name_of row) n,
    eq_iff (k.workspace_of new) w,
    eq_iff (k.name_of new) n,
  )

  put_row-HasUniqueKeys :
      (rows : List A) (new : A) → HasUniqueKeys rows → HasUniqueKeys (put_row rows new)
  put_row-HasUniqueKeys rows new h w n = ground (arith, h w n, count-put_row rows new w n)

  count-delete_rows :
      (rows : List A) (workspace name w n : String)
      → count (is_at w n) (delete_rows rows workspace name) ≤ count (is_at w n) rows
  unfolding delete_rows
  count-delete_rows [] workspace name w n = omega arith
  count-delete_rows (row ∷ rows) workspace name w n =
      ground (arith, count-delete_rows rows workspace name w n)

  delete_rows-HasUniqueKeys :
      (rows : List A) (workspace name : String)
      → HasUniqueKeys rows
      → HasUniqueKeys (delete_rows rows workspace name)
  delete_rows-HasUniqueKeys rows workspace name h w n =
      omega (arith, h w n, count-delete_rows rows workspace name w n)

  count-update_rows :
      (rows : List A) (workspace name : String) (write : A → A)
      → ((r : A)
          → (k.workspace_of (write r) ≡ k.workspace_of r) × (k.name_of (write r) ≡ k.name_of r))
      → (w n : String)
      → count (is_at w n) (update_rows rows workspace name write) ≡ count (is_at w n) rows
  unfolding update_rows
  count-update_rows [] workspace name write keeps w n = refl
  count-update_rows (row ∷ rows) workspace name write keeps w n =
      ground
        (arith, count-update_rows rows workspace name write keeps w n, (keeps row).0, (keeps row).1)

  -- What a list has of a name is what the table has at the key.
  count-filter :
      (rows : List A) (workspace name : String)
      → count (λ r. k.name_of r == name) (filter (λ r. k.workspace_of r == workspace) rows)
        ≡ count (is_at workspace name) rows
  count-filter [] workspace name = refl
  count-filter (row ∷ rows) workspace name = ground (arith, count-filter rows workspace name)

  count-list_rows :
      (rows : List A) (workspace name : String)
      → count (λ r. k.name_of r == name) (list_rows rows workspace)
        ≡ count (is_at workspace name) rows
  unfolding list_rows
  count-list_rows rows workspace name =
      count-sort_by by_name (λ r. k.name_of r == name)
        (filter (λ r. k.workspace_of r == workspace) rows)
      ∙ count-filter rows workspace name

  list_rows-All :
      (rows : List A) (workspace : String)
      → All (λ r. k.workspace_of r ≡ workspace) (list_rows rows workspace)
  unfolding list_rows
  list_rows-All rows workspace =
      sort_by-All (λ r. k.workspace_of r ≡ workspace) by_name
        (filter (λ r. k.workspace_of r == workspace) rows)
        (All-filter (λ r. k.workspace_of r ≡ workspace) (λ r. k.workspace_of r == workspace) rows
          (λ r h. (eq_iff (k.workspace_of r) workspace).0 h))

-- A call of the store that writes, with the time of the call where it has one.
pub data Call : Type 0 where
  save_skill : SkillInput → ℕ → Call
  hide_skill : String → String → Bool → ℕ → Call
  drop_skill drop_agent_type : String → String → Call
  save_agent_type : AgentTypeInput → ℕ → Call

unfoldable pub step : ConfigStore → Call → ConfigStore
unfolding upsert_skill set_skill_hidden delete_skill upsert_agent_type delete_agent_type
step s (save_skill k now) = upsert_skill s k now
step s (hide_skill workspace name hidden now) = (set_skill_hidden s workspace name hidden now).0
step s (drop_skill workspace name) = (delete_skill s workspace name).0
step s (drop_agent_type workspace name) = (delete_agent_type s workspace name).0
step s (save_agent_type t now) = upsert_agent_type s t now

unfoldable pub run : ConfigStore → List Call → ConfigStore
unfolding step
run s [] = s
run s (c ∷ cs) = run (step s c) cs

abbrev pub empty_store : ConfigStore
empty_store = record { skills = []; agent_types = [] }

abbrev IsKeyed : ConfigStore → Type 0
IsKeyed s = HasUniqueKeys s.skills × HasUniqueKeys s.agent_types

step-IsKeyed : (s : ConfigStore) (c : Call) → IsKeyed s → IsKeyed (step s c)
unfolding step
step-IsKeyed s (save_skill k now) h = (put_row-HasUniqueKeys s.skills (to_skill_row k now) h.0, h.1)
step-IsKeyed s (hide_skill workspace name hidden now) h = (
  λ w n. omega (
    arith,
    h.0 w n,
    count-update_rows s.skills workspace name (hide_row hidden now) (λ r. (refl, refl)) w n,
  ),
  h.1,
)
step-IsKeyed s (drop_skill workspace name) h =
    (delete_rows-HasUniqueKeys s.skills workspace name h.0, h.1)
step-IsKeyed s (drop_agent_type workspace name) h =
    (h.0, delete_rows-HasUniqueKeys s.agent_types workspace name h.1)
step-IsKeyed s (save_agent_type t now) h =
    (h.0, put_row-HasUniqueKeys s.agent_types (to_agent_type_row t now) h.1)

run-IsKeyed : (s : ConfigStore) (cs : List Call) → IsKeyed s → IsKeyed (run s cs)
unfolding run
run-IsKeyed s [] h = h
run-IsKeyed s (c ∷ cs) h = run-IsKeyed (step s c) cs (step-IsKeyed s c h)

abbrev skills_before : StoredSkill → StoredSkill → Bool
skills_before a b = text_leb a.name b.name

abbrev types_before : StoredAgentType → StoredAgentType → Bool
types_before a b = text_leb a.name b.name

abbrev pub IsListing : ConfigStore → String → Type 0
IsListing s workspace =
    All (λ k. k.workspace_id ≡ workspace) (list_skills s workspace)
    × IsSorted skills_before (list_skills s workspace)
    × ((name : String) → count (λ k. k.name == name) (list_skills s workspace) ≤ 1)
    × All (λ t. t.workspace_id ≡ workspace) (list_agent_types s workspace)
    × IsSorted types_before (list_agent_types s workspace)
    × ((name : String) → count (λ t. t.name == name) (list_agent_types s workspace) ≤ 1)

-- After any calls on new tables, the skills and the agent types that are listed for a workspace are
-- the workspace's own, come in the order of their names, and have each name at most once.
pub run-IsListing : (cs : List Call) (workspace : String) → IsListing (run empty_store cs) workspace
unfolding list_skills list_agent_types
run-IsListing cs workspace =
    let s = run empty_store cs in
    let keyed = run-IsKeyed empty_store cs ((λ w n. omega arith), (λ w n. omega arith)) in
    (
      All-map (λ k. k.workspace_id ≡ workspace) to_skill (list_rows s.skills workspace)
          (list_rows-All s.skills workspace),
      IsSorted-map skills_before to_skill (list_rows s.skills workspace)
          (list_rows-IsSorted s.skills workspace),
      (λ name. omega (
        arith,
        count-map (λ k. k.name == name) to_skill (list_rows s.skills workspace),
        count-list_rows s.skills workspace name,
        keyed.0 workspace name,
      )),
      All-map (λ t. t.workspace_id ≡ workspace) to_agent_type (list_rows s.agent_types workspace)
          (list_rows-All s.agent_types workspace),
      IsSorted-map types_before to_agent_type (list_rows s.agent_types workspace)
          (list_rows-IsSorted s.agent_types workspace),
      (λ name. omega (
        arith,
        count-map (λ t. t.name == name) to_agent_type (list_rows s.agent_types workspace),
        count-list_rows s.agent_types workspace name,
        keyed.1 workspace name,
      )),
    )
