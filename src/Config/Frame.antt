-- ===== src/Config/Frame.antt =====
-- A write of packages/runtime/src/workspace-config-store.ts in one workspace leaves the lists of the
-- others alone.
use akko.Prelude.{◌≡◌, refl, ap, ◌≢◌, String, Bool, List, [], ◌∷◌, filter, map, arith, ◌==◌, eq_iff}
use akko.Prelude.Sorting.{sort_by}
use akko.Config.{
  skill_key, agent_type_key, ConfigStore, to_skill, to_skill_row, to_agent_type, hide_row,
  list_skills, list_agent_types, to_agent_type_row,
}
use akko.Config.Table.{HasKey, put_row, update_rows, delete_rows, list_rows, by_name}
use akko.Config.Kept.{
  Call, save_skill, hide_skill, drop_skill, drop_agent_type, save_agent_type, step,
}

module _ {ℓ} {A : Type ℓ} ⦃k : HasKey A⦄ (w : String) where
  abbrev of_workspace : A → Bool
  of_workspace r = k.workspace_of r == w

  filter-put_row :
      (rows : List A) (new : A)
      → k.workspace_of new ≢ w
      → filter of_workspace (put_row rows new) ≡ filter of_workspace rows
  unfolding put_row
  filter-put_row [] new other = ground (arith, eq_iff (k.workspace_of new) w, other)
  filter-put_row (row ∷ rows) new other = ground (
    arith,
    filter-put_row rows new other,
    eq_iff (k.workspace_of row) (k.workspace_of new),
    eq_iff (k.workspace_of row) w,
    eq_iff (k.workspace_of new) w,
    other,
  )

  filter-update_rows :
      (rows : List A) (workspace name : String) (write : A → A)
      → ((r : A) → k.workspace_of (write r) ≡ k.workspace_of r)
      → workspace ≢ w
      → filter of_workspace (update_rows rows workspace name write) ≡ filter of_workspace rows
  unfolding update_rows
  filter-update_rows [] workspace name write keeps other = refl
  filter-update_rows (row ∷ rows) workspace name write keeps other = ground (
    arith,
    filter-update_rows rows workspace name write keeps other,
    keeps row,
    eq_iff (k.workspace_of row) workspace,
    eq_iff (k.workspace_of row) w,
    other,
  )

  filter-delete_rows :
      (rows : List A) (workspace name : String)
      → workspace ≢ w
      → filter of_workspace (delete_rows rows workspace name) ≡ filter of_workspace rows
  unfolding delete_rows
  filter-delete_rows [] workspace name other = refl
  filter-delete_rows (row ∷ rows) workspace name other = ground (
    arith,
    filter-delete_rows rows workspace name other,
    eq_iff (k.workspace_of row) workspace,
    eq_iff (k.workspace_of row) w,
    other,
  )

-- The workspace that a call writes to.
abbrev pub target : Call → String
target (save_skill k now) = k.workspace_id
target (hide_skill workspace name hidden now) = workspace
target (drop_skill workspace name) = workspace
target (drop_agent_type workspace name) = workspace
target (save_agent_type t now) = t.workspace_id

-- A call leaves what is listed for any workspace but its own as it was.
pub other_lists_stay :
    (s : ConfigStore) (c : Call) (w : String)
    → target c ≢ w
    → (list_skills (step s c) w ≡ list_skills s w)
      × (list_agent_types (step s c) w ≡ list_agent_types s w)
unfolding step list_skills list_agent_types list_rows
other_lists_stay s (save_skill k now) w other = (
  ap (λ rows. map to_skill (sort_by by_name rows))
      (filter-put_row w s.skills (to_skill_row k now) other),
  refl,
)
other_lists_stay s (hide_skill workspace name hidden now) w other = (
  ap (λ rows. map to_skill (sort_by by_name rows))
      (filter-update_rows w s.skills workspace name (hide_row hidden now) (λ r. refl) other),
  refl,
)
other_lists_stay s (drop_skill workspace name) w other = (
  ap (λ rows. map to_skill (sort_by by_name rows))
      (filter-delete_rows w s.skills workspace name other),
  refl,
)
other_lists_stay s (drop_agent_type workspace name) w other = (
  refl,
  ap (λ rows. map to_agent_type (sort_by by_name rows))
      (filter-delete_rows w s.agent_types workspace name other),
)
other_lists_stay s (save_agent_type t now) w other = (
  refl,
  ap (λ rows. map to_agent_type (sort_by by_name rows))
      (filter-put_row w s.agent_types (to_agent_type_row t now) other),
)
