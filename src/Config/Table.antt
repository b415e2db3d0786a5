-- ===== src/Config/Table.antt =====
-- The statements of packages/runtime/src/workspace-config-store.ts on a table whose primary key is a
-- workspace and a name.
use akko.Prelude.{
  ◌≡◌, refl, String, Bool, false, ◌&&◌, ◌||◌, Option, none, some, List, [], ◌∷◌, filter, find,
  arith, ◌==◌, eq_iff, if◌then◌else◌, is_some, ◌∙◌,
}
use akko.Prelude.Sorting.{
  text_leb, text_leb_refl, text_leb_total, text_leb_trans, sort_by, IsSorted, sort_by-IsSorted,
  find-sort_by,
}
use mathlib.Core.Option

-- What the key of a row is.
pub record HasKey {ℓ} (A : Type ℓ) : Type ℓ where
  pub workspace_of : A → String
  pub name_of : A → String

module _ {ℓ} {A : Type ℓ} ⦃k : HasKey A⦄ where
  -- `WHERE workspace_id = ? AND name = ?`
  abbrev pub is_at : String → String → A → Bool
  is_at workspace name row = (k.workspace_of row == workspace) && (k.name_of row == name)

  -- `INSERT … ON CONFLICT(workspace_id, name) DO UPDATE SET`, where every other column is written.
  unfoldable pub put_row : List A → A → List A
  put_row [] new = new ∷ []
  put_row (row ∷ rows) new =
      if is_at (k.workspace_of new) (k.name_of new) row then new ∷ rows else row ∷ put_row rows new

  unfoldable pub update_rows : List A → String → String → (A → A) → List A
  update_rows [] workspace name write = []
  update_rows (row ∷ rows) workspace name write =
      let rest = update_rows rows workspace name write in
      if is_at workspace name row then write row ∷ rest else row ∷ rest

  unfoldable pub delete_rows : List A → String → String → List A
  delete_rows [] workspace name = []
  delete_rows (row ∷ rows) workspace name =
      let rest = delete_rows rows workspace name in
      if is_at workspace name row then rest else row ∷ rest

  -- Whether a statement at the key changes a row: `changes > 0`.
  unfoldable pub owns : List A → String → String → Bool
  owns [] workspace name = false
  owns (row ∷ rows) workspace name = is_at workspace name row || owns rows workspace name

  -- `ORDER BY name`
  abbrev pub by_name : A → A → Bool
  by_name a b = text_leb (k.name_of a) (k.name_of b)

  -- `SELECT … WHERE workspace_id = ? ORDER BY name`
  unfoldable pub list_rows : List A → String → List A
  unfolding sort_by text_leb
  list_rows rows workspace = sort_by by_name (filter (λ r. k.workspace_of r == workspace) rows)

  -- The first row at a key.
  unfoldable pub row_at : List A → String → String → Option A
  row_at rows workspace name = find (is_at workspace name) rows

  pub row_at-put_row :
      (rows : List A) (new : A) (workspace name : String)
      → row_at (put_row rows new) workspace name
        ≡ (if is_at workspace name new then some new else row_at rows workspace name)
  unfolding put_row row_at
  row_at-put_row [] new workspace name = refl
  row_at-put_row (row ∷ rows) new workspace name = ground (
    arith,
    row_at-put_row rows new workspace name,
    eq_iff (k.workspace_of row) (k.workspace_of new),
    eq_iff (k.name_of row) (k.name_of new),
    eq_iff (k.workspace_of row) workspace,
    eq_iff (k.name_of row) name,
    eq_iff (k.workspace_of new) workspace,
    eq_iff (k.name_of new) name,
  )

  pub row_at-delete_rows :
      (rows : List A) (workspace name w n : String)
      → row_at (delete_rows rows workspace name) w n
        ≡ (if (workspace == w) && (name == n) then none else row_at rows w n)
  unfolding delete_rows row_at
  row_at-delete_rows [] workspace name w n = ground arith
  row_at-delete_rows (row ∷ rows) workspace name w n = ground (
    arith,
    row_at-delete_rows rows workspace name w n,
    eq_iff (k.workspace_of row) workspace,
    eq_iff (k.name_of row) name,
    eq_iff (k.workspace_of row) w,
    eq_iff (k.name_of row) n,
    eq_iff workspace w,
    eq_iff name n,
  )

  pub owns-row_at :
      (rows : List A) (workspace name : String)
      → owns rows workspace name ≡ is_some (row_at rows workspace name)
  unfolding owns row_at
  owns-row_at [] workspace name = refl
  owns-row_at (row ∷ rows) workspace name = ground (arith, owns-row_at rows workspace name)

  pub row_at-update_rows :
      (rows : List A) (workspace name : String) (write : A → A)
      → ((r : A)
          → (k.workspace_of (write r) ≡ k.workspace_of r) × (k.name_of (write r) ≡ k.name_of r))
      → (w n : String)
      → row_at (update_rows rows workspace name write) w n ≡ (
          if (workspace == w) && (name == n)
          then Option.map write (row_at rows w n)
          else row_at rows w n)
  unfolding update_rows row_at
  row_at-update_rows [] workspace name write keeps w n = ground arith
  row_at-update_rows (row ∷ rows) workspace name write keeps w n = ground (
    arith,
    row_at-update_rows rows workspace name write keeps w n,
    (keeps row).0,
    (keeps row).1,
    eq_iff (k.workspace_of row) workspace,
    eq_iff (k.name_of row) name,
    eq_iff (k.workspace_of row) w,
    eq_iff (k.name_of row) n,
    eq_iff workspace w,
    eq_iff name n,
  )

  find-filter :
      (rows : List A) (workspace name : String)
      → find (λ r. k.name_of r == name) (filter (λ r. k.workspace_of r == workspace) rows)
        ≡ row_at rows workspace name
  unfolding row_at
  find-filter [] workspace name = refl
  find-filter (row ∷ rows) workspace name = ground (arith, find-filter rows workspace name)

  -- Whatever order the rows are listed in, the row of a name in the list is the one at the key.
  pub find-list_rows :
      (rows : List A) (workspace name : String)
      → find (λ r. k.name_of r == name) (list_rows rows workspace) ≡ row_at rows workspace name
  unfolding list_rows
  find-list_rows rows workspace name =
      find-sort_by by_name (λ r. k.name_of r == name)
        (λ a b h j. ground (
          arith,
          eq_iff (k.name_of a) name,
          eq_iff (k.name_of b) name,
          text_leb_refl (k.name_of a),
        ))
        (filter (λ r. k.workspace_of r == workspace) rows)
      ∙ find-filter rows workspace name

  pub list_rows-IsSorted :
      (rows : List A) (workspace : String) → IsSorted by_name (list_rows rows workspace)
  unfolding list_rows
  list_rows-IsSorted rows workspace =
      sort_by-IsSorted by_name (λ a b h. text_leb_total (k.name_of a) (k.name_of b) h)
        (λ a b c h j. text_leb_trans (k.name_of a) (k.name_of b) (k.name_of c) h j)
        (filter (λ r. k.workspace_of r == workspace) rows)
