-- ===== src/Index.antt =====
-- packages/runtime/src/session-index.ts: the index of session metadata, in memory and over SQLite.
-- The table is its rows in the order of `rowid`; its primary key is what `ON CONFLICT` goes by.
pub mod Memory
pub mod Order
pub mod Agree
mod Tests
use akko.Prelude.{
  ℕ, ◌<◌, String, Bool, true, false, Option, none, some, List, [], ◌∷◌, ◌++◌, map, filter, leb,
  ◌==◌, if◌then◌else◌,
}
use akko.Prelude.JsMap
use akko.Prelude.JsMap.{JsMap}
use akko.Domain.{SessionRef, SessionKind}

-- `InMemorySessionIndex`. Refs are copied in and out, so a value stands for each.
abbrev pub MemoryIndex : Type 0
MemoryIndex = JsMap SessionRef

unfoldable pub upsert_ref : MemoryIndex → SessionRef → MemoryIndex
upsert_ref refs ref = JsMap.put refs ref.id ref

unfoldable pub get_ref : MemoryIndex → String → Option SessionRef
get_ref refs id = JsMap.get refs id

unfoldable pub list_refs : MemoryIndex → String → List SessionRef
list_refs refs workspace = filter (λ r. r.workspace_id == workspace) (JsMap.values refs)

unfoldable pub touch : MemoryIndex → String → ℕ → MemoryIndex
touch refs id updated_at = elim (JsMap.get refs id) [
  | none ↦ refs
  | some ref ↦ JsMap.put refs id (record ref { updated_at = updated_at })
]

-- A row of the table `sessions`: it has no column for the agent type.
pub record SessionRow : Type 0 where
  pub id : String
  pub workspace_id : String
  pub owner_id : String
  pub kind : SessionKind
  pub parent_session_id : Option String
  pub title : Option String
  pub model : Option String
  pub host_node : Option String
  pub created_at : ℕ
  pub updated_at : ℕ

abbrev pub to_row : SessionRef → SessionRow
to_row ref = record {
  id = ref.id;
  workspace_id = ref.workspace_id;
  owner_id = ref.owner_id;
  kind = ref.kind;
  parent_session_id = ref.parent_session_id;
  title = ref.title;
  model = ref.model;
  host_node = ref.host_node;
  created_at = ref.created_at;
  updated_at = ref.updated_at;
}

abbrev pub to_ref : SessionRow → SessionRef
to_ref row = record {
  id = row.id;
  workspace_id = row.workspace_id;
  owner_id = row.owner_id;
  kind = row.kind;
  parent_session_id = row.parent_session_id;
  agent_type = none;
  title = row.title;
  model = row.model;
  host_node = row.host_node;
  created_at = row.created_at;
  updated_at = row.updated_at;
}

-- `ON CONFLICT(id) DO UPDATE SET …`: every column but `id` and `created_at`.
abbrev pub overwrite : SessionRow → SessionRow → SessionRow
overwrite old new = record new { id = old.id; created_at = old.created_at }

-- The statement of `SqliteSessionIndex.upsertRef`.
unfoldable pub upsert_row : List SessionRow → SessionRow → List SessionRow
upsert_row [] new = new ∷ []
upsert_row (row ∷ rows) new =
    if row.id == new.id then overwrite row new ∷ rows else row ∷ upsert_row rows new

unfoldable pub sql_upsert_ref : List SessionRow → SessionRef → List SessionRow
unfolding upsert_row
sql_upsert_ref rows ref = upsert_row rows (to_row ref)

-- `SELECT * FROM sessions WHERE id = ?`
unfoldable pub find_row : List SessionRow → String → Option SessionRow
find_row [] id = none
find_row (row ∷ rows) id = if row.id == id then some row else find_row rows id

abbrev row_to_ref : Option SessionRow → Option SessionRef
row_to_ref none = none
row_to_ref (some row) = some (to_ref row)

unfoldable pub sql_get_ref : List SessionRow → String → Option SessionRef
unfolding find_row
sql_get_ref rows id = row_to_ref (find_row rows id)

-- `ORDER BY updated_at DESC`; rows of one time stay in the order of the table.
unfoldable pub insert_by_time : SessionRow → List SessionRow → List SessionRow
insert_by_time row [] = row ∷ []
insert_by_time row (x ∷ xs) =
    if leb x.updated_at row.updated_at then row ∷ x ∷ xs else x ∷ insert_by_time row xs

unfoldable pub sort_by_time : List SessionRow → List SessionRow
unfolding insert_by_time
sort_by_time [] = []
sort_by_time (row ∷ rows) = insert_by_time row (sort_by_time rows)

unfoldable pub sql_list_refs : List SessionRow → String → List SessionRef
unfolding sort_by_time
sql_list_refs rows workspace =
    map to_ref (sort_by_time (filter (λ row. row.workspace_id == workspace) rows))

-- `UPDATE sessions SET updated_at = ? WHERE id = ?`
unfoldable pub sql_touch : List SessionRow → String → ℕ → List SessionRow
sql_touch [] id updated_at = []
sql_touch (row ∷ rows) id updated_at =
    let rest = sql_touch rows id updated_at in
    if row.id == id then record row { updated_at = updated_at } ∷ rest else row ∷ rest
