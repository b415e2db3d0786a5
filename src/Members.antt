-- ===== src/Members.antt =====
-- packages/runtime/src/membership-store.ts: who belongs to which workspace, in memory and over SQLite.
-- The table is its rows; its primary key, the pair, is what `ON CONFLICT` goes by.
pub mod Agree
mod Tests
use Prim.Native.String
use akko.Prelude.{
  String, Bool, true, false, ◌&&◌, Option, none, some, List, [], ◌∷◌, map, filter, ◌==◌,
  if◌then◌else◌,
}
use akko.Prelude.JsMap
use akko.Prelude.JsMap.{JsMap}
use akko.Domain.{Membership, Role}

-- The key of a pair: the two ids with a character between them.
abbrev pub key : String → String → String
key workspace principal = String.◌++◌ workspace (String.◌++◌ "\0" principal)

abbrev pub MemoryMembers : Type 0
MemoryMembers = JsMap Membership

unfoldable pub grant : MemoryMembers → Membership → MemoryMembers
grant members m = JsMap.put members (key m.workspace_id m.principal_id) m

abbrev pub role_of : Option Membership → Option Role
role_of none = none
role_of (some m) = some m.role

unfoldable pub role_for : MemoryMembers → String → String → Option Role
role_for members workspace principal = role_of (JsMap.get members (key workspace principal))

unfoldable pub list_for_principal : MemoryMembers → String → List Membership
list_for_principal members principal =
    filter (λ m. m.principal_id == principal) (JsMap.values members)

unfoldable pub list_for_workspace : MemoryMembers → String → List Membership
list_for_workspace members workspace =
    filter (λ m. m.workspace_id == workspace) (JsMap.values members)

abbrev pub same_pair : Membership → String → String → Bool
same_pair m workspace principal = (m.workspace_id == workspace) && (m.principal_id == principal)

-- `INSERT … ON CONFLICT(workspace_id, principal_id) DO UPDATE SET role = excluded.role`
unfoldable pub sql_grant : List Membership → Membership → List Membership
sql_grant [] new = new ∷ []
sql_grant (m ∷ rows) new =
    if same_pair m new.workspace_id new.principal_id
    then record m { role = new.role } ∷ rows
    else m ∷ sql_grant rows new

-- `SELECT role … WHERE workspace_id = ? AND principal_id = ?`
unfoldable pub sql_role_for : List Membership → String → String → Option Role
sql_role_for [] workspace principal = none
sql_role_for (m ∷ rows) workspace principal =
    if same_pair m workspace principal then some m.role else sql_role_for rows workspace principal

unfoldable pub sql_list_for_principal : List Membership → String → List Membership
sql_list_for_principal rows principal = filter (λ m. m.principal_id == principal) rows

unfoldable pub sql_list_for_workspace : List Membership → String → List Membership
sql_list_for_workspace rows workspace = filter (λ m. m.workspace_id == workspace) rows

-- Grants, one after the other, on each store.
unfoldable pub grant_all : MemoryMembers → List Membership → MemoryMembers
unfolding grant
grant_all members [] = members
grant_all members (m ∷ ms) = grant_all (grant members m) ms

unfoldable pub sql_grant_all : List Membership → List Membership → List Membership
sql_grant_all rows [] = rows
sql_grant_all rows (m ∷ ms) = sql_grant_all (sql_grant rows m) ms
