-- ===== src/Members/Agree.antt =====
-- The two stores of packages/runtime/src/membership-store.ts give the same roles.
use akko.Prelude.{
  ◌≡◌, refl, ap, ◌∙◌, String, Bool, true, false, Option, none, some, or_else, List, [], ◌∷◌, arith,
  ◌==◌, eq_iff, if◌then◌else◌, All,
}
use akko.Prelude.JsMap
use akko.Domain.{Membership, Role}
use akko.Members.{
  key, MemoryMembers, grant, role_for, same_pair, sql_grant, sql_role_for, grant_all, sql_grant_all,
}

-- The membership's key is the key of a pair only if it is a membership of that pair.
abbrev pub IsApart : String → String → Membership → Type 0
IsApart workspace principal m =
    (key m.workspace_id m.principal_id == key workspace principal) ≡ same_pair m workspace principal

role_for-grant :
    (members : MemoryMembers) (m : Membership) (workspace principal : String)
    → role_for (grant members m) workspace principal ≡ (
        if key m.workspace_id m.principal_id == key workspace principal
        then some m.role
        else role_for members workspace principal)
unfolding role_for grant
role_for-grant members m workspace principal =
    ground
      (arith, JsMap.get-put members (key m.workspace_id m.principal_id) (key workspace principal) m)

pub sql_role_for-sql_grant :
    (rows : List Membership) (m : Membership) (workspace principal : String)
    → sql_role_for (sql_grant rows m) workspace principal ≡ (
        if same_pair m workspace principal
        then some m.role
        else sql_role_for rows workspace principal)
unfolding sql_role_for sql_grant
sql_role_for-sql_grant [] m workspace principal = refl
sql_role_for-sql_grant (r ∷ rows) m workspace principal = ground (
  arith,
  sql_role_for-sql_grant rows m workspace principal,
  eq_iff r.workspace_id m.workspace_id,
  eq_iff r.principal_id m.principal_id,
  eq_iff r.workspace_id workspace,
  eq_iff r.principal_id principal,
  eq_iff m.workspace_id workspace,
  eq_iff m.principal_id principal,
)

-- The role of the last grant to a pair, if there is one.
abbrev pub last_role : List Membership → String → String → Option Role
last_role [] workspace principal = none
last_role (m ∷ ms) workspace principal =
    or_else (last_role ms workspace principal)
      (if same_pair m workspace principal then some m.role else none)

or_else-last :
    (last now : Option Role) (test : Bool) (role : Role)
    → or_else last (if test then some role else now)
      ≡ or_else (or_else last (if test then some role else none)) now
or_else-last (some last) now test role = refl
or_else-last none now true role = refl
or_else-last none now false role = refl

role_for-grant_all :
    (members : MemoryMembers) (ms : List Membership) (workspace principal : String)
    → All (IsApart workspace principal) ms
    → role_for (grant_all members ms) workspace principal
      ≡ or_else (last_role ms workspace principal) (role_for members workspace principal)
unfolding grant_all
role_for-grant_all members [] workspace principal a = refl
role_for-grant_all members (m ∷ ms) workspace principal a =
    role_for-grant_all (grant members m) ms workspace principal a.1
    ∙ ap (or_else (last_role ms workspace principal))
        (role_for-grant members m workspace principal ∙ rw a.0 refl)
    ∙ or_else-last (last_role ms workspace principal) (role_for members workspace principal)
        (same_pair m workspace principal) m.role

sql_role_for-sql_grant_all :
    (rows ms : List Membership) (workspace principal : String)
    → sql_role_for (sql_grant_all rows ms) workspace principal
      ≡ or_else (last_role ms workspace principal) (sql_role_for rows workspace principal)
unfolding sql_grant_all
sql_role_for-sql_grant_all rows [] workspace principal = refl
sql_role_for-sql_grant_all rows (m ∷ ms) workspace principal =
    sql_role_for-sql_grant_all (sql_grant rows m) ms workspace principal
    ∙ ap (or_else (last_role ms workspace principal))
        (sql_role_for-sql_grant rows m workspace principal)
    ∙ or_else-last (last_role ms workspace principal) (sql_role_for rows workspace principal)
        (same_pair m workspace principal) m.role

or_else-none : (o : Option Role) → or_else o none ≡ o
or_else-none none = refl
or_else-none (some role) = refl

-- After the same grants, each store gives a principal in a workspace the role of the last grant to
-- that pair, and none where no grant is to it. The joined keys of the granted pairs are taken to be
-- told apart from the pair's own wherever the pairs are.
pub role_for-agrees :
    (ms : List Membership) (workspace principal : String)
    → All (IsApart workspace principal) ms
    → (role_for (grant_all [] ms) workspace principal ≡ last_role ms workspace principal)
      × (sql_role_for (sql_grant_all [] ms) workspace principal ≡ last_role ms workspace principal)
unfolding role_for sql_role_for JsMap.get
role_for-agrees ms workspace principal a = (
  role_for-grant_all [] ms workspace principal a ∙ or_else-none _,
  sql_role_for-sql_grant_all [] ms workspace principal ∙ or_else-none _,
)
