-- ===== src/Members/Tests.antt =====
-- Memberships that packages/runtime/src/membership-store.ts keeps, and instances of its theorems.
use akko.Prelude.{◌≡◌, refl, some, List, [], ◌∷◌}
use akko.Domain.{Membership, owner, editor, viewer}
use akko.Members.{role_for, sql_role_for, grant_all, sql_grant_all}
use akko.Members.Agree.{role_for-agrees}

abbrev granted : List Membership
granted =
    record { workspace_id = "ws_1"; principal_id = "prn_1"; role = owner }
    ∷ record { workspace_id = "ws_1"; principal_id = "prn_2"; role = viewer }
    ∷ record { workspace_id = "ws_1"; principal_id = "prn_2"; role = editor }
    ∷ []

role_for-agrees_example :
    (role_for (grant_all [] granted) "ws_1" "prn_2" ≡ some editor)
    × (sql_role_for (sql_grant_all [] granted) "ws_1" "prn_2" ≡ some editor)
role_for-agrees_example = role_for-agrees granted "ws_1" "prn_2" (refl, (refl, (refl, tt)))
