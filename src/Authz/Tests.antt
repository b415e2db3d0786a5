-- ===== src/Authz/Tests.antt =====
-- Runs of the policies of packages/core/src/authz.ts, and instances of their theorems.
use akko.Prelude.{◌≡◌, refl, none, some}
use akko.Domain.{user, editor, viewer}
use akko.Authz.{session_create, workspace, AuthorizationContext, deny, role_based}

abbrev an_editor : AuthorizationContext
an_editor = record {
  principal = record { id = "prn_1"; kind = user; display_name = "Ada" };
  role = some editor;
  current_driver = none;
}

abbrev a_viewer : AuthorizationContext
a_viewer = record an_editor { role = some viewer }

viewer_may_not_create :
    role_based a_viewer session_create (workspace "wsp_1") ≡ deny "viewers cannot create sessions"
unfolding role_based
viewer_may_not_create = refl
