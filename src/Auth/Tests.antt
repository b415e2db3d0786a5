-- ===== src/Auth/Tests.antt =====
-- Registrations with packages/server/src/auth.ts at a small adapter, and its theorems there.
use Prim.Native.String
use akko.Prelude.{
  ◌≡◌, refl, String, true, none, some, List, [], ◌∷◌, find, arith, ◌==◌, eq_iff, ok, failed,
}
use akko.Prelude.Text.{trim}
use akko.Domain.{owner}
use akko.Members.{sql_role_for}
use akko.Auth.{
  AuthUser, Adapter, Tables, Context, registrant, resolve_user, after_verification, define_payload,
}
use akko.Auth.Registered.{has_fields, same_email_same_user, every_newcomer_owns}

abbrev user : String → String → AuthUser
user email name = record { id = String.◌++◌ "prn_" email; name = name; email = email }

first_found : (u : AuthUser) (s : List AuthUser) → find (λ x. x.email == u.email) (u ∷ s) ≡ some u
first_found u s = ground (arith, eq_iff u.email u.email)

abbrev users : Adapter (List AuthUser)
users = record {
  find_user_by_email = λ s email. find (λ u. u.email == email) s;
  create_user = λ s email name. (user email name ∷ s, user email name);
  create_session = λ s id. (s, some "session");
  find_user_by_id = λ s id. find (λ u. u.id == id) s;
  found_after_create = λ s email name. first_found (user email name) s;
}

abbrev tables : Tables (List AuthUser)
tables = record { users = user "a@x" "Ann" ∷ []; members = [] }

abbrev lower : String → String
lower s = s

abbrev context : String → String → Context
context email name = record { name = some name; email = some email }

nameless : (resolve_user users lower "wsp_dev" tables none).1 ≡ failed "name and email are required"
unfolding resolve_user
nameless = refl

session_kept : (after_verification users lower "wsp_dev" tables.users true "prn_a@x").1 ≡ none
unfolding after_verification
session_kept = refl

bob_claims :
    define_payload
      (resolve_user users lower "wsp_dev" tables (some (some (context " b@x" "Bob")))).0.members
      "prn_b@x"
    ≡ "wsp_dev"
unfolding define_payload resolve_user
bob_claims = refl

bob_has_fields : has_fields users lower "wsp_dev" (context "b@x" "Bob") ≡ true
unfolding trim
bob_has_fields = refl

eve_has_fields : has_fields users lower "wsp_dev" (context "b@x" "Eve") ≡ true
unfolding trim
eve_has_fields = refl

same_email_same_user_example :
    let after = resolve_user users lower "wsp_dev" tables (some (some (context "b@x" "Bob"))) in
    resolve_user users lower "wsp_dev" after.0 (some (some (context "b@x" "Eve"))) ≡ after
same_email_same_user_example =
    same_email_same_user users lower "wsp_dev" tables (context "b@x" "Bob") (context "b@x" "Eve")
      bob_has_fields eve_has_fields refl

every_newcomer_owns_example :
    let after = resolve_user users lower "wsp_dev" tables (some (some (context "b@x" "Bob"))) in
    (after.1 ≡ ok (registrant (user "b@x" "Bob")))
    × (after.0.users ≡ user "b@x" "Bob" ∷ tables.users)
    × (users.find_user_by_email after.0.users "b@x" ≡ some (user "b@x" "Bob"))
    × (sql_role_for after.0.members "wsp_dev" "prn_b@x" ≡ some owner)
unfolding trim
every_newcomer_owns_example =
    every_newcomer_owns users lower "wsp_dev" tables (context "b@x" "Bob") bob_has_fields refl
