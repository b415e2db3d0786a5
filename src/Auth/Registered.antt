-- ===== src/Auth/Registered.antt =====
-- What a registration with packages/server/src/auth.ts comes to.
use akko.Prelude.{
  ◌≡◌, refl, sym, ap, ◌∙◌, String, Bool, true, false, ◌||◌, Option, none, some, List, [], ◌∷◌,
  filter, arith, ◌==◌, eq_iff, if◌then◌else◌, ok,
}
use akko.Domain.{Membership, owner}
use akko.Members.{sql_grant, sql_list_for_principal, sql_role_for}
use akko.Members.Agree.{sql_role_for-sql_grant}
use akko.Auth.{
  AuthUser, Adapter, Tables, Context, on_user_created, registrant, resolve_user, find_or_create,
  create, email_of, name_of, define_payload, claim_of,
}

sql_role_for-granted :
    (workspace : String) (members : List Membership) (user : AuthUser)
    → sql_role_for (on_user_created workspace members user) workspace user.id ≡ some owner
unfolding on_user_created
sql_role_for-granted workspace members user =
    let m : Membership = record {
      workspace_id = workspace;
      principal_id = user.id;
      role = owner;
    } in
    sql_role_for-sql_grant members m workspace user.id
    ∙ ground (arith, eq_iff workspace workspace, eq_iff user.id user.id)

-- A grant to one who has no membership is the only one that is listed.
granted_list :
    (members : List Membership) (m : Membership)
    → filter (λ x. x.principal_id == m.principal_id) members ≡ []
    → filter (λ x. x.principal_id == m.principal_id) (sql_grant members m) ≡ m ∷ []
unfolding sql_grant
granted_list [] m h = ground (arith, eq_iff m.principal_id m.principal_id)
granted_list (x ∷ members) m h = ground (
  arith,
  eq_iff x.workspace_id m.workspace_id,
  eq_iff x.principal_id m.principal_id,
  granted_list members m,
)

module _ {S : Type 0} (adapter : Adapter S) (to_lower : String → String) (workspace : String) where
  abbrev pub has_fields : Context → Bool
  has_fields context =
      if (email_of adapter to_lower workspace context == "")
        || (name_of adapter to_lower workspace context == "")
      then false
      else true

  -- What a registration with both fields does, by what the adapter finds.
  resolve-found :
      (s : Tables S) (context : Context)
      → has_fields context ≡ true
      → resolve_user adapter to_lower workspace s (some (some context))
        ≡ find_or_create adapter to_lower workspace s
            (email_of adapter to_lower workspace context)
            (name_of adapter to_lower workspace context)
            (adapter.find_user_by_email s.users (email_of adapter to_lower workspace context))
  unfolding resolve_user
  resolve-found s context h = ground (arith, h)

  again :
      (s : Tables S) (email n m : String) (o : Option AuthUser)
      → adapter.find_user_by_email s.users email ≡ o
      → let after = find_or_create adapter to_lower workspace s email n o in
        find_or_create adapter to_lower workspace after.0 email m
          (adapter.find_user_by_email after.0.users email)
        ≡ after
  again s email n m (some user) e = ap (find_or_create adapter to_lower workspace s email m) e
  again s email n m none e =
      ap
        (find_or_create adapter to_lower workspace (create adapter to_lower workspace s email n).0
          email m)
        (adapter.found_after_create s.users email n)

  -- After a registration with an email and a name, another one with the same email, by whomever and
  -- under whatever name, comes to the same user, and nothing is created or granted.
  pub same_email_same_user :
      (s : Tables S) (first second : Context)
      → has_fields first ≡ true
      → has_fields second ≡ true
      → email_of adapter to_lower workspace second ≡ email_of adapter to_lower workspace first
      → let after = resolve_user adapter to_lower workspace s (some (some first)) in
        resolve_user adapter to_lower workspace after.0 (some (some second)) ≡ after
  same_email_same_user s first second h k same =
      let email = email_of adapter to_lower workspace in
      let name = name_of adapter to_lower workspace in
      let found = resolve-found s first h in
      let both =
        again s (email first) (name first) (name second)
          (adapter.find_user_by_email s.users (email first)) refl in
      ap (λ x. resolve_user adapter to_lower workspace x.0 (some (some second))) found
      ∙ resolve-found
          (find_or_create adapter to_lower workspace s (email first) (name first)
            (adapter.find_user_by_email s.users (email first))).0
          second k
      ∙ ap
          (λ e.
            find_or_create adapter to_lower workspace
              (find_or_create adapter to_lower workspace s (email first) (name first)
                (adapter.find_user_by_email s.users (email first))).0
              e (name second)
              (adapter.find_user_by_email
                (find_or_create adapter to_lower workspace s (email first) (name first)
                  (adapter.find_user_by_email s.users (email first))).0.users
                e))
          same
      ∙ both
      ∙ sym found

  resolve-new :
      (s : Tables S) (context : Context)
      → has_fields context ≡ true
      → adapter.find_user_by_email s.users (email_of adapter to_lower workspace context) ≡ none
      → resolve_user adapter to_lower workspace s (some (some context))
        ≡ create adapter to_lower workspace s
            (email_of adapter to_lower workspace context)
            (name_of adapter to_lower workspace context)
  resolve-new s context h new =
      resolve-found s context h
      ∙ ap
          (find_or_create adapter to_lower workspace s (email_of adapter to_lower workspace context)
            (name_of adapter to_lower workspace context))
          new

  -- Whoever registers with an email that is not known is made a user, whom the users that are left
  -- give for that email from then on, and an owner of the default workspace, whoever is a member of it
  -- already.
  pub every_newcomer_owns :
      (s : Tables S) (context : Context)
      → has_fields context ≡ true
      → adapter.find_user_by_email s.users (email_of adapter to_lower workspace context) ≡ none
      → let made =
          adapter.create_user s.users
            (email_of adapter to_lower workspace context)
            (name_of adapter to_lower workspace context) in
        let after = resolve_user adapter to_lower workspace s (some (some context)) in
        (after.1 ≡ ok (registrant made.1))
        × (after.0.users ≡ made.0)
        × (adapter.find_user_by_email after.0.users (email_of adapter to_lower workspace context)
            ≡ some made.1)
        × (sql_role_for after.0.members workspace made.1.id ≡ some owner)
  every_newcomer_owns s context h new =
      let made =
        adapter.create_user s.users (email_of adapter to_lower workspace context)
          (name_of adapter to_lower workspace context) in
      let known = resolve-new s context h new in
      (
        ap (λ x. x.1) known,
        ap (λ x. x.0.users) known,
        ap (λ x. adapter.find_user_by_email x.0.users (email_of adapter to_lower workspace context))
              known
            ∙ adapter.found_after_create s.users (email_of adapter to_lower workspace context)
                (name_of adapter to_lower workspace context),
        ap (λ x. sql_role_for x.0.members workspace made.1.id) known
            ∙ sql_role_for-granted workspace s.members made.1,
      )

  -- The token of a new user that had no membership names the default workspace.
  pub newcomer_is_claimed :
      (s : Tables S) (context : Context)
      → has_fields context ≡ true
      → adapter.find_user_by_email s.users (email_of adapter to_lower workspace context) ≡ none
      → let made =
          adapter.create_user s.users
            (email_of adapter to_lower workspace context)
            (name_of adapter to_lower workspace context) in
        sql_list_for_principal s.members made.1.id ≡ []
        → define_payload
            (resolve_user adapter to_lower workspace s (some (some context))).0.members
            made.1.id
          ≡ workspace
  unfolding define_payload on_user_created
  newcomer_is_claimed s context h new none_yet =
      let made =
        adapter.create_user s.users (email_of adapter to_lower workspace context)
          (name_of adapter to_lower workspace context) in
      let m : Membership = record {
        workspace_id = workspace;
        principal_id = made.1.id;
        role = owner;
      } in
      ap (λ x. claim_of (sql_list_for_principal x.0.members made.1.id))
        (resolve-new s context h new)
      ∙ ap claim_of (granted_list s.members m none_yet)
