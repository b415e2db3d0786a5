-- ===== src/Gateway/OverRegistry.antt =====
-- The registry of packages/runtime/src/session-registry.ts, with the mailboxes of its runtimes and the
-- table of entries, as the sessions that packages/server/src/gateway.ts is given. Each request of the
-- gateway is served before the next one.
use akko.Prelude.{
  ℕ, ◌+◌, ◌*◌, ◌≡◌, ap, String, Option, none, some, List, [], ◌∷◌, nat_eq, replicate, if◌then◌else◌,
  Result, ok, failed,
}
use akko.Domain.{SessionRef, Command, Workspace}
use akko.Authz.{Decision, AuthorizationPolicy}
use akko.Index
use akko.Store
use akko.Store.{CommittedEntry, EntryRow}
use akko.Mailbox
use akko.Mailbox.{
  Mailbox, MailboxResult, QueueItem, Outcome, returned, posts, resumes, run, new_mailbox, reject,
}
use akko.Permission.{authorize}
use akko.Auth.{Tables}
use akko.Registry.{
  Deps, Failure, unknown_session, Live, Registry, call_projector, ensure_session, ensure_projected,
  workspace_runtime, stale_skill_sessions,
}
use akko.Registry.Opening
use akko.Registry.Closing
use akko.Registry.Gets.{get-unknown}
use akko.Registry.Indexed.{IsIndexed}
use akko.Gateway.{Sessions}

-- The state behind the gateway: `U` are the users of the sign-in.
pub record Served (U : Type 0) : Type 0 where
  pub registry : Registry
  pub entries : List EntryRow
  -- the mailbox of a runtime, by its number
  pub boxes : ℕ → Mailbox
  pub tables : Tables U

abbrev pub empty_boxes : ℕ → Mailbox
empty_boxes n = new_mailbox

abbrev pub answer_to : ℕ → List (QueueItem × MailboxResult) → MailboxResult
answer_to ticket [] = reject "not settled"
answer_to ticket ((item, result) ∷ settled) =
    let rest = answer_to ticket settled in if nat_eq item.ticket ticket then result else rest

-- The command is posted, and the mailbox drained: a command takes at most two resumptions.
abbrev pub post_to_box :
    (QueueItem → Outcome Decision) → (QueueItem → Outcome (Unit {0})) → Mailbox → Command → Mailbox
post_to_box answer apply m c =
    run answer apply m (posts c ∷ replicate (2 * (Mailbox.size m + 2)) resumes)

module _ {U : Type 0} where
  abbrev pub with_registry : Served U → Registry → Served U
  with_registry s r = record s { registry = r }

  -- A call that may throw.
  abbrev pub told :
      {A : Type 0}
      → (Failure → String)
      → Served U
      → Registry × Result Failure A
      → Served U × Result String A
  told text_of s (r, failed e) = (with_registry s r, failed (text_of e))
  told text_of s (r, ok x) = (with_registry s r, ok x)

  abbrev pub write_box : Served U → ℕ → Mailbox → Served U
  write_box s n m = record s { boxes = λ k. if nat_eq k n then m else s.boxes k }

  abbrev pub ref_of : Served U × Result String Live → Served U × Result String SessionRef
  ref_of (s, failed e) = (s, failed e)
  ref_of (s, ok l) = (s, ok l.ref)

  abbrev pub history_of :
      Deps
      → (Failure → String)
      → Served U
      → String
      → Option SessionRef
      → Served U × Result String (List CommittedEntry)
  history_of d text_of s sid none = (s, failed (text_of (unknown_session sid)))
  history_of d text_of s sid (some ref) = (
    with_registry s (call_projector d s.registry (ensure_session ref)),
    ok (Store.get_entries s.entries sid),
  )

module _ (U : Type 0) (d : Deps) (text_of : Failure → String) (policy : AuthorizationPolicy)
    (apply : Live → QueueItem → Outcome (Unit {0})) (catalog : String → List String)
    (new_id : String) (now : ℕ) where
  abbrev pub get : Served U → String → Served U × Result String Live
  get s sid = told text_of s (Opening.get d s.registry sid)

  abbrev pub post : Served U → Live → Command → Served U × MailboxResult
  post s l c =
      let before = s.boxes l.runtime in
      let after =
        post_to_box (λ item. returned (authorize policy (some s.tables.members) l.ref item.command))
          (apply l) before c in
      (write_box s l.runtime after, answer_to before.next_ticket after.settled)

  abbrev pub create_conversation :
      Served U → String → String → Option String → Served U × Result String SessionRef
  create_conversation s w p title = ref_of (
      told text_of s (
        Opening.create_conversation d s.registry
          (record { workspace_id = w; owner_id = p; title = title; model = none }) new_id now))

  abbrev catalog_of : Served U → Result String Workspace → Result String (List String)
  catalog_of s (failed e) = failed e
  catalog_of s (ok w) = ok (catalog w.id)

  abbrev pub list_models : Served U → String → Served U × Result String (List String)
  list_models s w =
      let known = told text_of s (workspace_runtime d s.registry w) in
      (known.0, catalog_of known.0 known.1)

  pub get-unknown_session :
      (s : Served U) (sid : String)
      → IsIndexed s.registry
      → Index.get_ref s.registry.index sid ≡ none
      → get s sid ≡ (s, failed (text_of (unknown_session sid)))
  unfolding Index.get_ref
  get-unknown_session s sid v n = ap (told text_of s) (get-unknown d s.registry sid (v sid n) n)

  -- The sessions of the gateway are those of the registry, valid where its live sessions are in its
  -- index.
  abbrev pub registry_sessions : Sessions (Served U) Live
  registry_sessions = record {
    get_ref = λ s sid. Index.get_ref s.registry.index sid;
    get = get;
    post = post;
    create_conversation = create_conversation;
    list = λ s w p. ok (Closing.list s.registry w);
    ensure_projected = λ s sid. with_registry s (ensure_projected d s.registry sid).0;
    get_entries = λ s sid. history_of d text_of s sid (Index.get_ref s.registry.index sid);
    list_models = list_models;
    stale_sessions = λ s w. stale_skill_sessions s.registry w;
    is_valid = λ s. IsIndexed s.registry;
    get_unknown = λ s sid v n. (text_of (unknown_session sid), get-unknown_session s sid v n);
    entries_unknown = λ s sid n. (text_of (unknown_session sid), ap (history_of d text_of s sid) n);
  }
