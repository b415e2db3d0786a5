-- ===== src/Session/Captured.antt =====
-- What has been captured by packages/runtime/src/session-runtime.ts at any moment.
use akko.Prelude.{
  ℕ, zero, suc, ◌+◌, ◌≤◌, ◌<◌, ◌≡◌, ◌≢◌, refl, sym, ap, ◌∙◌, String, true, false, Option, none,
  some, List, [], ◌∷◌, ◌++◌, map, append_assoc, append-nil, arith, All, All-append, length,
  length-append, get_elem?, take, or_default, take-snoc, take-suc, take-length, lt_of_get,
  le_of_get_none, Option-cases, inl, inr,
}
use mathlib.Core.List.{map-append}
use mathlib.Core.Path.{subst}
use native.Mathlib.Numerals.{add-one}
use akko.Content.{Message, MessageRole, from_user, from_assistant, from_other}
use akko.Store.{CommittedEntry, EntryRow, indexed, get_entries}
use akko.Store.Laws.{get_entries-persist_new}
use akko.Session.{
  Runtime, Round, new_runtime, actor_for, entry_for, capture_message, capture_at, begin_capture,
  capture, Event, appends, drives, turn_ends, captures, step, run,
}

abbrev pub messages_of : List CommittedEntry → List Message
messages_of = map (λ e. e.entry)

-- Each entry's parent is the entry before it; `p` is what the first one names, `q` the last id.
abbrev pub Linked : Option String → List CommittedEntry → Option String → Type 0
Linked p [] q = p ≡ q
Linked p (e ∷ es) q = (e.parent_id ≡ p) × Linked (some e.id) es q

-- The times rise strictly, from above `t` up to `u`.
abbrev pub Rising : ℕ → List CommittedEntry → ℕ → Type 0
Rising t [] u = t ≤ u
Rising t (e ∷ es) u = (t < e.ts) × Rising e.ts es u

-- Only messages of a user have an actor.
abbrev pub Attributed : CommittedEntry → Type 0
Attributed e = e.entry.role ≢ from_user → e.actor_id ≡ none

Linked-snoc :
    (p q : Option String) (es : List CommittedEntry) (e : CommittedEntry)
    → Linked p es q
    → e.parent_id ≡ q
    → Linked p (es ++ e ∷ []) (some e.id)
Linked-snoc p q [] e l h = (h ∙ sym l, refl)
Linked-snoc p q (x ∷ es) e l h = (l.0, Linked-snoc (some x.id) q es e l.1 h)

Rising-snoc :
    (t u : ℕ) (es : List CommittedEntry) (e : CommittedEntry)
    → Rising t es u
    → u < e.ts
    → Rising t (es ++ e ∷ []) e.ts
Rising-snoc t u [] e r h = (omega arith, omega arith)
Rising-snoc t u (x ∷ es) e r h = (r.0, Rising-snoc x.ts u es e r.1 h)

Rising-weaken : (t u v : ℕ) (es : List CommittedEntry) → Rising t es u → u ≤ v → Rising t es v
Rising-weaken t u v [] r h = omega arith
Rising-weaken t u v (x ∷ es) r h = (r.0, Rising-weaken x.ts u v es r.1 h)

user_has_actor : (r : Runtime) (m : Message) (round : Round) → Attributed (entry_for r m round)
user_has_actor r m round = attributed_role m.role
  where
    attributed_role : (role : MessageRole) → role ≢ from_user → actor_for role r.last_actor ≡ none
    attributed_role from_user h = absurd (h refl)
    attributed_role from_assistant h = refl
    attributed_role from_other h = refl

-- The messages that are dealt with: up to the loop index of a capture that runs.
abbrev pub progress : Runtime → ℕ
progress r = or_default r.running r.persisted_count

-- `old` are the entries that were stored before this runtime began.
pub record IsCaptured (old : List CommittedEntry) (r : Runtime) : Type 0 where
  pub stored : get_entries r.rows r.session_id ≡ old ++ r.published
  pub contents : messages_of (old ++ r.published) ≡ take (progress r) r.messages
  pub within : progress r ≤ length r.messages
  pub linked : Linked none r.published r.last_entry_id
  pub rising : Rising 0 r.published r.last_ts
  pub attributed : All Attributed r.published

-- Every `persistEntry` is fulfilled, and no id that `newEntryId` gives is in use in the session.
abbrev pub IsSmooth : Runtime → Event → Type 0
IsSmooth r (captures round) =
    (round.persists ≡ true) × (indexed r.rows r.session_id round.new_id ≡ false)
IsSmooth r e = Unit

abbrev pub RunsSmoothly : Runtime → List Event → Type 0
RunsSmoothly r [] = Unit
RunsSmoothly r (e ∷ es) = IsSmooth r e × RunsSmoothly (step r e) es

IsCaptured-capture_message :
    (old : List CommittedEntry) (r : Runtime) (i : ℕ) (message : Message) (round : Round)
    → IsCaptured old r
    → r.running ≡ some i
    → get_elem? r.messages i ≡ some message
    → round.persists ≡ true
    → indexed r.rows r.session_id round.new_id ≡ false
    → IsCaptured old (capture_message r i message round)
unfolding capture_message
IsCaptured-capture_message old r i message round v at_i here fine fresh =
    rw (fine, capture_message)
      (record {
        stored =
            get_entries-persist_new r.rows r.session_id e fresh
            ∙ ap (λ l. l ++ e ∷ []) v.stored
            ∙ append_assoc old r.published (e ∷ []);
        contents = contents;
        within = omega (arith, lt_of_get i r.messages message here);
        linked = Linked-snoc none r.last_entry_id r.published e v.linked refl;
        rising = Rising-snoc 0 r.last_ts r.published e v.rising (omega arith);
        attributed =
            All-append Attributed r.published (e ∷ []) v.attributed
              (user_has_actor r message round, tt);
      })
  where
    e : CommittedEntry
    e = entry_for r message round

    contents : messages_of (old ++ (r.published ++ e ∷ [])) ≡ take (i + 1) r.messages
    contents =
        ap messages_of (sym (append_assoc old r.published (e ∷ [])))
        ∙ map-append (λ x. x.entry) (old ++ r.published) (e ∷ [])
        ∙ ap (λ l. l ++ message ∷ [])
            (v.contents ∙ ap (λ o. take (or_default o r.persisted_count) r.messages) at_i)
        ∙ sym (take-suc i r.messages message here)
        ∙ ap (λ n. take n r.messages) (sym (add-one i))

IsCaptured-capture_at :
    (old : List CommittedEntry) (r : Runtime) (i : ℕ) (round : Round)
    → IsCaptured old r
    → r.running ≡ some i
    → round.persists ≡ true
    → indexed r.rows r.session_id round.new_id ≡ false
    → IsCaptured old (capture_at r i round)
unfolding capture_at
IsCaptured-capture_at old r i round v at_i fine fresh =
    elim (Option-cases (get_elem? r.messages i)) [
      | inl e ↦
          rw (e, capture_at)
            (record {
              stored = v.stored;
              contents = v.contents ∙ ap (λ n. take n r.messages) (at_end e);
              within = omega arith;
              linked = v.linked;
              rising = v.rising;
              attributed = v.attributed;
            })
      | inr (message, e) ↦
          rw (e, capture_at) (IsCaptured-capture_message old r i message round v at_i e fine fresh)
    ]
  where
    at_end : get_elem? r.messages i ≡ none → progress r ≡ length r.messages
    at_end e = omega (
      arith,
      le_of_get_none i r.messages e,
      v.within,
      ap (λ o. or_default o r.persisted_count) at_i,
    )

IsCaptured-begin :
    (old : List CommittedEntry) (r : Runtime) (n : ℕ)
    → IsCaptured old r
    → r.running ≡ none
    → IsCaptured old (begin_capture r n)
unfolding begin_capture
IsCaptured-begin old r zero v e = v
IsCaptured-begin old r (suc n) v e = record {
  stored = v.stored;
  contents = v.contents ∙ ap (λ o. take (or_default o r.persisted_count) r.messages) e;
  within = omega (arith, v.within, ap (λ o. or_default o r.persisted_count) e);
  linked = v.linked;
  rising = v.rising;
  attributed = v.attributed;
}

IsCaptured-step :
    (old : List CommittedEntry) (r : Runtime) (e : Event)
    → IsCaptured old r
    → IsSmooth r e
    → IsCaptured old (step r e)
unfolding step capture
IsCaptured-step old r (appends message) v h = record {
  stored = v.stored;
  contents = v.contents ∙ sym (take-snoc (progress r) r.messages message v.within);
  within = omega (arith, v.within, length-append r.messages (message ∷ []));
  linked = v.linked;
  rising = v.rising;
  attributed = v.attributed;
}
IsCaptured-step old r (drives actor) v h = record {
  stored = v.stored;
  contents = v.contents;
  within = v.within;
  linked = v.linked;
  rising = v.rising;
  attributed = v.attributed;
}
IsCaptured-step old r turn_ends v h = record {
  stored = v.stored;
  contents = v.contents;
  within = v.within;
  linked = v.linked;
  rising = v.rising;
  attributed = v.attributed;
}
IsCaptured-step old r (captures round) v h = elim (Option-cases r.running) [
  | inl e ↦
      subst (λ o. IsCaptured old (capture r o round)) (sym e) (IsCaptured-begin old r r.waiting v e)
  | inr (i, e) ↦
      subst (λ o. IsCaptured old (capture r o round)) (sym e)
        (IsCaptured-capture_at old r i round v e h.0 h.1)
]

pub IsCaptured-run :
    (old : List CommittedEntry) (r : Runtime) (es : List Event)
    → IsCaptured old r
    → RunsSmoothly r es
    → IsCaptured old (run r es)
unfolding run
IsCaptured-run old r [] v h = v
IsCaptured-run old r (e ∷ es) v h =
    IsCaptured-run old (step r e) es (IsCaptured-step old r e v h.0) h.1

-- The runtime of a session whose messages are replayed from the store.
abbrev pub rebuilt : String → List EntryRow → Runtime
rebuilt sid rows =
    new_runtime sid (messages_of (get_entries rows sid))
      (length (messages_of (get_entries rows sid))) rows

pub rebuilt-IsCaptured :
    (sid : String) (rows : List EntryRow) → IsCaptured (get_entries rows sid) (rebuilt sid rows)
rebuilt-IsCaptured sid rows = record {
  stored = sym (append-nil _);
  contents = ap messages_of (append-nil _) ∙ sym (take-length _);
  within = omega arith;
  linked = refl;
  rising = omega arith;
  attributed = tt;
}

-- A session that is rebuilt from its stored history, or a new one with none, and then runs on in any
-- way in which every `persistEntry` succeeds and every new id is unused in the session, has stored
-- the old entries and then exactly those that it published; what is stored are the driver's
-- messages up to the point that the capture has reached, each once and in order; of the new entries
-- each names the one before it as its parent, their times rise strictly, and only messages of a user
-- have an actor.
pub run-IsCaptured :
    (sid : String) (rows : List EntryRow) (es : List Event)
    → RunsSmoothly (rebuilt sid rows) es
    → IsCaptured (get_entries rows sid) (run (rebuilt sid rows) es)
run-IsCaptured sid rows es h = IsCaptured-run _ _ es (rebuilt-IsCaptured sid rows) h
