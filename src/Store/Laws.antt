-- ===== src/Store/Laws.antt =====
-- What packages/runtime/src/sqlite-conversation-store.ts promises of its table of entries.
use akko.Prelude.{
  ◌≡◌, refl, ap, String, true, false, List, [], ◌∷◌, ◌++◌, ◌&&◌, ◌||◌, map, filter, filter-append,
  append-nil, arith, ◌==◌, eq_refl, eq_iff, Bool, ◌∙◌, if◌then◌else◌, Bool-cases, inl, inr,
}
use mathlib.Core.List.{map-append}
use akko.Store.{
  CommittedEntry, EntryRow, of_session, indexed, persist_entry, get_entries, get_actor,
}

abbrev row_of : String → CommittedEntry → EntryRow
row_of sid e = record { session_id = sid; committed = e }

get_entries-snoc :
    (rows : List EntryRow) (sid t : String) (e : CommittedEntry)
    → get_entries (rows ++ row_of sid e ∷ []) t
      ≡ (if sid == t then get_entries rows t ++ e ∷ [] else get_entries rows t)
unfolding get_entries
get_entries-snoc rows sid t e = elim (Bool-cases (sid == t)) [
  | inl same ↦
      rw (filter-append (of_session t) rows (row_of sid e ∷ []), same)
        (map-append (λ row. row.committed) (filter (of_session t) rows) (row_of sid e ∷ []))
  | inr other ↦
      rw (filter-append (of_session t) rows (row_of sid e ∷ []), other)
        (ap (map (λ row. row.committed)) (append-nil _))
]

abbrev pub has_id : List CommittedEntry → String → Bool
has_id [] id = false
has_id (e ∷ es) id = e.id == id || has_id es id

indexed-has_id :
    (rows : List EntryRow) (sid id : String)
    → indexed rows sid id ≡ has_id (get_entries rows sid) id
unfolding indexed get_entries
indexed-has_id [] sid id = refl
indexed-has_id (row ∷ rows) sid id = ground (arith, indexed-has_id rows sid id)

-- A history with one more entry, where it has none of that id.
abbrev pub add_first : List CommittedEntry → CommittedEntry → List CommittedEntry
add_first es e = if has_id es e.id then es else es ++ e ∷ []

-- Entries, with the sessions that they are persisted for, one after the other.
abbrev pub persist_all : List EntryRow → List (String × CommittedEntry) → List EntryRow
persist_all rows [] = rows
persist_all rows ((sid, e) ∷ ws) = persist_all (persist_entry rows sid e) ws

-- A history after the entries that are for its session.
abbrev pub first_entries :
    String → List CommittedEntry → List (String × CommittedEntry) → List CommittedEntry
first_entries t es [] = es
first_entries t es ((sid, e) ∷ ws) = first_entries t (if sid == t then add_first es e else es) ws

get_entries-persist_entry :
    (rows : List EntryRow) (sid t : String) (e : CommittedEntry)
    → get_entries (persist_entry rows sid e) t ≡ (
        if indexed rows sid e.id
        then get_entries rows t
        else if sid == t
        then get_entries rows t ++ e ∷ []
        else get_entries rows t)
unfolding persist_entry
get_entries-persist_entry rows sid t e = elim (Bool-cases (indexed rows sid e.id)) [
  | inl b ↦ rw b
  | inr b ↦ rw b (get_entries-snoc rows sid t e)
]

get_entries-persist_first :
    (rows : List EntryRow) (sid t : String) (e : CommittedEntry)
    → get_entries (persist_entry rows sid e) t
      ≡ (if sid == t then add_first (get_entries rows t) e else get_entries rows t)
get_entries-persist_first rows sid t e =
    ground
      (arith, get_entries-persist_entry rows sid t e, indexed-has_id rows sid e.id, eq_iff sid t)

-- Whatever entries are persisted, for whatever sessions and in any order, the history of a session
-- gains those that are for it, in the order in which they come, each only where its history has no
-- entry of the same id at that time; the entries of other sessions, of the same ids too, neither add
-- to it nor keep anything out of it.
pub get_entries-persist_all :
    (rows : List EntryRow) (t : String) (ws : List (String × CommittedEntry))
    → get_entries (persist_all rows ws) t ≡ first_entries t (get_entries rows t) ws
get_entries-persist_all rows t [] = refl
get_entries-persist_all rows t ((sid, e) ∷ ws) =
    get_entries-persist_all (persist_entry rows sid e) t ws
    ∙ ap (λ es. first_entries t es ws) (get_entries-persist_first rows sid t e)

indexed-snoc :
    (rows : List EntryRow) (sid : String) (e : CommittedEntry) (t id : String)
    → indexed (rows ++ row_of sid e ∷ []) t id ≡ (indexed rows t id || (sid == t && e.id == id))
unfolding indexed
indexed-snoc [] sid e t id = ground arith
indexed-snoc (row ∷ rows) sid e t id = ground (arith, indexed-snoc rows sid e t id)

pub indexed-persist_entry :
    (rows : List EntryRow) (sid : String) (e : CommittedEntry)
    → indexed (persist_entry rows sid e) sid e.id ≡ true
unfolding persist_entry
indexed-persist_entry rows sid e =
    ground (arith, indexed-snoc rows sid e sid e.id, eq_refl sid, eq_refl e.id)

persist_entry_known :
    (rows : List EntryRow) (sid : String) (e : CommittedEntry)
    → indexed rows sid e.id ≡ true
    → persist_entry rows sid e ≡ rows
unfolding persist_entry
persist_entry_known rows sid e h = rw h

-- Persisting an entry a second time changes nothing.
pub persist_entry_twice :
    (rows : List EntryRow) (sid : String) (e : CommittedEntry)
    → persist_entry (persist_entry rows sid e) sid e ≡ persist_entry rows sid e
persist_entry_twice rows sid e =
    persist_entry_known (persist_entry rows sid e) sid e (indexed-persist_entry rows sid e)

get_actor-snoc :
    (rows : List EntryRow) (sid : String) (e : CommittedEntry)
    → indexed rows sid e.id ≡ false
    → get_actor (rows ++ row_of sid e ∷ []) sid e.id ≡ e.actor_id
unfolding get_actor indexed
get_actor-snoc [] sid e h = ground (arith, eq_refl sid, eq_refl e.id)
get_actor-snoc (row ∷ rows) sid e h = ground (arith, get_actor-snoc rows sid e)

-- The attribution of an entry whose id is new to its session can be read back.
pub get_actor-persist_entry :
    (rows : List EntryRow) (sid : String) (e : CommittedEntry)
    → indexed rows sid e.id ≡ false
    → get_actor (persist_entry rows sid e) sid e.id ≡ e.actor_id
unfolding persist_entry
get_actor-persist_entry rows sid e h = rw h (get_actor-snoc rows sid e h)

-- A new entry is added at the end of its own session's history.
pub get_entries-persist_new :
    (rows : List EntryRow) (sid : String) (e : CommittedEntry)
    → indexed rows sid e.id ≡ false
    → get_entries (persist_entry rows sid e) sid ≡ get_entries rows sid ++ e ∷ []
get_entries-persist_new rows sid e h =
    rw (get_entries-persist_entry rows sid sid e, h, eq_refl sid) refl
