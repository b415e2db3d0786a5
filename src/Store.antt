-- ===== src/Store.antt =====
-- packages/runtime/src/sqlite-conversation-store.ts over its table `entries`, in the order of `seq`;
-- the unique index on (session_id, entry_id) is what `INSERT OR IGNORE` goes by. A message survives
-- `JSON.stringify` and `JSON.parse`, so a row holds the message itself.
pub mod Laws
mod Tests
use akko.Prelude.{
  ℕ, String, Bool, true, false, Option, none, some, List, [], ◌∷◌, ◌++◌, ◌&&◌, ◌||◌, map, filter,
  length, ◌==◌, if◌then◌else◌,
}
use akko.Content.{Message}

pub record CommittedEntry : Type 0 where
  pub id : String
  pub parent_id : Option String
  pub entry : Message
  pub actor_id : Option String
  pub ts : ℕ

pub record EntryRow : Type 0 where
  pub session_id : String
  pub committed : CommittedEntry

abbrev pub of_session : String → EntryRow → Bool
of_session sid row = row.session_id == sid

abbrev pub is_row : String → String → EntryRow → Bool
is_row sid id row = row.session_id == sid && row.committed.id == id

-- The unique index: is there a row of this session with this id?
unfoldable pub indexed : List EntryRow → String → String → Bool
indexed [] sid id = false
indexed (row ∷ rows) sid id = is_row sid id row || indexed rows sid id

unfoldable pub persist_entry : List EntryRow → String → CommittedEntry → List EntryRow
unfolding indexed
persist_entry rows sid e =
    if indexed rows sid e.id then rows else rows ++ record { session_id = sid; committed = e } ∷ []

unfoldable pub get_entries : List EntryRow → String → List CommittedEntry
get_entries rows sid = map (λ row. row.committed) (filter (of_session sid) rows)

first_actor : List EntryRow → Option String
first_actor [] = none
first_actor (row ∷ rows) = row.committed.actor_id

unfoldable pub get_actor : List EntryRow → String → String → Option String
unfolding first_actor
get_actor rows sid id = first_actor (filter (is_row sid id) rows)

-- `load` replays the payloads into a fresh in-memory session.
pub load : List EntryRow → String → List Message
unfolding get_entries
load rows sid = map (λ e. e.entry) (get_entries rows sid)

pub count_entries : List EntryRow → String → ℕ
count_entries rows sid = length (filter (of_session sid) rows)
