-- ===== src/Store/Tests.antt =====
-- Runs of packages/runtime/src/sqlite-conversation-store.ts, and instances of its theorems.
use akko.Prelude.{◌≡◌, refl, false, none, some, List, [], ◌∷◌}
use akko.Content.{from_user, from_assistant, plain}
use akko.Store.{CommittedEntry, EntryRow, indexed, persist_entry, get_entries}
use akko.Store.Laws.{persist_all, get_entries-persist_all}

abbrev question : CommittedEntry
question = record {
  id = "e1";
  parent_id = none;
  entry = record { role = from_user; content = plain "hi" };
  actor_id = some "prn_1";
  ts = 10;
}

abbrev answer : CommittedEntry
answer = record {
  id = "e2";
  parent_id = some "e1";
  entry = record { role = from_assistant; content = plain "hello" };
  actor_id = none;
  ts = 11;
}

abbrev table : List EntryRow
table = persist_entry (persist_entry [] "ses_1" question) "ses_2" question

history : get_entries (persist_entry table "ses_1" answer) "ses_1" ≡ question ∷ answer ∷ []
unfolding persist_entry get_entries
history = refl

answer_is_new : indexed table "ses_1" "e2" ≡ false
unfolding indexed persist_entry
answer_is_new = refl

-- Another session's entry of the same id is kept, and a second one of the session's own is not.
get_entries-persist_all_example :
    get_entries
      (persist_all table
        (("ses_3", question) ∷ ("ses_2", answer) ∷ ("ses_1", answer) ∷ ("ses_2", answer) ∷ []))
      "ses_2"
    ≡ question ∷ answer ∷ []
unfolding persist_entry get_entries
get_entries-persist_all_example =
    get_entries-persist_all table "ses_2"
      (("ses_3", question) ∷ ("ses_2", answer) ∷ ("ses_1", answer) ∷ ("ses_2", answer) ∷ [])
