-- ===== src/Index/Tests.antt =====
-- Runs of the indexes of packages/runtime/src/session-index.ts, and instances of their theorems.
use akko.Prelude.{◌≡◌, refl, none, some, List, [], ◌∷◌, map}
use mathlib.Core.List.{Perm}
use akko.Prelude.JsMap
use akko.Domain.{SessionRef, conversation, subagent}
use akko.Index.{
  upsert_ref, get_ref, list_refs, touch, upsert_row, sql_upsert_ref, find_row, sql_get_ref,
  sort_by_time, insert_by_time, sql_list_refs, sql_touch,
}
use akko.Index.Order.{Descends}
use akko.Index.Agree.{
  Write, upserts, touches, memory_writes, sql_writes, KeepCreation, seen_by_sql, without_agent_type,
  sql_get_ref-agrees, sql_list_refs-agrees,
}

abbrev a_talk : SessionRef
a_talk = record {
  id = "ses_1";
  workspace_id = "wsp_1";
  owner_id = "prn_1";
  kind = conversation;
  parent_session_id = none;
  agent_type = none;
  title = none;
  model = some "ollama/qwen";
  host_node = some "local";
  created_at = 1;
  updated_at = 1;
}

abbrev a_child : SessionRef
a_child = record a_talk {
  id = "ses_2";
  kind = subagent;
  parent_session_id = some "ses_1";
  agent_type = some "researcher";
  created_at = 2;
  updated_at = 2;
}

abbrev writes : List Write
writes = upserts a_talk ∷ upserts a_child ∷ touches "ses_1" 5 ∷ []

writes-KeepCreation : KeepCreation [] writes
unfolding get_ref upsert_ref touch JsMap.get JsMap.put
writes-KeepCreation = ((λ old e. cc), ((λ old e. cc), (tt, tt)))

newest_first :
    sql_list_refs (sql_writes [] writes) "wsp_1"
    ≡ record a_talk { updated_at = 5 } ∷ record a_child { agent_type = none } ∷ []
unfolding sql_list_refs sort_by_time insert_by_time sql_upsert_ref upsert_row sql_touch
newest_first = refl

-- The agent type of a subagent does not come back.
agent_type_is_lost :
    sql_get_ref (sql_writes [] writes) "ses_2" ≡ some (record a_child { agent_type = none })
unfolding sql_get_ref find_row sql_upsert_ref upsert_row sql_touch
agent_type_is_lost = refl

sql_get_ref-agrees_example :
    sql_get_ref (sql_writes [] writes) "ses_2"
    ≡ seen_by_sql (get_ref (memory_writes [] writes) "ses_2")
sql_get_ref-agrees_example = sql_get_ref-agrees writes "ses_2" writes-KeepCreation

sql_list_refs-agrees_example :
    Perm
      (sql_list_refs (sql_writes [] writes) "wsp_1")
      (map without_agent_type (list_refs (memory_writes [] writes) "wsp_1"))
    × Descends (sql_list_refs (sql_writes [] writes) "wsp_1")
sql_list_refs-agrees_example = sql_list_refs-agrees writes "wsp_1" writes-KeepCreation
