-- ===== src/Projector/Rows.antt =====
-- The rows that packages/server/src/jazz-projector.ts writes of canonical entries, live and again.
use Prim.Native.String
use akko.Prelude.{
  ◌+◌, ◌≡◌, refl, sym, ap, ◌∙◌, String, Option, none, some, or_else, List, [], ◌∷◌, ◌++◌, map,
  arith, ◌==◌, if◌then◌else◌, Bool-cases, inl, inr,
}
use akko.Prelude.JsMap
use akko.Prelude.JsMap.{JsMap}
use akko.Prelude.JsSet
use akko.Content.{
  ToolCall, MessageRole, from_user, from_assistant, from_other, text_of_content,
  tool_calls_of_content,
}
use akko.Store.{CommittedEntry}
use akko.ReadModel.{MessageRow, RowRole, user_row, assistant_row, tool_row}
use akko.Turn.{has_label}
use akko.Projector.{Projector, message_row, put_message, drop_turn, retire, turn_of, receives}
use akko.Projector.Calls.{
  message_row_id, project_message, project_role, project_entry, rebuild, on_entry, on_entry_role,
  after_entry, write_activity, clear_activity, run, step,
}

-- The later write of a key is the one that is read.
put_all : JsMap MessageRow → List (String × MessageRow) → JsMap MessageRow
put_all m [] = m
put_all m (w ∷ ws) = put_all (JsMap.put m w.0 w.1) ws

last_write : List (String × MessageRow) → String → Option MessageRow
last_write [] k = none
last_write (w ∷ ws) k = or_else (last_write ws k) (if w.0 == k then some w.1 else none)

get-put_all :
    (m : JsMap MessageRow) (ws : List (String × MessageRow)) (k : String)
    → JsMap.get (put_all m ws) k ≡ or_else (last_write ws k) (JsMap.get m k)
unfolding put_all last_write
get-put_all m [] k = refl
get-put_all m (w ∷ ws) k =
    ground (arith, get-put_all (JsMap.put m w.0 w.1) ws k, JsMap.get-put m w.0 k w.1)

put_all-append :
    (m : JsMap MessageRow) (us ws : List (String × MessageRow))
    → put_all m (us ++ ws) ≡ put_all (put_all m us) ws
unfolding put_all
put_all-append m [] ws = refl
put_all-append m (u ∷ us) ws = put_all-append (JsMap.put m u.0 u.1) us ws

get-put_all_twice :
    (m : JsMap MessageRow) (ws : List (String × MessageRow)) (k : String)
    → JsMap.get (put_all (put_all m ws) ws) k ≡ JsMap.get (put_all m ws) k
get-put_all_twice m ws k = ground (arith, get-put_all (put_all m ws) ws k, get-put_all m ws k)

shown_write : String → MessageRow → List (String × MessageRow)
shown_write id row = if row.text == "" then [] else (id, row) ∷ []

put_message-messages :
    (p : Projector) (id : String) (row : MessageRow)
    → put_message p id row ≡ record p { messages = put_all p.messages (shown_write id row) }
unfolding put_message shown_write put_all
put_message-messages p id row = elim (Bool-cases (row.text == "")) [
  | inl b ↦ rw b refl
  | inr b ↦ rw b refl
]

module _ (stable_id : String → String) (describe_tool_call : ToolCall → String) where
  message_writes : Projector → String → CommittedEntry → RowRole → List (String × MessageRow)
  message_writes p sid e role =
      shown_write (message_row_id stable_id describe_tool_call sid e.id)
        (message_row p sid e role (text_of_content e.entry.content) e.ts)
      ++ shown_write (message_row_id stable_id describe_tool_call sid (String.◌++◌ e.id ":tools")) (
          message_row p sid e tool_row (tool_calls_of_content describe_tool_call e.entry.content)
            (e.ts + 1))

  role_writes : Projector → String → CommittedEntry → MessageRole → List (String × MessageRow)
  role_writes p sid e from_user = message_writes p sid e user_row
  role_writes p sid e from_assistant = message_writes p sid e assistant_row
  role_writes p sid e from_other = []

  writes : Projector → String → List CommittedEntry → List (String × MessageRow)
  writes p sid [] = []
  writes p sid (e ∷ es) = role_writes p sid e e.entry.role ++ writes p sid es

  project_message-messages :
      (p : Projector) (sid : String) (e : CommittedEntry) (role : RowRole)
      → project_message stable_id describe_tool_call p sid e role
        ≡ record p { messages = put_all p.messages (message_writes p sid e role) }
  unfolding project_message message_writes
  project_message-messages p sid e role =
      let text_id = message_row_id stable_id describe_tool_call sid e.id in
      let text_row = message_row p sid e role (text_of_content e.entry.content) e.ts in
      let tools_id = message_row_id stable_id describe_tool_call sid (String.◌++◌ e.id ":tools") in
      let tools = tool_calls_of_content describe_tool_call e.entry.content in
      let tools_row = message_row p sid e tool_row tools (e.ts + 1) in
      put_message-messages (put_message p text_id text_row) tools_id tools_row
      ∙ ap {A = Projector}
          (λ q. record q { messages = put_all q.messages (shown_write tools_id tools_row) })
          (put_message-messages p text_id text_row)
      ∙ ap (λ m. record p { messages = m })
          (sym (
            put_all-append p.messages (shown_write text_id text_row)
              (shown_write tools_id tools_row)))

  project_role-messages :
      (p : Projector) (sid : String) (e : CommittedEntry) (role : MessageRole)
      → project_role stable_id describe_tool_call p sid e role
        ≡ record p { messages = put_all p.messages (role_writes p sid e role) }
  unfolding project_role role_writes put_all
  project_role-messages p sid e from_user = project_message-messages p sid e user_row
  project_role-messages p sid e from_assistant = project_message-messages p sid e assistant_row
  project_role-messages p sid e from_other = refl

  project_entry-messages :
      (p : Projector) (sid : String) (e : CommittedEntry)
      → project_entry stable_id describe_tool_call p sid e
        ≡ record p { messages = put_all p.messages (role_writes p sid e e.entry.role) }
  unfolding project_entry
  project_entry-messages p sid e = project_role-messages p sid e e.entry.role

  role_writes-workspace_of :
      (p q : Projector) (sid : String) (e : CommittedEntry) (role : MessageRole)
      → q.workspace_of ≡ p.workspace_of
      → role_writes q sid e role ≡ role_writes p sid e role
  unfolding role_writes message_writes
  role_writes-workspace_of p q sid e from_user h = rw h refl
  role_writes-workspace_of p q sid e from_assistant h = rw h refl
  role_writes-workspace_of p q sid e from_other h = refl

  -- The writes of a session's entries hang on its workspace only.
  writes-workspace_of :
      (p q : Projector) (sid : String) (es : List CommittedEntry)
      → q.workspace_of ≡ p.workspace_of
      → writes q sid es ≡ writes p sid es
  unfolding writes
  writes-workspace_of p q sid [] h = refl
  writes-workspace_of p q sid (e ∷ es) h =
      rw (role_writes-workspace_of p q sid e e.entry.role h, writes-workspace_of p q sid es h) refl

  rebuild-messages :
      (p : Projector) (sid : String) (es : List CommittedEntry)
      → rebuild stable_id describe_tool_call p sid es
        ≡ record p { messages = put_all p.messages (writes p sid es) }
  unfolding rebuild writes put_all
  rebuild-messages p sid [] = refl
  rebuild-messages p sid (e ∷ es) =
      let m = put_all p.messages (role_writes p sid e e.entry.role) in
      ap (λ q. rebuild stable_id describe_tool_call q sid es) (project_entry-messages p sid e)
      ∙ rebuild-messages (record p { messages = m }) sid es
      ∙ ap (λ ws. record p { messages = put_all m ws })
          (writes-workspace_of p (record p { messages = m }) sid es refl)
      ∙ ap (λ n. record p { messages = n })
          (sym (put_all-append p.messages (role_writes p sid e e.entry.role) (writes p sid es)))

  -- Rebuilding a session's projection from its canonical entries a second time changes nothing that
  -- is read of the table of messages: the same row, or none, is found under every id.
  pub rebuild_twice :
      (p : Projector) (sid : String) (es : List CommittedEntry) (id : String)
      → JsMap.get
          (rebuild stable_id describe_tool_call
            (rebuild stable_id describe_tool_call p sid es)
            sid
            es).messages
          id
        ≡ JsMap.get (rebuild stable_id describe_tool_call p sid es).messages id
  rebuild_twice p sid es id =
      let m = put_all p.messages (writes p sid es) in
      ap (λ q. JsMap.get (rebuild stable_id describe_tool_call q sid es).messages id)
        (rebuild-messages p sid es)
      ∙ ap (λ q. JsMap.get q.messages id) (rebuild-messages (record p { messages = m }) sid es)
      ∙ ap (λ ws. JsMap.get (put_all m ws) id)
          (writes-workspace_of p (record p { messages = m }) sid es refl)
      ∙ get-put_all_twice p.messages (writes p sid es) id
      ∙ ap (λ q. JsMap.get q.messages id) (sym (rebuild-messages p sid es))

  -- What an entry does after its rows are written.
  on_entry_role-SameRows :
      (p : Projector) (sid : String) (role : MessageRole)
      → ((on_entry_role stable_id describe_tool_call p sid role).messages ≡ p.messages)
        × ((on_entry_role stable_id describe_tool_call p sid role).workspace_of ≡ p.workspace_of)
  unfolding on_entry_role after_entry write_activity clear_activity drop_turn retire
  on_entry_role-SameRows p sid from_user = (refl, refl)
  on_entry_role-SameRows p sid from_other = (refl, refl)
  on_entry_role-SameRows p sid from_assistant =
      elim (Bool-cases (has_label (turn_of p sid).tool_label)) [
        | inl b ↦ rw (b, after_entry) (refl, refl)
        | inr b ↦ elim (Bool-cases (JsSet.contains p.active sid)) [
          | inl c ↦ rw (b, c, after_entry) (refl, refl)
          | inr c ↦ rw (b, c, after_entry) (refl, refl)
        ]
      ]

  on_entry-messages :
      (p : Projector) (sid : String) (e : CommittedEntry)
      → (on_entry stable_id describe_tool_call p sid e).messages
        ≡ put_all p.messages (role_writes p sid e e.entry.role)
  unfolding on_entry
  on_entry-messages p sid e =
      let q = project_entry stable_id describe_tool_call p sid e in
      (on_entry_role-SameRows q sid e.entry.role).0
      ∙ ap (λ r. r.messages) (project_entry-messages p sid e)

  on_entry-workspace_of :
      (p : Projector) (sid : String) (e : CommittedEntry)
      → (on_entry stable_id describe_tool_call p sid e).workspace_of ≡ p.workspace_of
  unfolding on_entry
  on_entry-workspace_of p sid e =
      let q = project_entry stable_id describe_tool_call p sid e in
      (on_entry_role-SameRows q sid e.entry.role).1
      ∙ ap (λ r. r.workspace_of) (project_entry-messages p sid e)

  run_receives-messages :
      (p : Projector) (sid : String) (es : List CommittedEntry)
      → (run stable_id describe_tool_call p (map (receives sid) es)).messages
        ≡ put_all p.messages (writes p sid es)
  unfolding run step writes put_all
  run_receives-messages p sid [] = refl
  run_receives-messages p sid (e ∷ es) =
      let q = on_entry stable_id describe_tool_call p sid e in
      run_receives-messages q sid es
      ∙ ap (λ ws. put_all q.messages ws)
          (writes-workspace_of p q sid es (on_entry-workspace_of p sid e))
      ∙ ap (λ m. put_all m (writes p sid es)) (on_entry-messages p sid e)
      ∙ sym (put_all-append p.messages (role_writes p sid e e.entry.role) (writes p sid es))

  -- The table of messages that a session's canonical entries leave when they come in one by one, live,
  -- is the table that a rebuild from those entries makes of the same projector.
  pub live_is_rebuilt :
      (p : Projector) (sid : String) (es : List CommittedEntry)
      → (run stable_id describe_tool_call p (map (receives sid) es)).messages
        ≡ (rebuild stable_id describe_tool_call p sid es).messages
  live_is_rebuilt p sid es =
      run_receives-messages p sid es ∙ ap (λ q. q.messages) (sym (rebuild-messages p sid es))
