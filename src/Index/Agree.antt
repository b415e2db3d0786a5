-- ===== src/Index/Agree.antt =====
-- The two indexes of packages/runtime/src/session-index.ts give the same answers, but for the agent
-- type, which has no column.
use akko.Prelude.{
  ℕ, ◌≡◌, refl, sym, ap, ◌∙◌, String, Option, none, some, List, [], ◌∷◌, map, filter, arith, ◌==◌,
  eq_iff, Bool-cases, Option-cases, inl, inr,
}
use mathlib.Core.List.{Perm}
use mathlib.Core.List.Perm
use mathlib.Core.Path.{subst}
use akko.Prelude.JsMap
use akko.Domain.{SessionRef}
use akko.Index.{
  MemoryIndex, SessionRow, upsert_ref, get_ref, list_refs, touch, to_row, to_ref, upsert_row,
  sql_upsert_ref, sql_get_ref, sql_list_refs, sql_touch,
}
use akko.Index.Order.{sort_by_time-perm, Descends, sort_by_time-Descends}

pub data Write : Type 0 where
  upserts : SessionRef → Write
  touches : String → ℕ → Write

abbrev pub memory_write : MemoryIndex → Write → MemoryIndex
memory_write refs (upserts ref) = upsert_ref refs ref
memory_write refs (touches id t) = touch refs id t

abbrev pub sql_write : List SessionRow → Write → List SessionRow
sql_write rows (upserts ref) = sql_upsert_ref rows ref
sql_write rows (touches id t) = sql_touch rows id t

abbrev pub memory_writes : MemoryIndex → List Write → MemoryIndex
memory_writes refs [] = refs
memory_writes refs (w ∷ ws) = memory_writes (memory_write refs w) ws

abbrev pub sql_writes : List SessionRow → List Write → List SessionRow
sql_writes rows [] = rows
sql_writes rows (w ∷ ws) = sql_writes (sql_write rows w) ws

-- A ref that is written over keeps its time of creation, as all callers of the registry do.
abbrev pub KeepsCreation : MemoryIndex → Write → Type 0
KeepsCreation refs (upserts ref) =
    (old : SessionRef) → get_ref refs ref.id ≡ some old → old.created_at ≡ ref.created_at
KeepsCreation refs (touches id t) = Unit

abbrev pub KeepCreation : MemoryIndex → List Write → Type 0
KeepCreation refs [] = Unit
KeepCreation refs (w ∷ ws) = KeepsCreation refs w × KeepCreation (memory_write refs w) ws

abbrev rows_of : MemoryIndex → List SessionRow
rows_of refs = map (λ e. to_row e.1) refs

-- Each ref stands under its own id, and only once.
abbrev IsKeyed : MemoryIndex → Type 0
IsKeyed [] = Unit
IsKeyed ((j, ref) ∷ refs) = (j ≡ ref.id) × (JsMap.get refs j ≡ none) × IsKeyed refs

-- What a ref is after a trip through the table.
abbrev pub without_agent_type : SessionRef → SessionRef
without_agent_type ref = record ref { agent_type = none }

abbrev pub seen_by_sql : Option SessionRef → Option SessionRef
seen_by_sql none = none
seen_by_sql (some ref) = some (without_agent_type ref)

sql_get_ref-rows_of :
    (refs : MemoryIndex) (id : String)
    → IsKeyed refs
    → sql_get_ref (rows_of refs) id ≡ seen_by_sql (JsMap.get refs id)
unfolding sql_get_ref JsMap.get
sql_get_ref-rows_of [] id k = refl
sql_get_ref-rows_of ((j, ref) ∷ refs) id k = ground (arith, sql_get_ref-rows_of refs id k.2, k.0)

upsert_row-rows_of :
    (refs : MemoryIndex) (ref : SessionRef)
    → IsKeyed refs
    → ((old : SessionRef) → JsMap.get refs ref.id ≡ some old → old.created_at ≡ ref.created_at)
    → upsert_row (rows_of refs) (to_row ref) ≡ rows_of (JsMap.put refs ref.id ref)
unfolding upsert_row JsMap.get JsMap.put
upsert_row-rows_of [] ref k keep = refl
upsert_row-rows_of ((j, old) ∷ refs) ref k keep = elim (Bool-cases (j == ref.id)) [
  | inl same ↦ ground (arith, k.0, eq_iff j ref.id, keep old (rw same))
  | inr other ↦ ground (arith, k.0, upsert_row-rows_of refs ref k.2 (λ o e. keep o (rw other e)))
]

put-IsKeyed :
    (refs : MemoryIndex) (ref : SessionRef) → IsKeyed refs → IsKeyed (JsMap.put refs ref.id ref)
unfolding JsMap.put JsMap.get
put-IsKeyed [] ref k = (refl, refl, tt)
put-IsKeyed ((j, old) ∷ refs) ref k = elim (Bool-cases (j == ref.id)) [
  | inl same ↦ rw same ((eq_iff j ref.id).0 same, k.1, k.2)
  | inr other ↦ rw other (
    k.0,
    ground (arith, JsMap.get-put refs ref.id j ref, eq_iff j ref.id, eq_iff ref.id j, k.1),
    put-IsKeyed refs ref k.2,
  )
]

sql_touch-absent :
    (refs : MemoryIndex) (id : String) (t : ℕ)
    → IsKeyed refs
    → JsMap.get refs id ≡ none
    → sql_touch (rows_of refs) id t ≡ rows_of refs
unfolding sql_touch JsMap.get
sql_touch-absent [] id t k h = refl
sql_touch-absent ((j, ref) ∷ refs) id t k h = ground (arith, k.0, sql_touch-absent refs id t k.2)

sql_touch-rows_of :
    (refs : MemoryIndex) (id : String) (t : ℕ)
    → IsKeyed refs
    → sql_touch (rows_of refs) id t ≡ rows_of (touch refs id t)
unfolding sql_touch touch JsMap.get JsMap.put
sql_touch-rows_of [] id t k = refl
sql_touch-rows_of ((j, ref) ∷ refs) id t k =
    ground (
      arith,
      k.0,
      k.1,
      eq_iff j id,
      sql_touch-rows_of refs id t k.2,
      sql_touch-absent refs id t k.2,
    )

id_of_get :
    (refs : MemoryIndex) (id : String) (ref : SessionRef)
    → IsKeyed refs
    → JsMap.get refs id ≡ some ref
    → id ≡ ref.id
unfolding JsMap.get
id_of_get [] id ref k h = cc
id_of_get ((j, old) ∷ refs) id ref k h = ground (arith, k.0, eq_iff j id, id_of_get refs id ref k.2)

touch-IsKeyed :
    (refs : MemoryIndex) (id : String) (t : ℕ) → IsKeyed refs → IsKeyed (touch refs id t)
unfolding touch
touch-IsKeyed refs id t k = elim (Option-cases (JsMap.get refs id)) [
  | inl e ↦ rw (e, touch) k
  | inr (ref, e) ↦
      rw (e, touch)
        (subst (λ j. IsKeyed (JsMap.put refs j (record ref { updated_at = t })))
          (sym (id_of_get refs id ref k e)) (put-IsKeyed refs (record ref { updated_at = t }) k))
]

record Agrees (refs : MemoryIndex) (rows : List SessionRow) : Type 0 where
  keyed : IsKeyed refs
  same : rows ≡ rows_of refs

write-Agrees :
    (refs : MemoryIndex) (rows : List SessionRow) (w : Write)
    → Agrees refs rows
    → KeepsCreation refs w
    → Agrees (memory_write refs w) (sql_write rows w)
unfolding upsert_ref sql_upsert_ref get_ref
write-Agrees refs rows (upserts ref) v keep = record {
  keyed = put-IsKeyed refs ref v.keyed;
  same = ap (λ r. upsert_row r (to_row ref)) v.same ∙ upsert_row-rows_of refs ref v.keyed keep;
}
write-Agrees refs rows (touches id t) v keep = record {
  keyed = touch-IsKeyed refs id t v.keyed;
  same = ap (λ r. sql_touch r id t) v.same ∙ sql_touch-rows_of refs id t v.keyed;
}

writes-Agrees :
    (refs : MemoryIndex) (rows : List SessionRow) (ws : List Write)
    → Agrees refs rows
    → KeepCreation refs ws
    → Agrees (memory_writes refs ws) (sql_writes rows ws)
writes-Agrees refs rows [] v keep = v
writes-Agrees refs rows (w ∷ ws) v keep =
    writes-Agrees (memory_write refs w) (sql_write rows w) ws (write-Agrees refs rows w v keep.0)
      keep.1

-- After the same upserts and touches, none of which moves the time of creation of a ref that is
-- there, the SQLite index answers a lookup as the one in memory does, but with no agent type.
pub sql_get_ref-agrees :
    (ws : List Write) (id : String)
    → KeepCreation [] ws
    → sql_get_ref (sql_writes [] ws) id ≡ seen_by_sql (get_ref (memory_writes [] ws) id)
unfolding get_ref
sql_get_ref-agrees ws id keep =
    let v = writes-Agrees [] [] ws (record { keyed = tt; same = refl }) keep in
    ap (λ r. sql_get_ref r id) v.same ∙ sql_get_ref-rows_of (memory_writes [] ws) id v.keyed

listed_refs :
    (refs : MemoryIndex) (workspace : String)
    → map to_ref (filter (λ row. row.workspace_id == workspace) (rows_of refs))
      ≡ map without_agent_type (filter (λ r. r.workspace_id == workspace) (JsMap.values refs))
listed_refs [] workspace = refl
listed_refs ((j, ref) ∷ refs) workspace = ground (arith, listed_refs refs workspace)

-- After the same writes, none of which puts a session that is there under another time of creation,
-- both indexes list the same refs of a workspace, but for the agent types and the order; the SQLite index lists them by their last update, newest first.
pub sql_list_refs-agrees :
    (ws : List Write) (workspace : String)
    → KeepCreation [] ws
    → Perm
        (sql_list_refs (sql_writes [] ws) workspace)
        (map without_agent_type (list_refs (memory_writes [] ws) workspace))
      × Descends (sql_list_refs (sql_writes [] ws) workspace)
unfolding sql_list_refs list_refs
sql_list_refs-agrees ws workspace keep = (
  subst (Perm _)
      (ap (λ r. map to_ref (filter (λ row. row.workspace_id == workspace) r)) v.same
        ∙ listed_refs (memory_writes [] ws) workspace)
      (Perm.map to_ref
        (sort_by_time-perm (filter (λ row. row.workspace_id == workspace) (sql_writes [] ws)))),
  sort_by_time-Descends (filter (λ row. row.workspace_id == workspace) (sql_writes [] ws)),
)
  where
    v : Agrees (memory_writes [] ws) (sql_writes [] ws)
    v = writes-Agrees [] [] ws (record { keyed = tt; same = refl }) keep
