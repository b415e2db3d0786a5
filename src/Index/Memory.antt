-- ===== src/Index/Memory.antt =====
-- The in-memory index of packages/runtime/src/session-index.ts.
use akko.Prelude.{
  ℕ, ◌≡◌, String, Option, none, some, arith, ◌==◌, eq_iff, if◌then◌else◌, Option-cases, inl, inr,
}
use akko.Prelude.JsMap
use akko.Domain.{SessionRef}
use akko.Index.{MemoryIndex, upsert_ref, get_ref, touch}

-- What can be read after an upsert: the ref itself under its id, and all else as it was.
pub get_ref-upsert_ref :
    (refs : MemoryIndex) (ref : SessionRef) (id : String)
    → get_ref (upsert_ref refs ref) id ≡ (if ref.id == id then some ref else get_ref refs id)
unfolding get_ref upsert_ref
get_ref-upsert_ref refs ref id = JsMap.get-put refs ref.id id ref

abbrev pub touched : Option SessionRef → ℕ → Option SessionRef
touched none t = none
touched (some ref) t = some (record ref { updated_at = t })

pub get_ref-touch :
    (refs : MemoryIndex) (id : String) (t : ℕ) (j : String)
    → get_ref (touch refs id t) j
      ≡ (if id == j then touched (get_ref refs id) t else get_ref refs j)
unfolding get_ref touch
get_ref-touch refs id t j = elim (Option-cases (JsMap.get refs id)) [
  | inl e ↦ rw (e, touch) (ground (arith, eq_iff id j))
  | inr (ref, e) ↦ rw (e, touch) (JsMap.get-put refs id j (record ref { updated_at = t }))
]
