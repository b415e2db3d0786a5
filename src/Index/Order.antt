-- ===== src/Index/Order.antt =====
-- `ORDER BY updated_at DESC` of packages/runtime/src/session-index.ts.
use akko.Prelude.{ℕ, ◌≤◌, List, [], ◌∷◌, map, arith, All}
use mathlib.Core.List.{Perm}
use mathlib.Core.List.Perm
use akko.Domain.{SessionRef}
use akko.Index.{SessionRow, to_ref, insert_by_time, sort_by_time}

insert_by_time-perm :
    (row : SessionRow) (rows : List SessionRow) → Perm (insert_by_time row rows) (row ∷ rows)
unfolding insert_by_time
insert_by_time-perm row [] = Perm.refl _
insert_by_time-perm row (x ∷ xs) = ground (
  arith,
  Perm.refl (row ∷ x ∷ xs),
  Perm.trans (Perm.cons x (insert_by_time-perm row xs)) (Perm.swap row x xs),
)

pub sort_by_time-perm : (rows : List SessionRow) → Perm (sort_by_time rows) rows
unfolding sort_by_time
sort_by_time-perm [] = Perm.refl _
sort_by_time-perm (row ∷ rows) =
    Perm.trans (insert_by_time-perm row (sort_by_time rows))
      (Perm.cons row (sort_by_time-perm rows))

-- Newest first.
abbrev pub Descends : List SessionRef → Type 0
Descends [] = Unit
Descends (x ∷ xs) = All (λ y. y.updated_at ≤ x.updated_at) xs × Descends xs

insert_by_time-All :
    (n : ℕ) (row : SessionRow) (rows : List SessionRow)
    → row.updated_at ≤ n
    → All (λ y. y.updated_at ≤ n) (map to_ref rows)
    → All (λ y. y.updated_at ≤ n) (map to_ref (insert_by_time row rows))
unfolding insert_by_time
insert_by_time-All n row [] h a = (h, tt)
insert_by_time-All n row (x ∷ xs) h a = ground (arith, insert_by_time-All n row xs h a.1)

All-weaken :
    (m n : ℕ) (rows : List SessionRow)
    → m ≤ n
    → All (λ y. y.updated_at ≤ m) (map to_ref rows)
    → All (λ y. y.updated_at ≤ n) (map to_ref rows)
All-weaken m n [] h a = tt
All-weaken m n (x ∷ xs) h a = (omega arith, All-weaken m n xs h a.1)

insert_by_time-Descends :
    (row : SessionRow) (rows : List SessionRow)
    → Descends (map to_ref rows)
    → Descends (map to_ref (insert_by_time row rows))
unfolding insert_by_time
insert_by_time-Descends row [] d = (tt, tt)
insert_by_time-Descends row (x ∷ xs) d = ground (
  arith,
  All-weaken x.updated_at row.updated_at xs,
  d.0,
  insert_by_time-All x.updated_at row xs,
  insert_by_time-Descends row xs d.1,
)

pub sort_by_time-Descends : (rows : List SessionRow) → Descends (map to_ref (sort_by_time rows))
unfolding sort_by_time
sort_by_time-Descends [] = tt
sort_by_time-Descends (row ∷ rows) =
    insert_by_time-Descends row (sort_by_time rows) (sort_by_time-Descends rows)
