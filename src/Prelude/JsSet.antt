-- ===== src/Prelude/JsSet.antt =====
-- A JavaScript `Set` of texts, in the order in which its members were added.
use Prim.Native.String.{String}
use mathlib.Core.Path.{◌≡◌, refl}
use mathlib.Core.Logic.{◌≢◌}
use mathlib.Core.Bool.{Bool, true, false, not, ◌&&◌, ◌||◌}
use mathlib.Core.List.{List, [], ◌∷◌, ◌++◌}
use native.Mathlib.Omega.{arith}
use text.Mathlib.Text.{◌==◌}
use text.Mathlib.TextEquality.{eq_iff}
use akko.Prelude.Tests.{if◌then◌else◌}

-- `set.has(l)`
unfoldable pub contains : List String → String → Bool
contains [] l = false
contains (x ∷ xs) l = x == l || contains xs l

-- `set.add(l)`
unfoldable pub add : List String → String → List String
unfolding contains
add xs l = if contains xs l then xs else xs ++ l ∷ []

-- `set.delete(l)`
unfoldable pub remove : List String → String → List String
remove [] l = []
remove (x ∷ xs) l = let rest = remove xs l in if x == l then rest else x ∷ rest

contains-append :
    (xs ys : List String) (l : String) → contains (xs ++ ys) l ≡ (contains xs l || contains ys l)
unfolding contains
contains-append [] ys l = refl
contains-append (x ∷ xs) ys l = ground (arith, contains-append xs ys l)

pub contains-add :
    (xs : List String) (l k : String) → contains (add xs l) k ≡ (contains xs k || (l == k))
unfolding add contains
contains-add xs l k = ground (arith, contains-append xs (l ∷ []) k, eq_iff l k)

pub contains-remove :
    (xs : List String) (l k : String) → contains (remove xs l) k ≡ (contains xs k && not (l == k))
unfolding remove contains
contains-remove [] l k = refl
contains-remove (x ∷ xs) l k =
    ground (arith, contains-remove xs l k, eq_iff x l, eq_iff x k, eq_iff l k)

pub contains-remove_same : (xs : List String) (l : String) → contains (remove xs l) l ≡ false
contains-remove_same xs l = ground (arith, contains-remove xs l l, eq_iff l l)

pub contains-add_same : (xs : List String) (l : String) → contains (add xs l) l ≡ true
contains-add_same xs l = ground (arith, contains-add xs l l, eq_iff l l)

pub add-ne_nil : (xs : List String) (l : String) → add xs l ≢ []
unfolding add contains
add-ne_nil [] l h = cc
add-ne_nil (x ∷ xs) l h = ground arith
