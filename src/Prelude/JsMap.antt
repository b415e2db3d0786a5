-- ===== src/Prelude/JsMap.antt =====
-- A JavaScript `Map` with text keys: entries in the order of insertion, a write to a key that is
-- there keeps its place.
use Prim.Native.String.{String}
use mathlib.Core.Path.{◌≡◌, refl}
use mathlib.Core.Bool.{Bool}
use mathlib.Core.Option.{Option, none, some}
use mathlib.Core.List.{List, [], ◌∷◌, map}
use native.Mathlib.Omega.{arith}
use text.Mathlib.Text.{◌==◌}
use text.Mathlib.TextEquality.{eq_iff}
use akko.Prelude.Tests.{if◌then◌else◌, is_some}

abbrev pub JsMap {ℓ} : Type ℓ → Type ℓ
JsMap V = List (String × V)

module _ {ℓ} {V : Type ℓ} where
  -- `m.get(k)`
  unfoldable pub get : JsMap V → String → Option V
  get [] k = none
  get ((j, v) ∷ m) k = if j == k then some v else get m k

  -- `m.set(k, v)`
  unfoldable pub put : JsMap V → String → V → JsMap V
  put [] k v = (k, v) ∷ []
  put ((j, w) ∷ m) k v = if j == k then (j, v) ∷ m else (j, w) ∷ put m k v

  -- `m.delete(k)`
  unfoldable pub delete : JsMap V → String → JsMap V
  delete [] k = []
  delete ((j, w) ∷ m) k = let rest = delete m k in if j == k then rest else (j, w) ∷ rest

  -- `m.has(k)`
  abbrev pub has : JsMap V → String → Bool
  has m k = is_some (get m k)

  -- `[...m.values()]`, `[...m.keys()]`
  abbrev pub values : JsMap V → List V
  values m = map (λ e. e.1) m

  abbrev pub keys : JsMap V → List String
  keys m = map (λ e. e.0) m

  pub get-put :
      (m : JsMap V) (k j : String) (v : V)
      → get (put m k v) j ≡ (if k == j then some v else get m j)
  unfolding get put
  get-put [] k j v = refl
  get-put ((i, w) ∷ m) k j v = ground (arith, eq_iff i k, eq_iff i j, eq_iff k j, get-put m k j v)

  pub get-delete :
      (m : JsMap V) (k j : String) → get (delete m k) j ≡ (if k == j then none else get m j)
  unfolding get delete
  get-delete [] k j = ground arith
  get-delete ((i, w) ∷ m) k j = ground (arith, eq_iff i k, eq_iff i j, eq_iff k j, get-delete m k j)

  pub get-delete_same : (m : JsMap V) (k : String) → get (delete m k) k ≡ none
  get-delete_same m k = ground (arith, get-delete m k k, eq_iff k k)

  pub get-put_same : (m : JsMap V) (k : String) (v : V) → get (put m k v) k ≡ some v
  get-put_same m k v = ground (arith, get-put m k k v, eq_iff k k)

  pub get-empty : (k : String) → get (let e : JsMap V = [] in e) k ≡ none
  unfolding get
  get-empty k = refl

pub ruleset map_laws = (get-put, get-delete, get-empty)
