-- ===== src/Router.antt =====
-- packages/runtime/src/model-router.ts: how a model is named, and what is made of the answer of pi's
-- `resolveCliModel`, which is an argument with the models that are available.
pub mod Refs
mod Tests
use Prim.Native.String
use akko.Prelude.{
  ℕ, ◌≡◌, refl, ◌≢◌, ◌∙◌, String, Bool, true, false, Option, none, some, List, [], ◌∷◌, map, ap,
  arith, nat_eq, ◌==◌, eq_iff, if◌then◌else◌, or_default, or_else, Result, ok, failed,
}

-- What the source reads of a model of pi; its prices, which are not whole, are only passed on.
pub record Cost (Price : Type 0) : Type 0 where
  pub input : Price
  pub output : Price
  pub cache_read : Price
  pub cache_write : Price

pub record Model (Price : Type 0) : Type 0 where
  pub provider : String
  pub id : String
  pub name : String
  pub reasoning : Bool
  pub input : List String
  pub context_window : ℕ
  pub cost : Cost Price

-- `ModelCatalogEntry`
pub record CatalogEntry (Price : Type 0) : Type 0 where
  pub provider : String
  pub id : String
  pub name : String
  pub reasoning : Bool
  pub input : List String
  pub context_window : ℕ
  pub cost : Cost Price

-- The answer of `resolveCliModel`.
pub record Resolution (Price : Type 0) : Type 0 where
  pub model : Option (Model Price)
  pub error : Option String
  pub warning : Option String

abbrev no_match : String → String
no_match input = String.◌++◌ "no model matches \"" (String.◌++◌ input "\"")

module _ {Price : Type 0} where
  unfoldable pub model_ref : Model Price → String
  model_ref m = String.◌++◌ m.provider (String.◌++◌ "/" m.id)

  -- A model, or a text that says why there is none.
  unfoldable pub resolve_model_string :
      (String → Resolution Price) → String → Result String (Model Price)
  resolve_model_string resolve_cli_model input =
      let result = resolve_cli_model input in
      elim result.model [
        | some model ↦ ok model
        | none ↦ failed (or_default result.error (or_default result.warning (no_match input)))
      ]

  abbrev entry_of : Model Price → CatalogEntry Price
  entry_of m = record {
    provider = m.provider;
    id = m.id;
    name = m.name;
    reasoning = m.reasoning;
    input = m.input;
    context_window = m.context_window;
    cost = m.cost;
  }

  unfoldable pub catalog : List (Model Price) → List (CatalogEntry Price)
  catalog available = map entry_of available

  -- `routeTask` is not built yet.
  unfoldable pub route_task : Result String (Model Price)
  route_task = failed "routeTask: natural-language task routing is slice 2 (doc 05)"
