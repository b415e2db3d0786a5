-- ===== src/Limits/Env.antt =====
-- packages/runtime/src/subagent-limits.ts: the limits that the environment gives, and the provider
-- of a model's reference.
-- A number of the environment is taken to be one that parseInt gives exactly (below 2^53): the
-- Infinity and the rounding of longer digit strings are not modelled.
pub mod Caps
use Prim.Native.Char.{code}
use Prim.Native.String
use akko.Prelude.{
  ℕ, zero, suc, ◌<◌, ◌≡◌, refl, ◌≢◌, String, Bool, true, false, Option, none, some, List, [], ◌∷◌,
  arith, nat_eq, ltb, ◌==◌, eq_iff, if◌then◌else◌, truthy, or_default, All, Option-cases, inl, inr,
}
use akko.Prelude.JsMap
use akko.Prelude.JsMap.{JsMap}
use akko.Prelude.Text.{ℤ, pos, negsuc, trim, split, parse_int}
use akko.Limits.{SubagentLimits, default_limits, cap_of}

-- `process.env`
abbrev pub Env : Type 0
Env = String → Option String

abbrev not_negative : Option ℤ → ℕ → ℕ
not_negative (some (pos n)) fallback = n
not_negative (some (negsuc n)) fallback = fallback
not_negative none fallback = fallback

-- The closure `num` of `limitsFromEnv`.
unfoldable pub num : Env → String → ℕ → ℕ
unfolding truthy parse_int
num env key fallback = elim (truthy (env key)) [
  | none ↦ fallback
  | some raw ↦ not_negative (parse_int raw) fallback
]

abbrev pub second : List String → Option String
second [] = none
second (value ∷ rest) = some value

abbrev positive : String → Option ℤ → Option (String × ℕ)
positive name (some (pos (suc n))) = some (name, suc n)
positive name (some (pos zero)) = none
positive name (some (negsuc n)) = none
positive name none = none

-- The provider and the cap of one pair, if it is in order: `name` and `value` are trimmed, and an
-- object's key `__proto__` takes no number.
abbrev named : String → Option String → Option (String × ℕ)
named name none = none
named name (some value) =
    if name == ""
    then none
    else if value == ""
    then none
    else if name == "__proto__"
    then none
    else positive name (parse_int value)

abbrev trimmed : Option String → Option String
trimmed none = none
trimmed (some s) = some (trim s)

abbrev pair_of : List String → Option (String × ℕ)
pair_of [] = none
pair_of (name ∷ rest) = named (trim name) (trimmed (second rest))

unfoldable pub read_pair : String → Option (String × ℕ)
unfolding split trim parse_int
read_pair pair = pair_of (split b'=' pair)

abbrev add_pair : JsMap ℕ → Option (String × ℕ) → JsMap ℕ
add_pair caps none = caps
add_pair caps (some (name, n)) = JsMap.put caps name n

-- The loop over the pairs.
unfoldable pub read_pairs : List String → JsMap ℕ → JsMap ℕ
unfolding read_pair JsMap.put
read_pairs [] caps = caps
read_pairs (pair ∷ pairs) caps = read_pairs pairs (add_pair caps (read_pair pair))

abbrev unless_empty : JsMap ℕ → Option (JsMap ℕ)
unless_empty [] = none
unless_empty (cap ∷ caps) = some (cap ∷ caps)

abbrev parse_raw : Option String → Option (JsMap ℕ)
parse_raw none = none
parse_raw (some raw) =
    let caps = unless_empty (read_pairs (split b',' raw) []) in
    if trim raw == "" then none else caps

unfoldable pub parse_provider_limits : Option String → Option (JsMap ℕ)
unfolding read_pairs split trim
parse_provider_limits raw = parse_raw raw

unfoldable pub limits_from_env : Env → SubagentLimits
unfolding num parse_provider_limits
limits_from_env env = record {
  per_parent = num env "AKKO_SUBAGENT_MAX_PER_PARENT" default_limits.per_parent;
  global = num env "AKKO_SUBAGENT_MAX_GLOBAL" default_limits.global;
  max_depth = num env "AKKO_SUBAGENT_MAX_DEPTH" default_limits.max_depth;
  per_provider = parse_provider_limits (env "AKKO_SUBAGENT_MAX_PER_PROVIDER");
}

-- The text before the first `/`, if there is one.
unfoldable pub before_slash : String → Option String
before_slash String.[] = none
before_slash (String.◌∷◌ c s) =
    let rest = before_slash s in
    if nat_eq (code c) b'/'
    then some ""
    else elim rest [ none ↦ none | some provider ↦ some (String.◌∷◌ c provider) ]

abbrev pub provider_in : Option String → Option String
provider_in none = none
provider_in (some model_ref) = truthy (before_slash model_ref)

-- A reference that begins with the slash has no provider: `slash > 0`.
unfoldable pub provider_of : Option String → Option String
unfolding truthy before_slash
provider_of model_ref = provider_in (truthy model_ref)
