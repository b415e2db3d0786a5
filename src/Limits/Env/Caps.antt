-- ===== src/Limits/Env/Caps.antt =====
-- What packages/runtime/src/subagent-limits.ts makes of any environment: the caps that it gives.
use akko.Prelude.{
  ℕ, zero, suc, ◌<◌, ◌≡◌, refl, subst, ◌≢◌, sym, ◌∙◌, String, true, Option, none, some, List, [],
  ◌∷◌, arith, ◌==◌, eq_iff, if◌then◌else◌, Bool-cases, inl, inr,
}
use akko.Prelude.JsMap
use akko.Prelude.JsMap.{JsMap}
use akko.Prelude.Text.{ℤ, pos, negsuc, trim, split, parse_int}
use akko.Limits.{cap_of}
use akko.Limits.Env.{
  Env, named, positive, pair_of, read_pair, add_pair, read_pairs, unless_empty, parse_raw,
  parse_provider_limits, limits_from_env, second, trimmed,
}

-- A cap that is in order: its provider is named and it lets at least one subagent run.
abbrev pub IsCap : String → ℕ → Type 0
IsCap provider n = (provider ≢ "") × (0 < n)

abbrev IsPair : Option (String × ℕ) → Type 0
IsPair none = Unit
IsPair (some (name, n)) = IsCap name n

positive-IsPair : (name : String) (o : Option ℤ) → name ≢ "" → IsPair (positive name o)
positive-IsPair name none h = tt
positive-IsPair name (some (pos zero)) h = tt
positive-IsPair name (some (pos (suc n))) h = (h, omega arith)
positive-IsPair name (some (negsuc n)) h = tt

named-IsPair : (name : String) (o : Option String) → IsPair (named name o)
named-IsPair name none = tt
named-IsPair name (some value) =
    ground (arith, eq_iff name "", positive-IsPair name (parse_int value))

read_pair-IsPair : (pair : String) → IsPair (read_pair pair)
unfolding read_pair
read_pair-IsPair pair = go (split b'=' pair)
  where
    go : (parts : List String) → IsPair (pair_of parts)
    go [] = tt
    go (name ∷ rest) = named-IsPair (trim name) (trimmed (second rest))

abbrev AreCaps : JsMap ℕ → Type 0
AreCaps caps = (provider : String) (n : ℕ) → JsMap.get caps provider ≡ some n → IsCap provider n

add_pair-AreCaps :
    (caps : JsMap ℕ) (pair : Option (String × ℕ))
    → AreCaps caps
    → IsPair pair
    → AreCaps (add_pair caps pair)
add_pair-AreCaps caps none h p = h
add_pair-AreCaps caps (some (name, m)) h p =
    λ provider n got. go provider n (sym (JsMap.get-put caps name provider m) ∙ got)
  where
    go :
        (provider : String) (n : ℕ)
        → (if name == provider then some m else JsMap.get caps provider) ≡ some n
        → IsCap provider n
    go provider n got = elim (Bool-cases (name == provider)) [
      | inl same ↦
          subst (λ k. IsCap k n) ((eq_iff name provider).0 same)
            (subst (IsCap name) (same_cap same got) p)
      | inr other ↦
          h provider n
            (subst (λ b. (if b then some m else JsMap.get caps provider) ≡ some n) other got)
    ]
      where
        same_cap :
            (name == provider) ≡ true
            → (if name == provider then some m else JsMap.get caps provider) ≡ some n
            → m ≡ n
        same_cap same got = ground arith

read_pairs-AreCaps :
    (pairs : List String) (caps : JsMap ℕ) → AreCaps caps → AreCaps (read_pairs pairs caps)
unfolding read_pairs
read_pairs-AreCaps [] caps h = h
read_pairs-AreCaps (pair ∷ pairs) caps h =
    read_pairs-AreCaps pairs (add_pair caps (read_pair pair))
      (add_pair-AreCaps caps (read_pair pair) h (read_pair-IsPair pair))

parse_raw-AreCaps :
    (raw : Option String) (caps : JsMap ℕ) → parse_raw raw ≡ some caps → AreCaps caps
parse_raw-AreCaps none caps h = cc
parse_raw-AreCaps (some raw) caps h =
    go (read_pairs (split b',' raw) []) (read_pairs-AreCaps (split b',' raw) [] none_yet) h
  where
    none_yet : AreCaps []
    none_yet provider n got = absurd (cc (got, JsMap.get-empty {V = ℕ} provider))

    go :
        (read : JsMap ℕ)
        → AreCaps read
        → (if trim raw == "" then none else unless_empty read) ≡ some caps
        → AreCaps caps
    go [] a got = ground arith
    go (cap ∷ read) a got = ground (arith, a)

-- Whatever the environment says, a provider that it gives a cap has a name, and its cap is positive.
pub cap_of-limits_from_env :
    (env : Env) (provider : String) (n : ℕ)
    → cap_of (limits_from_env env) provider ≡ some n
    → (provider ≢ "") × (0 < n)
unfolding cap_of limits_from_env parse_provider_limits
cap_of-limits_from_env env provider n h =
    go (parse_provider_limits (env "AKKO_SUBAGENT_MAX_PER_PROVIDER"))
      (parse_raw-AreCaps (env "AKKO_SUBAGENT_MAX_PER_PROVIDER")) h
  where
    go :
        (o : Option (JsMap ℕ))
        → ((caps : JsMap ℕ) → o ≡ some caps → AreCaps caps)
        → cap_of (record (limits_from_env env) { per_provider = o }) provider ≡ some n
        → IsCap provider n
    go none a got = cc
    go (some caps) a got = a caps refl provider n got
