-- ===== src/Limits.antt =====
-- packages/runtime/src/subagent-limits.ts: the limiter that admits subagents, and the handle that
-- gives a slot back. A refusal's text is modelled by the cap that it names and the numbers in it.
pub mod Env
pub mod Fleet
pub mod Counts
pub mod Bounds
mod Tests
use akko.Prelude.{
  ℕ, ◌+◌, ◌-◌, String, Bool, true, false, Option, none, some, List, [], ◌∷◌, ltb, leb, nat_eq,
  if◌then◌else◌, or_default, truthy,
}
use akko.Prelude.JsMap
use akko.Prelude.JsMap.{JsMap}

pub record SubagentLimits : Type 0 where
  pub per_parent : ℕ
  pub global : ℕ
  pub max_depth : ℕ
  pub per_provider : Option (JsMap ℕ)

abbrev pub default_limits : SubagentLimits
default_limits = record { per_parent = 3; global = 8; max_depth = 1; per_provider = none }

pub data Refusal : Type 0 where
  too_deep global_full : ℕ → Refusal
  provider_full : String → ℕ → Refusal
  parent_full : ℕ → ℕ → Refusal

-- The private fields of `SubagentLimiter`.
pub record Limiter : Type 0 where
  pub limits : SubagentLimits
  pub per_parent : JsMap ℕ
  pub per_provider : JsMap ℕ
  pub total : ℕ

-- What the closure `release` holds on to, and its flag.
pub record Slot : Type 0 where
  pub parent : String
  pub provider : Option String
  pub released : Bool

pub data Admission : Type 0 where
  refused : Refusal → Admission
  admitted : Slot → Admission

unfoldable pub new_limiter : SubagentLimits → Limiter
new_limiter limits = record { limits = limits; per_parent = []; per_provider = []; total = 0 }

-- `m.get(k) ?? 0`
abbrev pub in_flight : JsMap ℕ → String → ℕ
in_flight m k = or_default (JsMap.get m k) 0

-- `running(parentSessionId)`
unfoldable pub running : Limiter → Option String → ℕ
running l parent = elim (truthy parent) [ none ↦ l.total | some p ↦ in_flight l.per_parent p ]

pub running_for_provider : Limiter → String → ℕ
running_for_provider l provider = in_flight l.per_provider provider

-- `limits.perProvider?.[provider]`
unfoldable pub cap_of : SubagentLimits → String → Option ℕ
cap_of limits provider = elim limits.per_provider [
  | none ↦ none
  | some caps ↦ JsMap.get caps provider
]

-- The provider, if it is named and its cap is reached, with the cap.
provider_refusal : Limiter → Option String → Option Refusal
provider_refusal l none = none
provider_refusal l (some p) = elim (cap_of l.limits p) [
  | none ↦ none
  | some cap ↦ if leb cap (in_flight l.per_provider p) then some (provider_full p cap) else none
]

parent_refusal : Limiter → String → Option Refusal
parent_refusal l parent =
    let mine = in_flight l.per_parent parent in
    if leb l.limits.per_parent mine then some (parent_full l.limits.per_parent mine) else none

-- The four tests of `admit`, in its order.
unfoldable pub refusal : Limiter → String → ℕ → Option String → Option Refusal
unfolding provider_refusal parent_refusal
refusal l parent depth provider =
    if ltb l.limits.max_depth depth
    then some (too_deep l.limits.max_depth)
    else if leb l.limits.global l.total
    then some (global_full l.limits.global)
    else elim (provider_refusal l (truthy provider)) [
      | some r ↦ some r
      | none ↦ parent_refusal l parent
    ]

-- `m.set(k, (m.get(k) ?? 0) + 1)`
abbrev pub increment : JsMap ℕ → String → JsMap ℕ
increment m k = JsMap.put m k (in_flight m k + 1)

-- `n = (m.get(k) ?? 1) - 1`, and the entry goes when none is left.
abbrev pub decrement : JsMap ℕ → String → JsMap ℕ
decrement m k =
    let n = or_default (JsMap.get m k) 1 - 1 in
    if nat_eq n 0 then JsMap.delete m k else JsMap.put m k n

abbrev pub on_provider : (JsMap ℕ → String → JsMap ℕ) → JsMap ℕ → Option String → JsMap ℕ
on_provider f m none = m
on_provider f m (some p) = f m p

-- The bookkeeping of a slot that is granted.
pub reserve : Limiter → String → Option String → Limiter
reserve l parent provider = record l {
  per_parent = increment l.per_parent parent;
  per_provider = on_provider increment l.per_provider (truthy provider);
  total = l.total + 1;
}

unfoldable pub admit : Limiter → String → ℕ → Option String → Limiter × Admission
unfolding refusal reserve
admit l parent depth provider = elim (refusal l parent depth provider) [
  | some r ↦ (l, refused r)
  | none ↦ (
    reserve l parent provider,
    admitted (record { parent = parent; provider = provider; released = false }),
  )
]

-- What `release` gives back when its flag is not yet set.
pub give_back : Limiter → Slot → Limiter
give_back l s = record l {
  per_parent = decrement l.per_parent s.parent;
  per_provider = on_provider decrement l.per_provider (truthy s.provider);
  total = l.total - 1;
}

unfoldable pub release : Limiter → Slot → Limiter × Slot
unfolding give_back
release l s = if s.released then (l, s) else (give_back l s, record s { released = true })
