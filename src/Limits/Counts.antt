-- ===== src/Limits/Counts.antt =====
-- The counters of packages/runtime/src/subagent-limits.ts against the slots that are held.
use akko.Prelude.{
  ℕ, zero, suc, ◌+◌, ◌-◌, ◌≡◌, refl, ap, sym, String, Bool, true, false, not, ◌&&◌, Option, none,
  some, List, [], ◌∷◌, arith, ◌==◌, eq_iff, or_default, truthy, count, bit, get_elem?, set,
  count-set, Option-cases, Bool-cases, inl, inr,
}
use mathlib.Core.Path.{subst}
use akko.Prelude.JsMap
use akko.Prelude.JsMap.{JsMap}
use akko.Limits.{
  SubagentLimits, Limiter, Slot, in_flight, increment, decrement, on_provider, refusal, reserve,
  admit, give_back, release, new_limiter,
}
use akko.Limits.Fleet.{
  Fleet, init, fleet_admit, fleet_release, write_back, Step, admits, releases, Reach, here, next,
}

abbrev pub alive : Slot → Bool
alive s = not s.released

abbrev pub names : Option String → String → Bool
names none q = false
names (some p) q = p == q

-- A slot that is not given back, of one parent, of one provider.
abbrev pub of_parent : String → Slot → Bool
of_parent p s = alive s && (s.parent == p)

abbrev pub of_provider : String → Slot → Bool
of_provider q s = alive s && names (truthy s.provider) q

pub record IsCounted (f : Fleet) : Type 0 where
  pub total : f.limiter.total ≡ count alive f.slots
  pub parents : (p : String) → in_flight f.limiter.per_parent p ≡ count (of_parent p) f.slots
  pub providers : (q : String) → in_flight f.limiter.per_provider q ≡ count (of_provider q) f.slots

pub in_flight-increment :
    (m : JsMap ℕ) (k j : String) → in_flight (increment m k) j ≡ in_flight m j + bit (k == j)
in_flight-increment m k j = ground (arith, JsMap.get-put m k j (in_flight m k + 1), eq_iff k j)

pub in_flight-decrement :
    (m : JsMap ℕ) (k j : String) → in_flight (decrement m k) j ≡ in_flight m j - bit (k == j)
in_flight-decrement m k j = ground (
  arith,
  JsMap.get-put m k j (or_default (JsMap.get m k) 1 - 1),
  JsMap.get-delete m k j,
  eq_iff k j,
)

pub in_flight-on_provider-increment :
    (m : JsMap ℕ) (o : Option String) (j : String)
    → in_flight (on_provider increment m o) j ≡ in_flight m j + bit (names o j)
in_flight-on_provider-increment m none j = omega arith
in_flight-on_provider-increment m (some k) j = in_flight-increment m k j

pub in_flight-on_provider-decrement :
    (m : JsMap ℕ) (o : Option String) (j : String)
    → in_flight (on_provider decrement m o) j ≡ in_flight m j - bit (names o j)
in_flight-on_provider-decrement m none j = omega arith
in_flight-on_provider-decrement m (some k) j = in_flight-decrement m k j

reserve-IsCounted :
    (l : Limiter) (slots : List Slot) (parent : String) (provider : Option String)
    → IsCounted (record { limiter = l; slots = slots })
    → IsCounted (record {
      limiter = reserve l parent provider;
      slots = record { parent = parent; provider = provider; released = false } ∷ slots;
    })
unfolding reserve
reserve-IsCounted l slots parent provider v = record {
  total = omega (arith, v.total);
  parents = λ p. ground (arith, v.parents p, in_flight-increment l.per_parent parent p);
  providers = λ q.
      ground
        (arith, v.providers q, in_flight-on_provider-increment l.per_provider (truthy provider) q);
}

fleet_admit-IsCounted :
    (f : Fleet) (parent : String) (depth : ℕ) (provider : Option String)
    → IsCounted f
    → IsCounted (fleet_admit f parent depth provider)
unfolding fleet_admit admit
fleet_admit-IsCounted f parent depth provider v =
    elim (Option-cases (refusal f.limiter parent depth provider)) [
      | inl e ↦ rw (e, admit) (reserve-IsCounted f.limiter f.slots parent provider v)
      | inr (r, e) ↦ rw (e, admit) v
    ]

give_back-IsCounted :
    (l : Limiter) (slots : List Slot) (i : ℕ) (s : Slot)
    → get_elem? slots i ≡ some s
    → s.released ≡ false
    → IsCounted (record { limiter = l; slots = slots })
    → IsCounted
        (record { limiter = give_back l s; slots = set slots i (record s { released = true }) })
unfolding give_back
give_back-IsCounted l slots i s held live v = record {
  total = ground (arith, v.total, count-set alive slots i s (record s { released = true }) held);
  parents = λ p. ground (
    arith,
    v.parents p,
    in_flight-decrement l.per_parent s.parent p,
    count-set (of_parent p) slots i s (record s { released = true }) held,
  );
  providers = λ q. ground (
    arith,
    v.providers q,
    in_flight-on_provider-decrement l.per_provider (truthy s.provider) q,
    count-set (of_provider q) slots i s (record s { released = true }) held,
  );
}

set-same : {A : Type 0} (xs : List A) (i : ℕ) (x : A) → get_elem? xs i ≡ some x → set xs i x ≡ xs
set-same [] i x h = refl
set-same (y ∷ xs) zero x h = ground arith
set-same (y ∷ xs) (suc i) x h = ap (◌∷◌ y) (set-same xs i x h)

-- A slot that was given back already is left alone.
pub release_done : (l : Limiter) (s : Slot) → s.released ≡ true → release l s ≡ (l, s)
unfolding release
release_done l s h = ground arith

pub release_live :
    (l : Limiter) (s : Slot)
    → s.released ≡ false
    → release l s ≡ (give_back l s, record s { released = true })
unfolding release
release_live l s h = ground arith

write_back-IsCounted :
    (f : Fleet) (i : ℕ) (s : Slot)
    → get_elem? f.slots i ≡ some s
    → IsCounted f
    → IsCounted (write_back i f.slots (release f.limiter s))
write_back-IsCounted f i s held v = elim (Bool-cases s.released) [
  | inl done ↦ rw (release_done f.limiter s done) (
      subst (λ xs. IsCounted (record { limiter = f.limiter; slots = xs }))
        (sym (set-same f.slots i s held)) v)
  | inr live ↦
      rw (release_live f.limiter s live) (give_back-IsCounted f.limiter f.slots i s held live v)
]

fleet_release-IsCounted : (f : Fleet) (i : ℕ) → IsCounted f → IsCounted (fleet_release f i)
unfolding fleet_release
fleet_release-IsCounted f i v = elim (Option-cases (get_elem? f.slots i)) [
  | inl e ↦ rw (e, fleet_release) v
  | inr (s, e) ↦ rw (e, fleet_release) (write_back-IsCounted f i s e v)
]

pub Step-IsCounted : {f g : Fleet} → Step f g → IsCounted f → IsCounted g
Step-IsCounted {f} (admits parent depth provider) v =
    fleet_admit-IsCounted f parent depth provider v
Step-IsCounted {f} (releases i) v = fleet_release-IsCounted f i v

init-IsCounted : (limits : SubagentLimits) → IsCounted (init limits)
unfolding new_limiter
init-IsCounted limits = record {
  total = refl;
  parents = λ p. ap (λ o. or_default o 0) (JsMap.get-empty p);
  providers = λ q. ap (λ o. or_default o 0) (JsMap.get-empty q);
}

-- After any sequence of admissions and releases from a fresh limiter, repeated releases included,
-- the total, each parent's counter and each provider's counter are the numbers of slots that were
-- admitted and not yet released: of all, of that parent, of that provider.
pub Reach-IsCounted : (limits : SubagentLimits) {f : Fleet} → Reach (init limits) f → IsCounted f
Reach-IsCounted limits here = init-IsCounted limits
Reach-IsCounted limits (next r s) = Step-IsCounted s (Reach-IsCounted limits r)
