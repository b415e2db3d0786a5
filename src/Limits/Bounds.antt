-- ===== src/Limits/Bounds.antt =====
-- The caps of packages/runtime/src/subagent-limits.ts, and what is left when all slots are back.
use akko.Prelude.{
  ℕ, ◌+◌, ◌-◌, ◌≤◌, ◌<◌, ◌≡◌, ◌≢◌, ◌↔◌, ◌⊎◌, refl, String, Bool, true, false, Option, none, some,
  arith, ◌==◌, eq_iff, or_default, truthy, count, bit, ap, sym, List, [], ◌∷◌, get_elem?,
  Option-cases, Bool-cases, inl, inr,
}
use mathlib.Core.Path.{subst}
use akko.Prelude.JsMap
use akko.Prelude.JsMap.{JsMap}
use akko.Limits.{
  SubagentLimits, Limiter, Slot, in_flight, cap_of, increment, decrement, on_provider, refusal,
  admitted, refused, Refusal, provider_refusal, parent_refusal, reserve, admit, give_back,
  new_limiter,
}
use akko.Limits.Fleet.{Fleet, init, fleet_admit, fleet_release, admits, releases, Reach, here, next}
use akko.Limits.Counts.{
  alive, names, of_parent, of_provider, IsCounted, release_done, release_live, in_flight-increment,
  in_flight-on_provider-increment, in_flight-decrement, in_flight-on_provider-decrement,
  Reach-IsCounted,
}

-- What `admit` asks of the provider: below its cap, where the provider is named and has one.
abbrev pub HasRoom : Limiter → Option String → Type 0
HasRoom l none = Unit
HasRoom l (some p) = (cap : ℕ) → cap_of l.limits p ≡ some cap → in_flight l.per_provider p < cap

-- The four conditions under which a subagent may start.
pub record MayStart (l : Limiter) (parent : String) (depth : ℕ) (provider : Option String)
    : Type 0 where
  pub shallow : depth ≤ l.limits.max_depth
  pub global_room : l.total < l.limits.global
  pub provider_room : HasRoom l (truthy provider)
  pub parent_room : in_flight l.per_parent parent < l.limits.per_parent

provider_refusal-none_iff :
    (l : Limiter) (o : Option String) → (provider_refusal l o ≡ none) ↔ HasRoom l o
unfolding provider_refusal
provider_refusal-none_iff l none = (λ _. tt, λ _. refl)
provider_refusal-none_iff l (some p) = elim (Option-cases (cap_of l.limits p)) [
  | inl e ↦ (λ _ cap h. cc, λ _. rw (e, provider_refusal))
  | inr (c, e) ↦ (λ h cap g. ground arith, λ room. ground (arith, room c e))
]

refusal-none_iff :
    (l : Limiter) (parent : String) (depth : ℕ) (provider : Option String)
    → (refusal l parent depth provider ≡ none) ↔ MayStart l parent depth provider
unfolding refusal parent_refusal
refusal-none_iff l parent depth provider = (
  λ h. record {
    shallow = ground arith;
    global_room = ground arith;
    provider_room = room.0 (ground arith);
    parent_room = ground arith;
  },
  λ m. ground (arith, room.1 m.provider_room),
)
  where
    room : (provider_refusal l (truthy provider) ≡ none) ↔ HasRoom l (truthy provider)
    room = provider_refusal-none_iff l (truthy provider)

-- `admit` grants a slot, one of the parent and provider that asked, and counts it exactly when the
-- depth is within its limit and the total, the provider's counter, if the provider is named and
-- capped, and the parent's counter are below their caps; otherwise it refuses and leaves the limiter
-- as it was.
pub admit_decides :
    (l : Limiter) (parent : String) (depth : ℕ) (provider : Option String)
    → (MayStart l parent depth provider
        × (admit l parent depth provider ≡ (
          reserve l parent provider,
          admitted (record { parent = parent; provider = provider; released = false }),
        )))
      ⊎ (¬ MayStart l parent depth provider
          × ((r : Refusal) × (admit l parent depth provider ≡ (l, refused r))))
unfolding admit
admit_decides l parent depth provider = elim (Option-cases (refusal l parent depth provider)) [
  | inl e ↦ inl ((refusal-none_iff l parent depth provider).0 e, rw (e, admit))
  | inr (r, e) ↦ inr (
    λ m. absurd (ground (arith, (refusal-none_iff l parent depth provider).1 m)),
    (r, rw (e, admit)),
  )
]

-- Within the limits that the limiter was made with.
record IsCapped (limits : SubagentLimits) (l : Limiter) : Type 0 where
  pub same_limits : l.limits ≡ limits
  pub global : l.total ≤ limits.global
  pub parents : (p : String) → in_flight l.per_parent p ≤ limits.per_parent
  pub providers :
      (q : String) (cap : ℕ) → cap_of limits q ≡ some cap → in_flight l.per_provider q ≤ cap

HasRoom-provider :
    (l : Limiter) (o : Option String) (q : String) (cap : ℕ)
    → HasRoom l o
    → cap_of l.limits q ≡ some cap
    → in_flight l.per_provider q ≤ cap
    → in_flight l.per_provider q + bit (names o q) ≤ cap
HasRoom-provider l none q cap room e h = omega arith
HasRoom-provider l (some p) q cap room e h = elim (Bool-cases (p == q)) [
  | inl same ↦
      let eq = (eq_iff p q).0 same in
      ground (arith, room cap (rw eq e), ap (in_flight l.per_provider) eq)
  | inr other ↦ ground arith
]

reserve-IsCapped :
    (l : Limiter) (parent : String) (depth : ℕ) (provider : Option String)
    → MayStart l parent depth provider
    → IsCapped l.limits l
    → IsCapped l.limits (reserve l parent provider)
unfolding reserve
reserve-IsCapped l parent depth provider m w = record {
  same_limits = refl;
  global = omega (arith, m.global_room);
  parents = λ p. ground (
    arith,
    m.parent_room,
    w.parents p,
    in_flight-increment l.per_parent parent p,
    eq_iff parent p,
  );
  providers = λ q cap e.
      rw (in_flight-on_provider-increment l.per_provider (truthy provider) q)
        (HasRoom-provider l (truthy provider) q cap m.provider_room e (w.providers q cap e));
}

give_back-IsCapped :
    (limits : SubagentLimits) (l : Limiter) (s : Slot)
    → IsCapped limits l
    → IsCapped limits (give_back l s)
unfolding give_back
give_back-IsCapped limits l s w = record {
  same_limits = w.same_limits;
  global = omega (arith, w.global);
  parents = λ p. omega (arith, in_flight-decrement l.per_parent s.parent p, w.parents p);
  providers = λ q cap e. omega (
    arith,
    in_flight-on_provider-decrement l.per_provider (truthy s.provider) q,
    w.providers q cap e,
  );
}

fleet_admit-IsCapped :
    (limits : SubagentLimits) (f : Fleet) (parent : String) (depth : ℕ) (provider : Option String)
    → IsCapped limits f.limiter
    → IsCapped limits (fleet_admit f parent depth provider).limiter
unfolding fleet_admit admit
fleet_admit-IsCapped limits f parent depth provider w =
    elim (Option-cases (refusal f.limiter parent depth provider)) [
      | inl e ↦
          rw (e, admit)
            (subst (λ lim. IsCapped lim (reserve f.limiter parent provider)) w.same_limits
              (reserve-IsCapped f.limiter parent depth provider
                ((refusal-none_iff f.limiter parent depth provider).0 e)
                (subst (λ lim. IsCapped lim f.limiter) (sym w.same_limits) w)))
      | inr (r, e) ↦ rw (e, admit) w
    ]

fleet_release-IsCapped :
    (limits : SubagentLimits) (f : Fleet) (i : ℕ)
    → IsCapped limits f.limiter
    → IsCapped limits (fleet_release f i).limiter
unfolding fleet_release
fleet_release-IsCapped limits f i w = elim (Option-cases (get_elem? f.slots i)) [
  | inl e ↦ rw (e, fleet_release) w
  | inr (s, e) ↦ elim (Bool-cases s.released) [
    | inl done ↦ rw (e, fleet_release, release_done f.limiter s done) w
    | inr live ↦
        rw (e, fleet_release, release_live f.limiter s live)
          (give_back-IsCapped limits f.limiter s w)
  ]
]

init-IsCapped : (limits : SubagentLimits) → IsCapped limits (new_limiter limits)
unfolding new_limiter
init-IsCapped limits = record {
  same_limits = refl;
  global = omega arith;
  parents = λ p. rw (JsMap.get-empty p) (omega arith);
  providers = λ q cap e. rw (JsMap.get-empty q) (omega arith);
}

Reach-IsCapped :
    (limits : SubagentLimits) {f : Fleet} → Reach (init limits) f → IsCapped limits f.limiter
Reach-IsCapped limits here = init-IsCapped limits
Reach-IsCapped limits (next r (admits parent depth provider)) =
    fleet_admit-IsCapped limits _ parent depth provider (Reach-IsCapped limits r)
Reach-IsCapped limits (next r (releases i)) =
    fleet_release-IsCapped limits _ i (Reach-IsCapped limits r)

-- The subagents that run: those whose slots are held and not yet given back.
pub record IsWithin (limits : SubagentLimits) (f : Fleet) : Type 0 where
  pub global : count alive f.slots ≤ limits.global
  pub parents : (p : String) → count (of_parent p) f.slots ≤ limits.per_parent
  pub providers :
      (q : String) (cap : ℕ) → cap_of limits q ≡ some cap → count (of_provider q) f.slots ≤ cap

-- Whatever is admitted and released, in any order and the same slot more than once perhaps, the
-- slots that are held and not yet given back, which are those of the subagents that run, are never
-- more than `global`, never more than `per_parent` of one session, and never more than the cap of a
-- provider that has one.
pub Reach-IsWithin :
    (limits : SubagentLimits) {f : Fleet} → Reach (init limits) f → IsWithin limits f
Reach-IsWithin limits {f} r = record {
  global = omega (arith, w.global, v.total);
  parents = λ p. omega (arith, w.parents p, v.parents p);
  providers = λ q cap e. omega (arith, w.providers q cap e, v.providers q);
}
  where
    w : IsCapped limits f.limiter
    w = Reach-IsCapped limits r

    v : IsCounted f
    v = Reach-IsCounted limits r

-- No counter is kept at 0.
abbrev NoZero : JsMap ℕ → Type 0
NoZero m = (k : String) → JsMap.get m k ≢ some 0

increment-NoZero : (m : JsMap ℕ) (k : String) → NoZero m → NoZero (increment m k)
increment-NoZero m k z j e =
    ground (arith, JsMap.get-put m k j (in_flight m k + 1), z j, eq_iff k j)

decrement-NoZero : (m : JsMap ℕ) (k : String) → NoZero m → NoZero (decrement m k)
decrement-NoZero m k z j e = ground (
  arith,
  JsMap.get-put m k j (or_default (JsMap.get m k) 1 - 1),
  JsMap.get-delete m k j,
  z j,
  eq_iff k j,
)

on_provider-NoZero :
    (f : JsMap ℕ → String → JsMap ℕ) (m : JsMap ℕ) (o : Option String)
    → ((k : String) → NoZero m → NoZero (f m k))
    → NoZero m
    → NoZero (on_provider f m o)
on_provider-NoZero f m none keep z = z
on_provider-NoZero f m (some k) keep z = keep k z

abbrev IsTidy : Limiter → Type 0
IsTidy l = NoZero l.per_parent × NoZero l.per_provider

fleet_admit-IsTidy :
    (f : Fleet) (parent : String) (depth : ℕ) (provider : Option String)
    → IsTidy f.limiter
    → IsTidy (fleet_admit f parent depth provider).limiter
unfolding fleet_admit admit reserve
fleet_admit-IsTidy f parent depth provider (zp, zq) =
    elim (Option-cases (refusal f.limiter parent depth provider)) [
      | inl e ↦
          rw (e, admit)
            (
              increment-NoZero f.limiter.per_parent parent zp,
              on_provider-NoZero increment f.limiter.per_provider (truthy provider)
                  (increment-NoZero f.limiter.per_provider) zq,
            )
      | inr (r, e) ↦ rw (e, admit) (zp, zq)
    ]

fleet_release-IsTidy : (f : Fleet) (i : ℕ) → IsTidy f.limiter → IsTidy (fleet_release f i).limiter
unfolding fleet_release give_back
fleet_release-IsTidy f i (zp, zq) = elim (Option-cases (get_elem? f.slots i)) [
  | inl e ↦ rw (e, fleet_release) (zp, zq)
  | inr (s, e) ↦ elim (Bool-cases s.released) [
    | inl done ↦ rw (e, fleet_release, release_done f.limiter s done) (zp, zq)
    | inr live ↦
        rw (e, fleet_release, release_live f.limiter s live)
          (
            decrement-NoZero f.limiter.per_parent s.parent zp,
            on_provider-NoZero decrement f.limiter.per_provider (truthy s.provider)
                (decrement-NoZero f.limiter.per_provider) zq,
          )
  ]
]

Reach-IsTidy : (limits : SubagentLimits) {f : Fleet} → Reach (init limits) f → IsTidy f.limiter
unfolding new_limiter
Reach-IsTidy limits here = (
  λ k e. ground (arith, JsMap.get-empty {V = ℕ} k),
  λ k e. ground (arith, JsMap.get-empty {V = ℕ} k),
)
Reach-IsTidy limits (next r (admits parent depth provider)) =
    fleet_admit-IsTidy _ parent depth provider (Reach-IsTidy limits r)
Reach-IsTidy limits (next r (releases i)) = fleet_release-IsTidy _ i (Reach-IsTidy limits r)

count_mono :
    (p q : Slot → Bool) (xs : List Slot)
    → ((s : Slot) → p s ≡ true → q s ≡ true)
    → count p xs ≤ count q xs
count_mono p q [] h = omega arith
count_mono p q (x ∷ xs) h = ground (arith, h x, count_mono p q xs h)

get-none_of_idle : (m : JsMap ℕ) (k : String) → NoZero m → in_flight m k ≡ 0 → JsMap.get m k ≡ none
get-none_of_idle m k z h = ground (arith, z k)

-- Once every slot that was admitted has been released, the limiter is a fresh one again: no
-- subagent is counted, and neither map has an entry for any key.
pub drained :
    (limits : SubagentLimits) {f : Fleet}
    → Reach (init limits) f
    → count alive f.slots ≡ 0
    → (f.limiter.total ≡ 0)
      × ((p : String) → JsMap.get f.limiter.per_parent p ≡ none)
      × ((q : String) → JsMap.get f.limiter.per_provider q ≡ none)
drained limits {f} r h = (
  omega (arith, v.total),
  λ p.
      get-none_of_idle f.limiter.per_parent p tidy.0
        (omega (arith, v.parents p, count_mono (of_parent p) alive f.slots (λ s e. ground arith))),
  λ q. get-none_of_idle f.limiter.per_provider q tidy.1 (
      omega (arith, v.providers q, count_mono (of_provider q) alive f.slots (λ s e. ground arith))),
)
  where
    v : IsCounted f
    v = Reach-IsCounted limits r

    tidy : IsTidy f.limiter
    tidy = Reach-IsTidy limits r
