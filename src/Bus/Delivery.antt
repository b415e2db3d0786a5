-- ===== src/Bus/Delivery.antt =====
-- Who is called when an event is published on the bus of packages/runtime/src/event-bus.ts.
use akko.Prelude.{
  ◌+◌, ◌≤◌, ◌≡◌, ◌≢◌, refl, ap, ◌∙◌, Bool, ◌++◌, filter, count, bit, nat_eq, String, true, false,
  not, ◌&&◌, ◌||◌, some, List, [], ◌∷◌, map, arith, ◌==◌, eq_iff, eq_refl, if◌then◌else◌,
  Option-cases, inl, inr,
}
use akko.Prelude.JsSet.{contains, add, remove, contains-add, contains-remove, add-ne_nil}
use akko.Prelude.JsMap
use akko.Bus.{Bus, Reaction, listeners, subscribe, unsubscribe, store_set, deliver, publish}

map-deliver :
    (react : String → Bus → Reaction) (ls : List String) (bus : Bus)
    → map (λ c. c.0) (deliver react ls bus).1 ≡ ls
unfolding deliver
map-deliver react [] bus = refl
map-deliver react (l ∷ ls) bus = ap (◌∷◌ l) (map-deliver react ls (react l bus).bus)

publish_calls :
    (react : String → Bus → Reaction) (bus : Bus) (sid : String)
    → map (λ c. c.0) (publish react bus sid).1 ≡ listeners bus sid
unfolding publish
publish_calls react bus sid = map-deliver react (listeners bus sid) bus

listeners-store_set :
    (bus : Bus) (sid t : String) (ls : List String)
    → listeners (store_set bus sid ls) t ≡ (if sid == t then ls else listeners bus t)
listeners-store_set bus sid t [] = ground (arith, JsMap.get-delete bus sid t)
listeners-store_set bus sid t (x ∷ xs) = ground (arith, JsMap.get-put bus sid t (x ∷ xs))

listeners-subscribe :
    (bus : Bus) (sid t l : String)
    → listeners (subscribe bus sid l) t
      ≡ (if sid == t then add (listeners bus sid) l else listeners bus t)
unfolding subscribe
listeners-subscribe bus sid t l =
    ground (arith, JsMap.get-put bus sid t (add (listeners bus sid) l))

listeners-unsubscribe :
    (bus : Bus) (sid t l : String)
    → listeners (unsubscribe bus sid l) t
      ≡ (if sid == t then remove (listeners bus sid) l else listeners bus t)
unfolding unsubscribe remove
listeners-unsubscribe bus sid t l = elim (Option-cases (JsMap.get bus sid)) [
  | inl e ↦ rw (e, unsubscribe) (ground (arith, eq_iff sid t))
  | inr (ls, e) ↦ rw (e, unsubscribe) (listeners-store_set bus sid t (remove ls l))
]

-- Who listens after a subscription: those of before, and the one that subscribed, to its session.
pub contains-subscribe :
    (bus : Bus) (sid t l k : String)
    → contains (listeners (subscribe bus sid l) t) k
      ≡ (contains (listeners bus t) k || (sid == t && l == k))
contains-subscribe bus sid t l k =
    rw (listeners-subscribe bus sid t l)
      (ground (arith, eq_iff sid t, contains-add (listeners bus sid) l k))

pub contains-unsubscribe :
    (bus : Bus) (sid t l k : String)
    → contains (listeners (unsubscribe bus sid l) t) k
      ≡ (contains (listeners bus t) k && not (sid == t && l == k))
contains-unsubscribe bus sid t l k =
    rw (listeners-unsubscribe bus sid t l)
      (ground (arith, eq_iff sid t, contains-remove (listeners bus sid) l k))

-- A listener that subscribes to a session is called by the next event of that session. Once it has
-- unsubscribed it is called by none, however often it had subscribed, and every other listener of
-- every session is called as before.
pub subscribe_then_unsubscribe :
    (bus : Bus) (sid l t k : String)
    → (contains (listeners (subscribe bus sid l) sid) l ≡ true)
      × (contains (listeners (unsubscribe (subscribe bus sid l) sid l) t) k
          ≡ (if sid == t && l == k then false else contains (listeners bus t) k))
subscribe_then_unsubscribe bus sid l t k = (
  ground (arith, contains-subscribe bus sid sid l l, eq_refl sid, eq_refl l),
  ground (
    arith,
    contains-unsubscribe (subscribe bus sid l) sid t l k,
    contains-subscribe bus sid t l k,
  ),
)

-- No session keeps an empty set of listeners.
abbrev pub HasNoEmptySet : Bus → Type 0
HasNoEmptySet bus = (sid : String) → JsMap.get bus sid ≢ some []

get-store_set :
    (bus : Bus) (sid t : String) (ls : List String)
    → JsMap.get (store_set bus sid ls) t ≡ some []
    → JsMap.get bus t ≡ some []
get-store_set bus sid t [] h = ground (arith, JsMap.get-delete bus sid t)
get-store_set bus sid t (x ∷ xs) h = ground (arith, JsMap.get-put bus sid t (x ∷ xs))

-- Neither a subscription nor its end leaves an empty set behind.
pub HasNoEmptySet-step :
    (bus : Bus) (sid l : String)
    → HasNoEmptySet bus
    → HasNoEmptySet (subscribe bus sid l) × HasNoEmptySet (unsubscribe bus sid l)
unfolding subscribe unsubscribe
HasNoEmptySet-step bus sid l v = (
  λ t h. ground (
    arith,
    JsMap.get-put bus sid t (add (listeners bus sid) l),
    v t,
    add-ne_nil (listeners bus sid) l,
  ),
  λ t h. elim (Option-cases (JsMap.get bus sid)) [
    | inl e ↦ v t (rw (e, unsubscribe) at h)
    | inr (ls, e) ↦ v t (get-store_set bus sid t (remove ls l) (rw (e, unsubscribe) at h))
  ],
)

-- What the bus is asked to do of its sets.
pub data Call : Type 0 where
  subscribes unsubscribes : String → String → Call

abbrev pub call : Bus → Call → Bus
call bus (subscribes sid l) = subscribe bus sid l
call bus (unsubscribes sid l) = unsubscribe bus sid l

-- The bus after calls that are listed with the last one first.
abbrev pub after : List Call → Bus
after [] = []
after (c ∷ earlier) = call (after earlier) c

-- Who listens to a session after those calls, in the order of subscription: a subscription puts its
-- listener last, where it does not listen yet, and the end of one takes the listener out.
abbrev pub audience : String → List Call → List String
audience sid [] = []
audience sid (subscribes t l ∷ earlier) =
    if t == sid
    then (if nat_eq 0 (count (λ k. k == l) (audience sid earlier))
        then audience sid earlier ++ l ∷ []
        else audience sid earlier)
    else audience sid earlier
audience sid (unsubscribes t l ∷ earlier) =
    if t == sid then filter (λ k. not (k == l)) (audience sid earlier) else audience sid earlier

contains-count :
    (xs : List String) (l : String) → contains xs l ≡ not (nat_eq 0 (count (λ k. k == l) xs))
unfolding contains
contains-count [] l = refl
contains-count (x ∷ xs) l = ground (arith, contains-count xs l)

add-fresh :
    (xs : List String) (l : String)
    → add xs l ≡ (if nat_eq 0 (count (λ k. k == l) xs) then xs ++ l ∷ [] else xs)
unfolding add
add-fresh xs l = ground (arith, contains-count xs l)

remove-filter : (xs : List String) (l : String) → remove xs l ≡ filter (λ k. not (k == l)) xs
unfolding remove
remove-filter [] l = refl
remove-filter (x ∷ xs) l = ground (arith, remove-filter xs l)

listeners-after :
    (calls : List Call) (sid : String) → listeners (after calls) sid ≡ audience sid calls
unfolding JsMap.get
listeners-after [] sid = refl
listeners-after (subscribes t l ∷ earlier) sid = ground (
  arith,
  listeners-subscribe (after earlier) t sid l,
  add-fresh (listeners (after earlier) t) l,
  listeners-after earlier sid,
  eq_iff t sid,
)
listeners-after (unsubscribes t l ∷ earlier) sid = ground (
  arith,
  listeners-unsubscribe (after earlier) t sid l,
  remove-filter (listeners (after earlier) t) l,
  listeners-after earlier sid,
  eq_iff t sid,
)

count-snoc :
    (p : String → Bool) (xs : List String) (l : String)
    → count p (xs ++ l ∷ []) ≡ count p xs + bit (p l)
count-snoc p [] l = ground arith
count-snoc p (x ∷ xs) l = ground (arith, count-snoc p xs l)

count-filter_le : (p q : String → Bool) (xs : List String) → count p (filter q xs) ≤ count p xs
count-filter_le p q [] = omega arith
count-filter_le p q (x ∷ xs) = ground (arith, count-filter_le p q xs)

audience_once : (calls : List Call) (sid k : String) → count (λ x. x == k) (audience sid calls) ≤ 1
audience_once [] sid k = omega arith
audience_once (subscribes t l ∷ earlier) sid k = ground (
  arith,
  audience_once earlier sid k,
  count-snoc (λ x. x == k) (audience sid earlier) l,
  eq_iff l k,
)
audience_once (unsubscribes t l ∷ earlier) sid k = ground (
  arith,
  audience_once earlier sid k,
  count-filter_le (λ x. x == k) (λ x. not (x == l)) (audience sid earlier),
)

-- After any subscriptions and ends of subscriptions to any sessions, an event of a session is
-- delivered to exactly those that listen to it when it is published, in the order of their
-- subscription and none twice, whatever they do: throw, subscribe or unsubscribe one another.
pub publish_reaches_all :
    (react : String → Bus → Reaction) (calls : List Call) (sid : String)
    → (map (λ c. c.0) (publish react (after calls) sid).1 ≡ audience sid calls)
      × ((k : String)
          → count (λ x. x == k) (map (λ c. c.0) (publish react (after calls) sid).1) ≤ 1)
publish_reaches_all react calls sid =
    let reached = publish_calls react (after calls) sid ∙ listeners-after calls sid in
    (reached, λ k. rw reached (audience_once calls sid k))
