-- ===== src/Bus.antt =====
-- packages/runtime/src/event-bus.ts: in-process publish and subscribe, by session id. A listener is
-- known by a name, which stands for the identity of its function; a `Set` keeps the order in which
-- its members were added.
pub mod Delivery
mod Tests
use akko.Prelude.{
  String, Bool, true, false, Option, none, some, List, [], ◌∷◌, ◌++◌, ◌||◌, ◌==◌, if◌then◌else◌,
  or_default,
}
use akko.Prelude.JsSet.{contains, add, remove}
use akko.Prelude.JsMap
use akko.Prelude.JsMap.{JsMap}

abbrev pub Bus : Type 0
Bus = JsMap (List String)

abbrev pub listeners : Bus → String → List String
listeners bus sid = or_default (JsMap.get bus sid) []

unfoldable pub subscribe : Bus → String → String → Bus
subscribe bus sid l = JsMap.put bus sid (add (listeners bus sid) l)

-- The set that is left; an empty one is dropped.
abbrev store_set : Bus → String → List String → Bus
store_set bus sid [] = JsMap.delete bus sid
store_set bus sid (x ∷ xs) = JsMap.put bus sid (x ∷ xs)

-- The function that `subscribe` returns.
unfoldable pub unsubscribe : Bus → String → String → Bus
unsubscribe bus sid l = elim (JsMap.get bus sid) [
  | none ↦ bus
  | some current ↦ store_set bus sid (remove current l)
]

-- What a listener does when it is called: it may change the bus, and it may throw.
pub record Reaction : Type 0 where
  pub bus : Bus
  pub throws : Bool

-- The loop of `publish` over the copy of the set: an exception is caught and logged.
unfoldable pub deliver : (String → Bus → Reaction) → List String → Bus → Bus × List (String × Bool)
deliver react [] bus = (bus, [])
deliver react (l ∷ ls) bus =
    let (after, called) = deliver react ls (react l bus).bus in
    (after, (l, (react l bus).throws) ∷ called)

unfoldable pub publish : (String → Bus → Reaction) → Bus → String → Bus × List (String × Bool)
unfolding deliver
publish react bus sid = deliver react (listeners bus sid) bus
