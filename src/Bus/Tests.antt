-- ===== src/Bus/Tests.antt =====
-- Runs of the bus of packages/runtime/src/event-bus.ts, and instances of its theorems.
use akko.Prelude.{◌≡◌, refl, String, true, false, List, [], ◌∷◌, map, ◌==◌, count, ◌≤◌}
use akko.Prelude.JsSet.{contains, add, remove}
use akko.Prelude.JsMap
use akko.Bus.{Bus, Reaction, subscribe, unsubscribe, deliver, publish}
use akko.Bus.Delivery.{Call, subscribes, unsubscribes, after, HasNoEmptySet, publish_reaches_all}

abbrev calls : List Call
calls =
    subscribes "ses_1" "waiter"
    ∷ subscribes "ses_2" "waiter"
    ∷ subscribes "ses_1" "projector"
    ∷ unsubscribes "ses_1" "waiter"
    ∷ subscribes "ses_1" "projector"
    ∷ subscribes "ses_1" "waiter"
    ∷ []

abbrev two : Bus
two = after calls

-- The first listener throws, and drops the other one.
abbrev rude : String → Bus → Reaction
rude l bus = record { bus = unsubscribe bus "ses_1" "waiter"; throws = l == "projector" }

both_called : (publish rude two "ses_1").1 ≡ ("projector", true) ∷ ("waiter", false) ∷ []
unfolding publish deliver subscribe unsubscribe add remove contains JsMap.get JsMap.put
both_called = refl

publish_reaches_all_example :
    (map (λ c. c.0) (publish rude two "ses_1").1 ≡ "projector" ∷ "waiter" ∷ [])
    × ((k : String) → count (λ x. x == k) (map (λ c. c.0) (publish rude two "ses_1").1) ≤ 1)
publish_reaches_all_example = publish_reaches_all rude calls "ses_1"

empty_bus-HasNoEmptySet : HasNoEmptySet []
unfolding JsMap.get
empty_bus-HasNoEmptySet sid h = cc
