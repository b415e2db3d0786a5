-- ===== src/Limits/Tests.antt =====
-- Runs of the limiter of packages/runtime/src/subagent-limits.ts, and instances of its theorems.
use akko.Prelude.{
  ◌<◌, ◌≢◌, ◌==◌, if◌then◌else◌, ◌≡◌, refl, String, none, some, [], ◌∷◌, count, truthy,
}
use akko.Prelude.JsMap
use akko.Limits.{
  SubagentLimits, refused, provider_full, new_limiter, admit, running, cap_of, release,
}
use akko.Limits.Env.{Env, limits_from_env, parse_provider_limits}
use akko.Limits.Env.Caps.{cap_of-limits_from_env}
use akko.Limits.Fleet.{Fleet, init, fleet_admit, fleet_release, Reach, here, next, admits, releases}
use akko.Limits.Counts.{alive}
use akko.Limits.Bounds.{IsWithin, Reach-IsWithin, drained}

abbrev limits : SubagentLimits
limits = record {
  per_parent = 2;
  global = 3;
  max_depth = 1;
  per_provider = some (("ollama", 1) ∷ []);
}

abbrev busy : Fleet
busy = fleet_admit (fleet_admit (init limits) "ses_a" 1 (some "ollama")) "ses_b" 1 none

busy-Reach : Reach (init limits) busy
busy-Reach = next (next here (admits "ses_a" 1 (some "ollama"))) (admits "ses_b" 1 none)

abbrev idle : Fleet
idle = fleet_release (fleet_release (fleet_release busy 0) 0) 1

idle-Reach : Reach (init limits) idle
idle-Reach = next (next (next busy-Reach (releases 0)) (releases 0)) (releases 1)

provider_cap_holds :
    (admit busy.limiter "ses_c" 1 (some "ollama")).1 ≡ refused (provider_full "ollama" 1)
unfolding admit fleet_admit new_limiter cap_of truthy JsMap.get JsMap.put
provider_cap_holds = refl

running_counts : running busy.limiter (some "ses_a") ≡ 1
unfolding running admit fleet_admit new_limiter cap_of truthy JsMap.get JsMap.put
running_counts = refl

idle_released : count alive idle.slots ≡ 0
unfolding admit release fleet_admit fleet_release new_limiter cap_of truthy JsMap.get JsMap.put
    JsMap.delete
idle_released = refl

-- Two admissions, and one slot given back twice.
Reach-IsWithin_example : IsWithin limits (fleet_release (fleet_release busy 0) 0)
Reach-IsWithin_example = Reach-IsWithin limits (next (next busy-Reach (releases 0)) (releases 0))

drained_example :
    (idle.limiter.total ≡ 0)
    × ((p : String) → JsMap.get idle.limiter.per_parent p ≡ none)
    × ((q : String) → JsMap.get idle.limiter.per_provider q ≡ none)
drained_example = drained limits idle-Reach idle_released

abbrev env : Env
env key =
    if key == "AKKO_SUBAGENT_MAX_PER_PROVIDER"
    then some " ollama = 2, anthropic=8x,=3,junk,openai=0"
    else if key == "AKKO_SUBAGENT_MAX_GLOBAL"
    then some "12"
    else if key == "AKKO_SUBAGENT_MAX_DEPTH"
    then some "-1"
    else none

limits_read : limits_from_env env ≡ record {
  per_parent = 3;
  global = 12;
  max_depth = 1;
  per_provider = some (("ollama", 2) ∷ ("anthropic", 8) ∷ []);
}
unfolding limits_from_env
limits_read = refl

-- A provider whose cap is not in order is left without one.
typo_is_no_cap : parse_provider_limits (some "ollama=0") ≡ none
unfolding parse_provider_limits
typo_is_no_cap = refl

abbrev ollama_capped : cap_of (limits_from_env env) "ollama" ≡ some 2
unfolding cap_of limits_from_env JsMap.get
ollama_capped = refl

cap_of-limits_from_env_example : ◌≢◌ {A = String} "ollama" "" × (0 < 2)
cap_of-limits_from_env_example = cap_of-limits_from_env env "ollama" 2 ollama_capped
