-- ===== src/Building/Fresh.antt =====
-- The staleness that packages/runtime/src/session-registry.ts reports, over the tables of
-- packages/runtime/src/workspace-config-store.ts.
use akko.Prelude.{◌≡◌, ap, ◌≢◌, String, Bool, some, map, filter, ◌==◌, ◌&&◌}
use akko.Prelude.JsMap
use akko.Config.{ConfigStore}
use akko.Config.Kept.{Call, step}
use akko.Config.Frame.{target, other_lists_stay}
use akko.SkillFiles.{skills_version}
use akko.Registry.{Registry, is_stale, stale_in, stale_skill_sessions}
use akko.Building.{config_of}

-- The registry over some tables.
abbrev pub over : (String → String → Bool) → (String → String) → Registry → ConfigStore → Registry
over locale_leb hash r store = record r { config = some (config_of locale_leb hash store) }

-- A write to the tables of one workspace makes no session of another workspace stale, and none
-- fresh.
pub stale_skill_sessions-other :
    (locale_leb : String → String → Bool) (hash : String → String) (r : Registry) (s : ConfigStore)
    (c : Call) (w : String)
    → target c ≢ w
    → stale_skill_sessions (over locale_leb hash r (step s c)) w
      ≡ stale_skill_sessions (over locale_leb hash r s) w
unfolding stale_skill_sessions stale_in config_of
stale_skill_sessions-other locale_leb hash r s c w other =
    ap
      (λ skills.
        map (λ e. e.0)
          (filter
            (λ e.
              e.1.ref.workspace_id == w
              && is_stale (JsMap.get r.session_skills_version e.0)
                  (skills_version locale_leb hash skills))
            r.live))
      (other_lists_stay s c w other).0
