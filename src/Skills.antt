-- ===== src/Skills.antt =====
-- packages/runtime/src/skills-service.ts: the inventory of a workspace's skills and what they cost in
-- its prompt. The skills that the workspace's loader gives, pi's `formatSkillsForPrompt` and
-- `estimateTokens`, and the order of the locale are arguments.
pub mod Cost
mod Tests
use akko.Prelude.{
  ℕ, ◌-◌, ◌≡◌, refl, ap, ◌∙◌, String, Bool, true, false, not, Option, none, some, List, [], ◌∷◌,
  map, filter, length, count, arith, nat_eq, ltb, ◌==◌, eq_iff, if◌then◌else◌, or_default, or_else,
  All, Bool-cases, inl, inr,
}
use akko.Prelude.Sorting.{sort_by}
use akko.Config.{ConfigStore, set_skill_hidden}

-- A skill of pi. Objects that are not the same one have different numbers.
pub record Skill : Type 0 where
  pub object : ℕ
  pub name : String
  pub description : String
  -- `sourceInfo`, its source and its scope
  pub source_info : Option (Option String × Option String)
  pub file_path : String
  pub disable_model_invocation : Option Bool

pub record SkillInfo : Type 0 where
  pub name : String
  pub description : String
  pub source : String
  pub file_path : String
  pub enabled : Bool
  pub hidden_from_prompt : Bool

pub record SkillCost : Type 0 where
  pub name : String
  pub tokens : ℕ
  pub hidden_from_prompt : Bool

pub record SkillImpact : Type 0 where
  pub per_skill : List SkillCost
  pub total_tokens : ℕ
  pub injected_block : String

-- `skill.disableModelInvocation === true`
abbrev pub is_hidden : Skill → Bool
is_hidden s = or_default s.disable_model_invocation false

abbrev source_of : Option (Option String × Option String) → String
source_of none = "unknown"
source_of (some info) = or_default (or_else info.0 info.1) "unknown"

unfoldable pub to_info : Skill → SkillInfo
to_info s = record {
  name = s.name;
  description = s.description;
  source = source_of s.source_info;
  file_path = s.file_path;
  enabled = true;
  hidden_from_prompt = is_hidden s;
}

-- `#skills`: a workspace without a loader has none.
abbrev pub skills_of : Option (List Skill) → List Skill
skills_of loader = or_default loader []

unfoldable pub list : (String → String → Bool) → Option (List Skill) → List SkillInfo
unfolding to_info sort_by
list locale_leb loader = sort_by (λ a b. locale_leb a.name b.name) (map to_info (skills_of loader))

module _ (format : List Skill → String) (estimate_tokens : String → ℕ) where
  -- An empty fragment costs nothing.
  abbrev pub tokens_of : String → ℕ
  tokens_of text = if text == "" then 0 else estimate_tokens text

  -- `skills.filter((s) => s !== skill)`
  abbrev pub without : Skill → List Skill → List Skill
  without skill skills = filter (λ s. not (nat_eq s.object skill.object)) skills

  -- `Math.max(0, total - withoutTokens)`: a difference of natural numbers stops at zero.
  abbrev pub cost_of : List Skill → Skill → SkillCost
  cost_of skills skill = record {
    name = skill.name;
    tokens = tokens_of (format skills) - tokens_of (format (without skill skills));
    hidden_from_prompt = is_hidden skill;
  }

  unfoldable pub impact : Option (List Skill) → SkillImpact
  impact loader =
      let skills = skills_of loader in
      record {
        per_skill = map (cost_of skills) skills;
        total_tokens = tokens_of (format skills);
        injected_block = format skills;
      }

  -- No text without a way to build a session for the preview.
  unfoldable pub preview_system_prompt : Option String → String
  preview_system_prompt built = or_default built ""

-- Without the tables of the workspace nothing can be changed.
unfoldable pub set_hidden_from_prompt :
    Option ConfigStore → String → String → Bool → ℕ → Option ConfigStore × Bool
unfolding set_skill_hidden
set_hidden_from_prompt none workspace name hidden now = (none, false)
set_hidden_from_prompt (some config) workspace name hidden now =
    let done = set_skill_hidden config workspace name hidden now in (some done.0, done.1)
