-- ===== src/Skills/Tests.antt =====
-- Runs of packages/runtime/src/skills-service.ts.
use akko.Prelude.{◌≡◌, refl, ℕ, String, Bool, true, false, none, some, List, [], ◌∷◌, map}
use akko.Prelude.Sorting.{text_leb}
use akko.Skills.{Skill, list, impact, set_hidden_from_prompt}
use akko.Skills.Cost.{visible}

abbrev skill : ℕ → String → Bool → Skill
skill object name hidden = record {
  object = object;
  name = name;
  description = "d";
  source_info = some (none, some "user");
  file_path = "/f";
  disable_model_invocation = some hidden;
}

abbrev skills : List Skill
skills = skill 0 "b" false ∷ skill 1 "a" true ∷ []

abbrev format : List Skill → String
format xs = elim (visible xs) [ [] ↦ "" | _ ∷ _ ↦ "<skills/>" ]

-- The preamble counts for the last visible skill.
costs : map (λ c. c.tokens) (impact format (λ s. 9) (some skills)).per_skill ≡ 9 ∷ 0 ∷ []
unfolding impact
costs = refl

in_order : map (λ i. i.name) (list text_leb (some skills)) ≡ "a" ∷ "b" ∷ []
unfolding list text_leb
in_order = refl

nothing_to_change : (set_hidden_from_prompt none "w" "a" true 1).1 ≡ false
unfolding set_hidden_from_prompt
nothing_to_change = refl
