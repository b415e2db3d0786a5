-- ===== src/Skills/Cost.antt =====
-- What packages/runtime/src/skills-service.ts says that a hidden skill costs.
use akko.Prelude.{
  ℕ, ◌-◌, ◌≡◌, refl, ap, ◌∙◌, sym, String, true, not, List, [], ◌∷◌, filter, arith, nat_eq, All,
}
use akko.Skills.{Skill, is_hidden, tokens_of, cost_of}

abbrev pub visible : List Skill → List Skill
visible skills = filter (λ s. not (is_hidden s)) skills

-- Two entries that are the same object agree.
abbrev pub SameObject : Skill → List Skill → Type 0
SameObject skill skills = All (λ s. s.object ≡ skill.object → is_hidden s ≡ is_hidden skill) skills

visible-without :
    (skill : Skill) (skills : List Skill)
    → is_hidden skill ≡ true
    → SameObject skill skills
    → visible (filter (λ s. not (nat_eq s.object skill.object)) skills) ≡ visible skills
visible-without skill [] h same = refl
visible-without skill (s ∷ skills) h same =
    ground (arith, visible-without skill skills h same.1, same.0)

-- If pi's formatter passes over the skills that are hidden from the prompt, each of them is said to
-- cost nothing.
pub hidden_costs_nothing :
    (format : List Skill → String) (estimate_tokens : String → ℕ) (skills : List Skill)
    → ((xs : List Skill) → format xs ≡ format (visible xs))
    → (skill : Skill) → is_hidden skill ≡ true
    → SameObject skill skills
    → (cost_of format estimate_tokens skills skill).tokens ≡ 0
hidden_costs_nothing format estimate_tokens skills passes skill h same =
    let rest = filter (λ s. not (nat_eq s.object skill.object)) skills in
    let agree =
      passes rest ∙ ap format (visible-without skill skills h same) ∙ sym (passes skills) in
    even (format rest) (format skills) agree
  where
    even :
        (a b : String)
        → a ≡ b
        → tokens_of format estimate_tokens b - tokens_of format estimate_tokens a ≡ 0
    even a b e = ground (arith, ap (tokens_of format estimate_tokens) e)
