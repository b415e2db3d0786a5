-- ===== src/Router/Tests.antt =====
-- Runs of packages/runtime/src/model-router.ts, and its theorem at a concrete model.
use akko.Prelude.{◌≡◌, refl, true, none, some, [], ◌∷◌, failed}
use akko.Limits.Env.{provider_of}
use akko.Router.{Model, Resolution, resolve_model_string}

abbrev claude : Model Unit
claude = record {
  provider = "anthropic";
  id = "claude/haiku";
  name = "Haiku";
  reasoning = true;
  input = "text" ∷ [];
  context_window = 200000;
  cost = record { input = tt; output = tt; cache_read = tt; cache_write = tt };
}

abbrev unresolved : Resolution Unit
unresolved = record { model = none; error = none; warning = none }

says_why : resolve_model_string (λ s. unresolved) "gpt" ≡ failed "no model matches \"gpt\""
unfolding resolve_model_string
says_why = refl

no_provider : provider_of (some "/x") ≡ none
unfolding provider_of
no_provider = refl
