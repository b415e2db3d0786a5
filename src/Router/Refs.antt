-- ===== src/Router/Refs.antt =====
-- References of models, as packages/runtime/src/model-router.ts writes them and
-- packages/runtime/src/subagent-limits.ts reads them.
use Prim.Native.Char.{code}
use Prim.Native.String
use text.Mathlib.TextLemmas.{nil-append, cons-append, cons-ne-nil, append-ne-nil_of_right_ne-nil}
use akko.Prelude.{
  ◌≡◌, refl, sym, ◌≢◌, ◌∙◌, String, Option, none, some, ap, arith, nat_eq, eq_iff, if◌then◌else◌,
  truthy,
}
use akko.Limits.Env.{before_slash, provider_in, provider_of}
use akko.Router.{Model, model_ref}

append-ne-nil : (s t : String) → String.◌++◌ s (String.◌++◌ "/" t) ≢ ""
append-ne-nil s t h =
    append-ne-nil_of_right_ne-nil s
      (λ k. cons-ne-nil "/" (String.◌++◌ "" t) (sym (cons-append "/" "" t) ∙ k)) h

before_slash-append :
    (s t : String)
    → before_slash s ≡ none
    → before_slash (String.◌++◌ s (String.◌++◌ "/" t)) ≡ some s
unfolding before_slash
before_slash-append String.[] t h =
    ap before_slash (nil-append (String.◌++◌ "/" t) ∙ cons-append "/" "" t)
before_slash-append (String.◌∷◌ c s) t h =
    ap before_slash (cons-append c s (String.◌++◌ "/" t))
    ∙ go (before_slash-append s t) (before_slash s) refl h
  where
    go :
        (before_slash s ≡ none → before_slash (String.◌++◌ s (String.◌++◌ "/" t)) ≡ some s)
        → (o : Option String) → before_slash s ≡ o
        → (if nat_eq (code c) b'/'
            then some ""
            else elim o [ none ↦ none | some p ↦ some (String.◌∷◌ c p) ])
          ≡ none
        → before_slash (String.◌∷◌ c (String.◌++◌ s (String.◌++◌ "/" t))) ≡ some (String.◌∷◌ c s)
    go later none e k = ground (arith, later e)
    go later (some p) e k = ground arith

text_is_true : (s : String) → s ≢ "" → truthy (some s) ≡ some s
unfolding truthy
text_is_true s named = ground (arith, eq_iff s "")

read_back :
    (provider id : String)
    → provider ≢ ""
    → before_slash provider ≡ none
    → provider_of (some (String.◌++◌ provider (String.◌++◌ "/" id))) ≡ some provider
unfolding provider_of
read_back provider id named h =
    let model_ref = String.◌++◌ provider (String.◌++◌ "/" id) in
    ap provider_in (text_is_true model_ref (append-ne-nil provider id))
    ∙ ap truthy (before_slash-append provider id h)
    ∙ text_is_true provider named

module _ {Price : Type 0} where
  -- The provider of a model's reference is the model's provider, if that has a name without a slash.
  pub provider_of-model_ref :
      (m : Model Price)
      → m.provider ≢ ""
      → before_slash m.provider ≡ none
      → provider_of (some (model_ref m)) ≡ some m.provider
  unfolding model_ref
  provider_of-model_ref m named h = read_back m.provider m.id named h
