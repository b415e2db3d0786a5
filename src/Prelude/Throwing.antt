-- ===== src/Prelude/Throwing.antt =====
-- What a call that may throw gives back.
pub data Result {ℓ} (E : Type ℓ) (A : Type ℓ) : Type ℓ where
  failed : E → Result E A
  ok : A → Result E A
