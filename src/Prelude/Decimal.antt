-- ===== src/Prelude/Decimal.antt =====
-- Decimal numerals, as `${n}` writes a number.
use Prim.Native.Nat.{ℕ, zero, suc, ◌+◌, ◌*◌}
use Prim.Native.String
use Prim.Native.String.{String}
use mathlib.Core.Path.{◌≡◌, refl}
use mathlib.Core.List.{List, [], ◌∷◌}
use native.Mathlib.Omega.{arith}
use akko.Prelude.Tests.{if◌then◌else◌, nat_eq}

-- The numeral of the next number, the last digit first.
abbrev bump : List ℕ → List ℕ
bump [] = 1 ∷ []
bump (d ∷ ds) = let rest = bump ds in if nat_eq d 9 then 0 ∷ rest else (d + 1) ∷ ds

abbrev digits : ℕ → List ℕ
digits zero = 0 ∷ []
digits (suc n) = bump (digits n)

abbrev value : List ℕ → ℕ
value [] = 0
value (d ∷ ds) = d + 10 * value ds

value-bump : (ds : List ℕ) → value (bump ds) ≡ value ds + 1
value-bump [] = refl
value-bump (d ∷ ds) = ground (arith, value-bump ds)

-- The digits of a number stand for it.
value-digits : (n : ℕ) → value (digits n) ≡ n
value-digits zero = refl
value-digits (suc n) = omega (arith, value-bump (digits n), value-digits n)

abbrev digit_text : ℕ → String
digit_text zero = "0"
digit_text (suc zero) = "1"
digit_text (suc (suc zero)) = "2"
digit_text (suc (suc (suc zero))) = "3"
digit_text (suc (suc (suc (suc zero)))) = "4"
digit_text (suc (suc (suc (suc (suc zero))))) = "5"
digit_text (suc (suc (suc (suc (suc (suc zero)))))) = "6"
digit_text (suc (suc (suc (suc (suc (suc (suc zero))))))) = "7"
digit_text (suc (suc (suc (suc (suc (suc (suc (suc zero)))))))) = "8"
digit_text (suc (suc (suc (suc (suc (suc (suc (suc (suc n))))))))) = "9"

abbrev write_digits : List ℕ → String → String
write_digits [] end = end
write_digits (d ∷ ds) end = write_digits ds (String.◌++◌ (digit_text d) end)

-- `${n}`
unfoldable pub show : ℕ → String
show n = write_digits (digits n) ""

shows : show 120 ≡ "120"
unfolding show
shows = refl
