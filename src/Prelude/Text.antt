-- ===== src/Prelude/Text.antt =====
-- What the source does with texts by their characters: `trim`, `split`, `replace` of a class of
-- characters, `join` and `Number.parseInt` to the base ten.
use Prim.Native.Nat.{ℕ, zero, suc, ◌+◌, ◌-◌, ◌*◌}
use Prim.Native.Char.{Char, code}
use Prim.Native.String
use Prim.Native.String.{String}
use mathlib.Core.Path.{◌≡◌, refl}
use mathlib.Core.Bool.{Bool, false, ◌&&◌, ◌||◌}
use mathlib.Core.Option.{Option, none, some}
use mathlib.Core.List.{List, [], ◌∷◌}
use text.Mathlib.Text.{◌==◌}
use akko.Prelude.Tests.{if◌then◌else◌, leb, nat_eq}

abbrev within : ℕ → ℕ → ℕ → Bool
within low high c = leb low c && leb c high

-- White space and line ends, as `trim` and `\s` take them.
unfoldable pub is_space : ℕ → Bool
is_space c =
    within 9 13 c
    || nat_eq c 32
    || nat_eq c 160
    || nat_eq c 5760
    || within 8192 8202 c
    || within 8232 8233 c
    || nat_eq c 8239
    || nat_eq c 8287
    || nat_eq c 12288
    || nat_eq c 65279

unfoldable pub trim_start : String → String
unfolding is_space
trim_start String.[] = ""
trim_start (String.◌∷◌ c s) =
    let rest = trim_start s in if is_space (code c) then rest else String.◌∷◌ c s

unfoldable pub trim_end : String → String
unfolding is_space
trim_end String.[] = ""
trim_end (String.◌∷◌ c s) =
    let rest = trim_end s in if is_space (code c) && (rest == "") then "" else String.◌∷◌ c rest

-- `s.trim()`
unfoldable pub trim : String → String
unfolding trim_start trim_end
trim s = trim_end (trim_start s)

abbrev push : Char → List String → List String
push c [] = String.◌∷◌ c "" ∷ []
push c (part ∷ parts) = String.◌∷◌ c part ∷ parts

-- `s.split(separator)`, for a separator of one character
unfoldable pub split : ℕ → String → List String
split separator String.[] = "" ∷ []
split separator (String.◌∷◌ c s) =
    let parts = split separator s in if nat_eq (code c) separator then "" ∷ parts else push c parts

-- `parts.join(separator)`
unfoldable pub join : String → List String → String
join separator [] = ""
join separator (part ∷ []) = part
join separator (part ∷ next ∷ parts) =
    String.◌++◌ part (String.◌++◌ separator (join separator (next ∷ parts)))

-- `s.replace(class, to)` of every character of a class
unfoldable pub replace_each : (ℕ → Bool) → String → String → String
replace_each class to String.[] = ""
replace_each class to (String.◌∷◌ c s) =
    let rest = replace_each class to s in
    if class (code c) then String.◌++◌ to rest else String.◌∷◌ c rest

abbrev pub is_digit : ℕ → Bool
is_digit c = within b'0' b'9' c

-- The digits that a text begins with, on top of the number that has been read.
unfoldable pub digits_from : String → ℕ → ℕ
digits_from String.[] n = n
digits_from (String.◌∷◌ c s) n =
    let more = digits_from s (n * 10 + (code c - b'0')) in if is_digit (code c) then more else n

abbrev pub begins_with_digit : String → Bool
begins_with_digit String.[] = false
begins_with_digit (String.◌∷◌ c s) = is_digit (code c)

-- The sign of what `parseInt` reads; `-0` is zero.
pub data ℤ : Type 0 where
  pos negsuc : ℕ → ℤ

abbrev negate : ℕ → ℤ
negate zero = pos 0
negate (suc n) = negsuc n

abbrev unsigned : (ℕ → ℤ) → String → Option ℤ
unsigned sign s = if begins_with_digit s then some (sign (digits_from s 0)) else none

abbrev signed : String → Option ℤ
signed String.[] = none
signed (String.◌∷◌ c s) =
    if nat_eq (code c) b'-'
    then unsigned negate s
    else if nat_eq (code c) b'+'
    then unsigned pos s
    else unsigned pos (String.◌∷◌ c s)

-- `Number.parseInt(s, 10)`: none is NaN.
unfoldable pub parse_int : String → Option ℤ
unfolding trim_start digits_from
parse_int s = signed (trim_start s)

reads_prefix : parse_int " 12px" ≡ some (pos 12)
unfolding parse_int
reads_prefix = refl

reads_sign : parse_int "-3" ≡ some (negsuc 2)
unfolding parse_int
reads_sign = refl

not_a_number : parse_int "two" ≡ none
unfolding parse_int
not_a_number = refl

splits : split b',' "a,,b" ≡ "a" ∷ "" ∷ "b" ∷ []
unfolding split
splits = refl

trims : trim "  a b \n" ≡ "a b"
unfolding trim
trims = refl
