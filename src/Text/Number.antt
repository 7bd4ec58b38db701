-- ===== src/Text/Number.antt =====
-- Decimal numbers: `str(n)`, `int(s)` and the pattern `[0-9]+`, over ASCII digits.
use Prim.Native.Nat.{◌/◌, ◌%◌}
use Prim.Native.Char.{Char, code}
use Prim.Native.String.{[], ◌∷◌}
use astrum_weaver.Prelude.{
  ℕ, zero, suc, ◌+◌, ◌-◌, ◌*◌, String, ◌≡◌, refl, Bool, true, false, ◌&&◌, Option, none, some, ltb,
  leb, nat_eq, if◌then◌else◌, not, ℤ, pos, negsuc,
}
use astrum_weaver.Text.{is_blank}

unfoldable pub is_digit : Char → Bool
is_digit c = leb 48 (code c) && leb (code c) 57

-- `[0-9]*`, matched whole
unfoldable pub all_digits : String → Bool
unfolding is_digit
all_digits [] = true
all_digits (c ∷ s) = is_digit c && all_digits s

-- `[0-9]+`, matched whole
unfoldable pub is_number : String → Bool
unfolding all_digits
is_number s = not (is_blank s) && all_digits s

-- `int(s)`, for digits
unfoldable pub int_from : ℕ → String → ℕ
int_from n [] = n
int_from n (c ∷ s) = int_from (n * 10 + (code c - 48)) s

unfoldable pub digit_char : ℕ → Char
digit_char zero = "0"
digit_char (suc zero) = "1"
digit_char (suc (suc zero)) = "2"
digit_char (suc (suc (suc zero))) = "3"
digit_char (suc (suc (suc (suc zero)))) = "4"
digit_char (suc (suc (suc (suc (suc zero))))) = "5"
digit_char (suc (suc (suc (suc (suc (suc zero)))))) = "6"
digit_char (suc (suc (suc (suc (suc (suc (suc zero))))))) = "7"
digit_char (suc (suc (suc (suc (suc (suc (suc (suc zero)))))))) = "8"
digit_char _ = "9"

-- The digits of `n` in front of `out`; `n + 1` rounds are more than there are digits.
unfoldable pub emit : ℕ → ℕ → String → String
emit zero n out = out
emit (suc fuel) n out = elim (ltb n 10) [
  | true ↦ digit_char n ∷ out
  | false ↦ emit fuel (n / 10) (digit_char (n % 10) ∷ out)
]

-- `str(n)` in front of `out`
unfoldable pub decimal : ℕ → String → String
unfolding emit digit_char
decimal n out = emit (suc n) n out

-- `int(s, 10)` behind the sign: digits, with single underscores between them. The flag tells that a
-- digit stands directly before.
unfoldable pub int_digits : Bool → ℕ → String → Option ℕ
int_digits after n [] = if after then some n else none
int_digits after n (c ∷ s) =
    let digit = int_digits true (n * 10 + (code c - 48)) s in
    let underscore = int_digits false n s in
    if is_digit c then digit else if nat_eq (code c) 95 && after then underscore else none

negate : Option ℕ → Option ℤ
negate none = none
negate (some zero) = some (pos zero)
negate (some (suc n)) = some (negsuc n)

positive_of : Option ℕ → Option ℤ
positive_of none = none
positive_of (some n) = some (pos n)

-- `int(s, 10)` of a text without white space at its ends; `none` is `ValueError`
unfoldable pub python_int : String → Option ℤ
unfolding int_digits negate positive_of is_digit
python_int [] = none
python_int (c ∷ s) =
    if nat_eq (code c) 45
    then negate (int_digits false 0 s)
    else if nat_eq (code c) 43
    then positive_of (int_digits false 0 s)
    else positive_of (int_digits false 0 (c ∷ s))

grouped : python_int "-1_000" ≡ some (negsuc 999)
unfolding python_int
grouped = refl
