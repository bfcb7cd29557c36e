-- ===== src/Strconv.antt =====
-- Go's `strconv.FormatInt`, `Itoa` and `ParseInt` in base 10, over byte strings.
-- `Laws` has the round trip.
pub mod Laws
use static_web.Prelude.{
  ℕ, zero, suc, ◌+◌, ◌-◌, ◌*◌, ◌/◌, ◌%◌, ◌^◌, ℤ, pos, negsuc, Option, none, some, [], ◌∷◌, true,
  false, ◌||◌, Bytes, ltb, ◌==◌, if◌then◌else◌,
}

-- `for n > 0 { out = byte('0' + n%10) + out; n /= 10 }`; `n` rounds are enough.
digits : ℕ → ℕ → Bytes → Bytes
digits zero n out = out
digits (suc f) n out = elim (n == 0) [
  | true ↦ out
  | false ↦ digits f (n / 10) ((b'0' + n % 10) ∷ out)
]

unfoldable pub format : ℕ → Bytes
unfolding digits
format n = if n == 0 then b'0' ∷ [] else digits n n []

unfoldable pub format_int : ℤ → Bytes
unfolding format
format_int (pos n) = format n
format_int (negsuc n) = b'-' ∷ format (suc n)

scan : Bytes → ℕ → Option ℕ
scan [] n = some n
scan (c ∷ s) n =
    let rest = scan s (n * 10 + (c - b'0')) in if ltb c b'0' || ltb b'9' c then none else rest

parse_nat : Bytes → Option ℕ
unfolding scan
parse_nat [] = none
parse_nat (c ∷ s) = scan (c ∷ s) 0

-- The sign is applied, and a value outside int64 is an error.
to_pos : Option ℕ → Option ℤ
to_pos none = none
to_pos (some n) = if ltb n (2 ^ 63) then some (pos n) else none

to_neg : Option ℕ → Option ℤ
to_neg none = none
to_neg (some zero) = some (pos 0)
to_neg (some (suc n)) = if ltb n (2 ^ 63) then some (negsuc n) else none

-- `strconv.ParseInt(s, 10, 64)`; `none` stands for an error.
unfoldable pub parse_int : Bytes → Option ℤ
unfolding parse_nat to_pos to_neg
parse_int [] = none
parse_int (c ∷ s) =
    if c == b'-'
    then to_neg (parse_nat s)
    else if c == b'+'
    then to_pos (parse_nat s)
    else to_pos (parse_nat (c ∷ s))
