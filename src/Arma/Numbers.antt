-- ===== src/Arma/Numbers.antt =====
-- The conversions between numbers and text that the parser and the printer take from the standard
-- library: `std::to_string`, `std::stoll`, `std::stoull` and the hexadecimal streams.
pub mod RoundTrip
pub mod Total
pub mod Range
use operation_front_line.Common.{
  ℕ, zero, suc, ◌+◌, ◌-◌, ◌*◌, ◌/◌, ◌%◌, ◌^◌, Bool, true, false, not, ◌&&◌, ◌||◌, Option, none,
  some, List, [], ◌∷◌, ltb, leb, ◌==◌, if◌then◌else◌, ℤ, pos, negsuc,
}
use operation_front_line.Arma.{Parse, ok, throws, ◌>>=◌}

abbrev pub digit_char : ℕ → ℕ
digit_char d = if ltb d 10 then b'0' + d else b'a' + (d - 10)

-- One digit for each turn; the number itself is fuel enough.
pub digits : ℕ → ℕ → ℕ → List ℕ → List ℕ
digits zero base n out = out
digits (suc fuel) base zero out = out
digits (suc fuel) base (suc n) out =
    digits fuel base (suc n / base) (digit_char (suc n % base) ∷ out)

pub print_number : ℕ → ℕ → List ℕ
print_number base zero = b'0' ∷ []
print_number base (suc n) = digits (suc n) base (suc n) []

-- `std::to_string`
abbrev pub to_string_unsigned : ℕ → List ℕ
to_string_unsigned n = print_number 10 n

abbrev pub to_string_signed : ℤ → List ℕ
to_string_signed (pos n) = print_number 10 n
to_string_signed (negsuc n) = b'-' ∷ print_number 10 (suc n)

abbrev pub digit_code : ℕ → ℕ → ℕ
digit_code base c =
    if leb b'0' c && leb c b'9'
    then c - b'0'
    else if leb b'a' c && leb c b'f'
    then c - b'a' + 10
    else if leb b'A' c && leb c b'F'
    then c - b'A' + 10
    else base

abbrev pub is_digit : ℕ → ℕ → Bool
is_digit base c = ltb (digit_code base c) base

-- The number that the digits in front spell behind `n`.
pub read_digits : ℕ → List ℕ → ℕ → ℕ
read_digits base [] n = n
read_digits base (c ∷ s) n = elim (is_digit base c) [
  | true ↦ read_digits base s (n * base + digit_code base c)
  | false ↦ n
]

abbrev pub is_space : ℕ → Bool
is_space c = (c == 32) || (leb 9 c && leb c 13)

pub skip_space : List ℕ → List ℕ
skip_space [] = []
skip_space (c ∷ s) = elim (is_space c) [ true ↦ skip_space s | false ↦ c ∷ s ]

-- A minus sign, or not, and what follows the sign.
pub read_sign : List ℕ → Bool × List ℕ
read_sign [] = (false, [])
read_sign (c ∷ s) =
    if c == b'-' then (true, s) else if c == b'+' then (false, s) else (false, c ∷ s)

-- The `0x` that may stand before hexadecimal digits.
pub skip_prefix : List ℕ → List ℕ
skip_prefix (c ∷ x ∷ d ∷ s) =
    if (c == b'0') && ((x == b'x') || (x == b'X')) && is_digit 16 d then d ∷ s else c ∷ x ∷ d ∷ s
skip_prefix s = s

-- `none` where no digit stands in front.
pub read_number : ℕ → List ℕ → Option ℕ
read_number base [] = none
read_number base (c ∷ s) = if is_digit base c then some (read_digits base (c ∷ s) 0) else none

abbrev pub negated : ℕ → ℤ
negated zero = pos zero
negated (suc n) = negsuc n

-- A minus sign negates in 64 bits.
abbrev pub unsigned_of : Bool → ℕ → Parse ℕ
unsigned_of minus n =
    if leb (2 ^ 64) n then throws else ok (if minus then (2 ^ 64 - n) % 2 ^ 64 else n)

abbrev pub signed_of : Bool → ℕ → Parse ℤ
signed_of true n = if ltb (2 ^ 63) n then throws else ok (negated n)
signed_of false n = if leb (2 ^ 63) n then throws else ok (pos n)

abbrev pub hex_of : Bool → ℕ → ℕ
hex_of minus n = if leb (2 ^ 64) n then 2 ^ 64 - 1 else if minus then (2 ^ 64 - n) % 2 ^ 64 else n

abbrev pub number_of : {A : Type 0} → (Bool → ℕ → Parse A) → Bool × List ℕ → Parse A
number_of of (minus, t) = elim (read_number 10 t) [ none ↦ throws | some n ↦ of minus n ]

abbrev pub hex_number : Bool × List ℕ → ℕ
hex_number (minus, t) = elim (read_number 16 (skip_prefix t)) [ none ↦ 0 | some n ↦ hex_of minus n ]

-- `std::stoull`
pub stoull : List ℕ → Parse ℕ
stoull s = number_of unsigned_of (read_sign (skip_space s))

-- `std::stoll`
pub stoll : List ℕ → Parse ℤ
stoll s = number_of signed_of (read_sign (skip_space s))

-- `stream >> std::hex >> n` for a 64-bit `n`: 0 where no digit stands, the greatest number past it.
pub read_hex : List ℕ → ℕ
read_hex s = hex_number (read_sign (skip_space s))
