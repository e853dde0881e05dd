-- ===== src/Arma/Numbers/RoundTrip.antt =====
-- What the printers of numbers write, the parsers read back.
use operation_front_line.Common.{
  ℕ, zero, suc, ◌+◌, ◌*◌, ◌/◌, ◌%◌, ◌^◌, ◌≤◌, ◌<◌, ◌≡◌, ◌≢◌, refl, ap, ◌∙◌, ◌⊎◌, inl, inr, Bool,
  true, false, some, List, [], ◌∷◌, ℤ, pos, negsuc, arith,
}
use operation_front_line.Arma.{Parse, ok}
use operation_front_line.Arma.Numbers.{
  digit_char, digits, print_number, to_string_signed, digit_code, read_digits, skip_space,
  read_sign, skip_prefix, read_number, unsigned_of, signed_of, hex_of, number_of, hex_number,
  stoull, stoll, read_hex,
}

-- The bases that the program prints in.
abbrev pub IsBase : ℕ → Type 0
IsBase base = (base ≡ 10) ⊎ (base ≡ 16)

digit_code-digit_char : (base d : ℕ) → IsBase base → d < base → digit_code base (digit_char d) ≡ d
digit_code-digit_char base d (inl e) h = ground arith
digit_code-digit_char base d (inr e) h = ground arith

read_digits-cons :
    (base c n : ℕ) (s : List ℕ) (d : ℕ)
    → digit_code base c ≡ d
    → d < base
    → read_digits base (c ∷ s) n ≡ read_digits base s (n * base + d)
unfolding read_digits
read_digits-cons base c n s d e h = ground arith

-- A number is its digits but the last, and the last.
split :
    (base n : ℕ)
    → IsBase base
    → (n / base * base + n % base ≡ n) × (n % base < base) × (0 < n → n / base < n)
split base n (inl e) = rw e (omega arith)
split base n (inr e) = rw e (omega arith)

read_digits-digits :
    (fuel base n : ℕ) (out : List ℕ)
    → IsBase base
    → n ≤ fuel
    → read_digits base (digits fuel base n out) 0 ≡ read_digits base out n
unfolding digits
read_digits-digits zero base n out b h = ap (read_digits base out) (omega arith)
read_digits-digits (suc fuel) base zero out b h = refl
read_digits-digits (suc fuel) base (suc n) out b h =
    let (whole, small, less) = split base (suc n) b in
    read_digits-digits fuel base (suc n / base) (digit_char (suc n % base) ∷ out) b
      (omega (arith, less (omega arith)))
    ∙ read_digits-cons base (digit_char (suc n % base)) (suc n / base) out (suc n % base)
        (digit_code-digit_char base (suc n % base) b small) small
    ∙ ap (read_digits base out) whole

-- Digits in lower case, of a base.
abbrev pub IsDigitChar : ℕ → ℕ → Type 0
IsDigitChar base c =
    (((b'0' ≤ c) × (c ≤ b'9')) ⊎ ((b'a' ≤ c) × (c ≤ b'f'))) × (digit_code base c < base)

abbrev pub AllDigits : ℕ → List ℕ → Type 0
AllDigits base [] = Unit {0}
AllDigits base (c ∷ s) = IsDigitChar base c × AllDigits base s

digit_char-IsDigitChar : (base d : ℕ) → IsBase base → d < base → IsDigitChar base (digit_char d)
digit_char-IsDigitChar base d (inl e) h = ground arith
digit_char-IsDigitChar base d (inr e) h = ground arith

digits-AllDigits :
    (fuel base n : ℕ) (out : List ℕ)
    → IsBase base
    → AllDigits base out
    → AllDigits base (digits fuel base n out)
unfolding digits
digits-AllDigits zero base n out b h = h
digits-AllDigits (suc fuel) base zero out b h = h
digits-AllDigits (suc fuel) base (suc n) out b h =
    digits-AllDigits fuel base (suc n / base) (digit_char (suc n % base) ∷ out) b
      (digit_char-IsDigitChar base (suc n % base) b (split base (suc n) b).1, h)

pub print_number-AllDigits : (base n : ℕ) → IsBase base → AllDigits base (print_number base n)
unfolding print_number
print_number-AllDigits base zero b = ((inl (omega arith), ground arith), tt)
print_number-AllDigits base (suc n) b = digits-AllDigits (suc n) base (suc n) [] b tt

digits-ne-nil : (fuel base n : ℕ) (c : ℕ) (out : List ℕ) → digits fuel base n (c ∷ out) ≢ []
unfolding digits
digits-ne-nil zero base n c out = cc
digits-ne-nil (suc fuel) base zero c out = cc
digits-ne-nil (suc fuel) base (suc n) c out =
    digits-ne-nil fuel base (suc n / base) (digit_char (suc n % base)) (c ∷ out)

pub print_number-ne-nil : (base n : ℕ) → print_number base n ≢ []
unfolding print_number digits
print_number-ne-nil base zero = cc
print_number-ne-nil base (suc n) =
    digits-ne-nil n base (suc n / base) (digit_char (suc n % base)) []

read_digits-print_number : (base n : ℕ) → IsBase base → read_digits base (print_number base n) 0 ≡ n
unfolding print_number read_digits
read_digits-print_number base zero b =
    read_digits-cons base b'0' 0 [] 0 (ground arith) (omega arith) ∙ omega arith
read_digits-print_number base (suc n) b = read_digits-digits (suc n) base (suc n) [] b (omega arith)

-- A number that starts with a digit has no space, no sign and no prefix in front.
module _ (base c : ℕ) (s : List ℕ) (h : IsDigitChar base c) where
  skip_space-digit : skip_space (c ∷ s) ≡ c ∷ s
  unfolding skip_space
  skip_space-digit = ground arith

  read_sign-digit : read_sign (c ∷ s) ≡ (false, c ∷ s)
  unfolding read_sign
  read_sign-digit = ground arith

  read_number-digit : read_number base (c ∷ s) ≡ some (read_digits base (c ∷ s) 0)
  unfolding read_number
  read_number-digit = ground arith

skip_prefix-AllDigits : (base : ℕ) (s : List ℕ) → AllDigits base s → skip_prefix s ≡ s
unfolding skip_prefix
skip_prefix-AllDigits base [] h = refl
skip_prefix-AllDigits base (c ∷ []) h = refl
skip_prefix-AllDigits base (c ∷ x ∷ []) h = refl
skip_prefix-AllDigits base (c ∷ x ∷ d ∷ s) (hc, (hx, (hd, hs))) = ground arith

-- What is read from digits alone, and from digits behind a minus sign.
module _ (base : ℕ) (s : List ℕ) (ne : s ≢ []) (h : AllDigits base s) where
  plain_digits : read_sign (skip_space s) ≡ (false, s)
  plain_digits = go s ne h
    where
      go : (s : List ℕ) → s ≢ [] → AllDigits base s → read_sign (skip_space s) ≡ (false, s)
      go [] ne h = absurd (ne refl)
      go (c ∷ s) ne (hc, hs) = rw (skip_space-digit base c s hc) (read_sign-digit base c s hc)

  read_number-AllDigits : read_number base s ≡ some (read_digits base s 0)
  read_number-AllDigits = go s ne h
    where
      go :
          (s : List ℕ)
          → s ≢ []
          → AllDigits base s
          → read_number base s ≡ some (read_digits base s 0)
      go [] ne h = absurd (ne refl)
      go (c ∷ s) ne (hc, hs) = read_number-digit base c s hc

module _ (base n : ℕ) (b : IsBase base) where
  printed : read_sign (skip_space (print_number base n)) ≡ (false, print_number base n)
  printed =
      plain_digits base (print_number base n) (print_number-ne-nil base n)
        (print_number-AllDigits base n b)

  read_printed : read_number base (print_number base n) ≡ some n
  read_printed =
      read_number-AllDigits base (print_number base n) (print_number-ne-nil base n)
        (print_number-AllDigits base n b)
      ∙ ap some (read_digits-print_number base n b)

number_of-printed :
    {A : Type 0} (of : Bool → ℕ → Parse A) (minus : Bool) (n : ℕ)
    → number_of of (minus, print_number 10 n) ≡ of minus n
number_of-printed of minus n = rw (number_of, read_printed 10 n (inl refl)) refl

unsigned_of-fits : (n : ℕ) → n < 2 ^ 64 → unsigned_of false n ≡ ok n
unsigned_of-fits n h = ground arith

-- `stoull` reads back what `to_string` writes.
pub stoull-to_string : (n : ℕ) → n < 2 ^ 64 → stoull (print_number 10 n) ≡ ok n
unfolding stoull
stoull-to_string n h =
    ap (number_of unsigned_of) (printed 10 n (inl refl))
    ∙ number_of-printed unsigned_of false n
    ∙ unsigned_of-fits n h

-- The range of `long long int`.
abbrev pub FitsSigned : ℤ → Type 0
FitsSigned (pos n) = n < 2 ^ 63
FitsSigned (negsuc n) = n < 2 ^ 63

read_minus : (s : List ℕ) → read_sign (skip_space (b'-' ∷ s)) ≡ (true, s)
unfolding read_sign skip_space
read_minus s = refl

signed_of-pos : (n : ℕ) → n < 2 ^ 63 → signed_of false n ≡ ok (pos n)
signed_of-pos n h = ground arith

signed_of-negsuc : (n : ℕ) → n < 2 ^ 63 → signed_of true (suc n) ≡ ok (negsuc n)
signed_of-negsuc n h = ground arith

-- `stoll` reads back what `to_string` writes.
pub stoll-to_string : (z : ℤ) → FitsSigned z → stoll (to_string_signed z) ≡ ok z
unfolding stoll
stoll-to_string (pos n) h =
    ap (number_of signed_of) (printed 10 n (inl refl))
    ∙ number_of-printed signed_of false n
    ∙ signed_of-pos n h
stoll-to_string (negsuc n) h =
    ap (number_of signed_of) (read_minus (print_number 10 (suc n)))
    ∙ number_of-printed signed_of true (suc n)
    ∙ signed_of-negsuc n h

hex_of-fits : (n : ℕ) → n < 2 ^ 64 → hex_of false n ≡ n
hex_of-fits n h = ground arith

hex_number-printed : (n : ℕ) → hex_number (false, print_number 16 n) ≡ hex_of false n
hex_number-printed n =
    rw
      (
        hex_number,
        skip_prefix-AllDigits 16 (print_number 16 n) (print_number-AllDigits 16 n (inr refl)),
        read_printed 16 n (inr refl),
      )
      refl

-- A hexadecimal stream reads back what one writes.
pub read_hex-print_number : (n : ℕ) → n < 2 ^ 64 → read_hex (print_number 16 n) ≡ n
unfolding read_hex
read_hex-print_number n h =
    ap hex_number (printed 16 n (inr refl)) ∙ hex_number-printed n ∙ hex_of-fits n h
