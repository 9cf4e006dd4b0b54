-- ===== src/Numbers.antt =====
-- strtol(3) with base 0 and the %d of printf(3), as soml/lib/shared/schema.c uses them: a number at
-- the beginning of a text, and the text of an int.
pub mod RoundTrip
pub mod Bits
use semantic_oml.Base.{
  ℕ, zero, suc, ◌+◌, ◌-◌, ◌*◌, ◌/◌, ◌%◌, ◌^◌, List, [], ◌∷◌, ◌++◌, Option, none, some, Bool, true,
  false, ltb, leb, ◌==◌, ◌&&◌, ◌||◌, if◌then◌else◌, min,
}
use semantic_oml.Base.Int.{ℤ, pos, negsuc}
use semantic_oml.Strings.{is_space}

-- The value of a digit, 36 for no digit.
unfoldable pub digit_value : ℕ → ℕ
digit_value c =
    if leb b'0' c && leb c b'9'
    then c - b'0'
    else if leb b'a' c && leb c b'z'
    then c - b'a' + 10
    else if leb b'A' c && leb c b'Z'
    then c - b'A' + 10
    else 36

-- The digits in front of a text, behind those that make `acc`, and what follows them.
pub digits_from : ℕ → ℕ → List ℕ → ℕ × List ℕ
digits_from base acc [] = (acc, [])
digits_from base acc (c ∷ s) =
    let rest = digits_from base (acc * base + digit_value c) s in
    if ltb (digit_value c) base then rest else (acc, c ∷ s)

-- A first digit must be there.
pub unsigned_in : ℕ → List ℕ → Option (ℕ × List ℕ)
unsigned_in base [] = none
unsigned_in base (c ∷ s) =
    if ltb (digit_value c) base then some (digits_from base 0 (c ∷ s)) else none

-- What follows a zero, if it is an "x" and a digit: the digits.
hex_digits : List ℕ → Option (List ℕ)
hex_digits (x ∷ d ∷ s) =
    if ((x == b'x') || (x == b'X')) && ltb (digit_value d) 16 then some (d ∷ s) else none
hex_digits s = none

-- "0x" in front of a digit, a leading zero, or neither.
pub unsigned : List ℕ → Option (ℕ × List ℕ)
unfolding hex_digits unsigned_in
unsigned [] = none
unsigned (c ∷ s) =
    if c == b'0'
    then elim (hex_digits s) [
      | none ↦ some (digits_from 8 0 (c ∷ s))
      | some ds ↦ some (digits_from 16 0 ds)
    ]
    else unsigned_in 10 (c ∷ s)

-- A long that is kept as an int: LONG_MAX and LONG_MIN for what a long does not hold.
unfoldable pub int_bits : ℕ → ℤ
int_bits n = if ltb n (2 ^ 31) then pos n else negsuc (2 ^ 32 - 1 - n)

unfoldable pub to_int : Bool → ℕ → ℤ
to_int false m = int_bits (min m (2 ^ 63 - 1) % 2 ^ 32)
to_int true m = int_bits ((2 ^ 64 - min m (2 ^ 63)) % 2 ^ 32)

with_sign : Bool → Option (ℕ × List ℕ) → Option (Bool × ℕ × List ℕ)
with_sign minus none = none
with_sign minus (some (m, rest)) = some (minus, m, rest)

after_sign : (List ℕ → Option (ℕ × List ℕ)) → List ℕ → Option (Bool × ℕ × List ℕ)
unfolding with_sign
after_sign digits [] = none
after_sign digits (c ∷ s) =
    if c == b'-'
    then with_sign true (digits s)
    else if c == b'+'
    then with_sign false (digits s)
    else with_sign false (digits (c ∷ s))

-- Spaces, a sign and digits: whether it is a minus, the number, and the text behind it.
unfoldable pub magnitude : (List ℕ → Option (ℕ × List ℕ)) → List ℕ → Option (Bool × ℕ × List ℕ)
unfolding after_sign with_sign is_space
magnitude digits [] = none
magnitude digits (c ∷ s) =
    let rest = magnitude digits s in if is_space c then rest else after_sign digits (c ∷ s)

as_int : Option (Bool × ℕ × List ℕ) → Option (ℤ × List ℕ)
as_int none = none
as_int (some (minus, m, rest)) = some (to_int minus m, rest)

-- The number as an int and the text behind it; `none` if there are no digits.
unfoldable pub strtol : List ℕ → Option (ℤ × List ℕ)
unfolding as_int magnitude after_sign with_sign unsigned unsigned_in hex_digits digits_from
    digit_value to_int int_bits is_space
strtol s = as_int (magnitude unsigned s)

-- atoi(3), and atol(3) that is kept as an int: base 10, and 0 if there are no digits.
int_or_zero : Option (Bool × ℕ × List ℕ) → ℤ
int_or_zero none = pos 0
int_or_zero (some (minus, m, rest)) = to_int minus m

unfoldable pub atoi : List ℕ → ℤ
unfolding int_or_zero magnitude after_sign with_sign unsigned_in digits_from digit_value to_int
    int_bits is_space
atoi s = int_or_zero (magnitude (unsigned_in 10) s)

-- The decimal digits of a number below 10 ^ fuel.
pub decimal : ℕ → ℕ → List ℕ
decimal zero n = []
decimal (suc fuel) n =
    let front = decimal fuel (n / 10) in
    if ltb n 10 then (b'0' + n) ∷ [] else front ++ ((b'0' + n % 10) ∷ [])

-- Ten digits are enough for an int.
pub print_int : ℤ → List ℕ
print_int (pos n) = decimal 10 n
print_int (negsuc n) = b'-' ∷ decimal 10 (n + 1)

-- The %u of an int
pub print_unsigned : ℤ → List ℕ
print_unsigned (pos n) = decimal 10 n
print_unsigned (negsuc n) = decimal 10 (2 ^ 32 - 1 - n)

-- The 64 bits that strtol(3) and strtoll(3) return, and whether errno is ERANGE.
unfoldable pub long_bits : Bool → ℕ → ℕ × Bool
long_bits false m = if ltb m (2 ^ 63) then (m, false) else (2 ^ 63 - 1, true)
long_bits true m = if leb m (2 ^ 63) then ((2 ^ 64 - m) % 2 ^ 64, false) else (2 ^ 63, true)

-- The same of strtoul(3) and strtoull(3)
unfoldable pub ulong_bits : Bool → ℕ → ℕ × Bool
ulong_bits minus m =
    if ltb m (2 ^ 64)
    then (if minus then (2 ^ 64 - m) % 2 ^ 64 else m, false)
    else (2 ^ 64 - 1, true)

bits_by : (Bool → ℕ → ℕ × Bool) → Option (Bool × ℕ × List ℕ) → Option (ℕ × Bool × List ℕ)
bits_by bits none = none
bits_by bits (some (minus, m, rest)) = some ((bits minus m).0, (bits minus m).1, rest)

-- The bits, whether they are out of range, and the text behind; `none` if there are no digits.
unfoldable pub strtoll : List ℕ → Option (ℕ × Bool × List ℕ)
unfolding bits_by magnitude unsigned unsigned_in hex_digits digits_from digit_value long_bits
strtoll s = bits_by long_bits (magnitude unsigned s)

unfoldable pub strtoull : List ℕ → Option (ℕ × Bool × List ℕ)
unfolding bits_by magnitude unsigned unsigned_in hex_digits digits_from digit_value ulong_bits
strtoull s = bits_by ulong_bits (magnitude unsigned s)

-- strtoull(3) with base 10
unfoldable pub strtoull_10 : List ℕ → Option (ℕ × Bool × List ℕ)
unfolding bits_by magnitude unsigned_in digits_from digit_value ulong_bits
strtoull_10 s = bits_by ulong_bits (magnitude (unsigned_in 10) s)

-- The PRIu64 of an unsigned number below 10 ^ 20, and the PRId32 or PRId64 of the bits of a signed one.
unfoldable pub print_uint : ℕ → List ℕ
unfolding decimal
print_uint n = decimal 20 n

unfoldable pub print_sint : ℕ → ℕ → List ℕ
unfolding decimal
print_sint w n = if ltb n (2 ^ (w - 1)) then decimal 20 n else b'-' ∷ decimal 20 (2 ^ w - n)
