-- ===== src/Numbers/RoundTrip.antt =====
-- An int is read back from its text.
use native.Mathlib.Nat.{pow-suc}
use semantic_oml.Base.{
  append-nil, All-append, ltb, Bool-cases, All, Option, sym, le_or_lt, ℕ, zero, suc, ◌+◌, ◌*◌, ◌/◌,
  ◌%◌, ◌^◌, ◌<◌, ◌≤◌, ◌≡◌, List, [], ◌∷◌, ◌++◌, some, true, false, arith, refl, append_assoc, ap,
  ◌∙◌, inl, inr,
}
use semantic_oml.Base.Int.{ℤ, pos, negsuc}
use semantic_oml.Strings.{is_space}
use semantic_oml.Numbers.{
  int_or_zero, atoi, unsigned_in, with_sign, magnitude, as_int, digit_value, digits_from, unsigned,
  int_bits, to_int, after_sign, strtol, decimal, print_int,
}

-- No digit of any base stands in front.
abbrev pub Stops : List ℕ → Type 0
Stops [] = Unit {0}
Stops (c ∷ s) = digit_value c ≡ 36

digits_from-Stops :
    (base acc : ℕ) (s : List ℕ) → base ≤ 36 → Stops s → digits_from base acc s ≡ (acc, s)
unfolding digits_from
digits_from-Stops base acc [] h st = refl
digits_from-Stops base acc (c ∷ s) h st = ground (arith, st, h)

digit_value-digit : (d : ℕ) → d < 10 → digit_value (b'0' + d) ≡ d
unfolding digit_value
digit_value-digit d h = ground arith

decimal_one : (fuel n : ℕ) → n < 10 → decimal (suc fuel) n ≡ (b'0' + n) ∷ []
unfolding decimal
decimal_one fuel n h = ground arith

decimal_more :
    (fuel n : ℕ) → 10 ≤ n → decimal (suc fuel) n ≡ decimal fuel (n / 10) ++ ((b'0' + n % 10) ∷ [])
unfolding decimal
decimal_more fuel n h = ground arith

digits_from_step :
    (acc d : ℕ) (rest : List ℕ)
    → d < 10
    → digits_from 10 acc ((b'0' + d) ∷ rest) ≡ digits_from 10 (acc * 10 + d) rest
unfolding digits_from
digits_from_step acc d rest h = ground (arith, digit_value-digit d h)

digits_from_start :
    (d : ℕ) (rest : List ℕ) → d < 10 → digits_from 10 0 ((b'0' + d) ∷ rest) ≡ digits_from 10 d rest
digits_from_start d rest h =
    digits_from_step 0 d rest h ∙ ap (λ k. digits_from 10 k rest) (omega arith)

digits_from-decimal :
    (fuel n : ℕ) (rest : List ℕ)
    → n < 10 ^ suc fuel
    → digits_from 10 0 (decimal (suc fuel) n ++ rest) ≡ digits_from 10 n rest
digits_from-decimal zero n rest h =
    rw (decimal_one zero n (omega arith)) (digits_from_start n rest (omega arith))
digits_from-decimal (suc fuel) n rest h = elim (le_or_lt 10 n) [
  | inr small ↦ rw (decimal_one (suc fuel) n small) (digits_from_start n rest small)
  | inl big ↦
      let last = b'0' + n % 10 in
      let front = decimal (suc fuel) (n / 10) in
      rw (decimal_more (suc fuel) n big) (
        ap (digits_from 10 0) (append_assoc front (last ∷ []) rest)
        ∙ digits_from-decimal fuel (n / 10) (last ∷ rest) (omega (arith, h, pow-suc 10 (suc fuel)))
        ∙ digits_from_step (n / 10) (n % 10) rest (omega arith)
        ∙ ap (λ k. digits_from 10 k rest) (omega arith))
]

-- The first digit of a number above 0 is no 0.
first_digit :
    (fuel n : ℕ)
    → 0 < n
    → n < 10 ^ suc fuel
    → (d : ℕ) × (ds : List ℕ) × (decimal (suc fuel) n ≡ d ∷ ds) × (b'0' < d) × (d ≤ b'9')
first_digit zero n p h = (b'0' + n, [], decimal_one zero n (omega arith), omega arith, omega arith)
first_digit (suc fuel) n p h = elim (le_or_lt 10 n) [
  | inr small ↦ (b'0' + n, [], decimal_one (suc fuel) n small, omega arith, omega arith)
  | inl big ↦
      let (d, ds, e, low, high) =
        first_digit fuel (n / 10) (omega arith) (omega (arith, h, pow-suc 10 (suc fuel))) in
      (
        d,
        ds ++ ((b'0' + n % 10) ∷ []),
        decimal_more (suc fuel) n big ∙ ap (λ l. l ++ ((b'0' + n % 10) ∷ [])) e,
        low,
        high,
      )
]

unsigned_first :
    (d : ℕ) (s : List ℕ) → b'0' < d → d ≤ b'9' → unsigned (d ∷ s) ≡ some (digits_from 10 0 (d ∷ s))
unfolding unsigned digit_value
unsigned_first d s low high = ground arith

unsigned_zero : (rest : List ℕ) → Stops rest → unsigned (b'0' ∷ rest) ≡ some (0, rest)
unfolding unsigned digits_from digit_value
unsigned_zero [] st = refl
unsigned_zero (c ∷ []) st = ground (arith, st)
unsigned_zero (c ∷ d ∷ s) st = ground (arith, st)

unsigned-decimal :
    (fuel n : ℕ) (rest : List ℕ)
    → n < 10 ^ suc fuel
    → Stops rest
    → unsigned (decimal (suc fuel) n ++ rest) ≡ some (n, rest)
unsigned-decimal fuel zero rest h st = rw (decimal_one fuel 0 (omega arith)) (unsigned_zero rest st)
unsigned-decimal fuel (suc k) rest h st =
    let n = suc k in
    let (d, ds, e, low, high) = first_digit fuel n (omega arith) h in
    let text = ap (λ l. l ++ rest) e in
    ap unsigned text
    ∙ unsigned_first d (ds ++ rest) low high
    ∙ ap some (
        ap (digits_from 10 0) (sym text)
        ∙ digits_from-decimal fuel n rest h
        ∙ digits_from-Stops 10 n rest (omega arith) st)

-- The numbers that an int has.
abbrev pub IsInt : ℤ → Type 0
IsInt (pos n) = n < 2 ^ 31
IsInt (negsuc n) = n < 2 ^ 31

magnitude_first :
    (digits : List ℕ → Option (ℕ × List ℕ)) (d : ℕ) (s : List ℕ)
    → b'0' ≤ d
    → d ≤ b'9'
    → magnitude digits (d ∷ s) ≡ with_sign false (digits (d ∷ s))
unfolding magnitude after_sign is_space
magnitude_first digits d s low high = ground arith

first_any :
    (fuel n : ℕ)
    → n < 10 ^ suc fuel
    → (d : ℕ) × (ds : List ℕ) × (decimal (suc fuel) n ≡ d ∷ ds) × (b'0' ≤ d) × (d ≤ b'9')
first_any fuel zero h = (b'0', [], decimal_one fuel 0 (omega arith), omega arith, omega arith)
first_any fuel (suc n) h =
    let (d, ds, e, low, high) = first_digit fuel (suc n) (omega arith) h in
    (d, ds, e, omega (arith, low), high)

magnitude_minus :
    (digits : List ℕ → Option (ℕ × List ℕ)) (s : List ℕ)
    → magnitude digits (b'-' ∷ s) ≡ with_sign true (digits s)
unfolding magnitude is_space after_sign
magnitude_minus digits s = refl

-- The digits of a number, with no digit or letter behind them, are read back.
pub magnitude-decimal :
    (fuel n : ℕ) (rest : List ℕ)
    → n < 10 ^ suc fuel
    → Stops rest
    → magnitude unsigned (decimal (suc fuel) n ++ rest) ≡ some (false, n, rest)
unfolding with_sign
magnitude-decimal fuel n rest h st =
    let (d, ds, e, low, high) = first_any fuel n h in
    let text = ap (λ l. l ++ rest) e in
    ap (magnitude unsigned) text
    ∙ magnitude_first unsigned d (ds ++ rest) low high
    ∙ ap (with_sign false) (ap unsigned (sym text) ∙ unsigned-decimal fuel n rest h st)

unsigned_in_first :
    (d : ℕ) (s : List ℕ)
    → b'0' ≤ d
    → d ≤ b'9'
    → unsigned_in 10 (d ∷ s) ≡ some (digits_from 10 0 (d ∷ s))
unfolding unsigned_in digit_value
unsigned_in_first d s low high = ground arith

-- The same with base 10 alone.
pub magnitude_10-decimal :
    (fuel n : ℕ) (rest : List ℕ)
    → n < 10 ^ suc fuel
    → Stops rest
    → magnitude (unsigned_in 10) (decimal (suc fuel) n ++ rest) ≡ some (false, n, rest)
unfolding with_sign
magnitude_10-decimal fuel n rest h st =
    let (d, ds, e, low, high) = first_any fuel n h in
    let text = ap (λ l. l ++ rest) e in
    ap (magnitude (unsigned_in 10)) text
    ∙ magnitude_first (unsigned_in 10) d (ds ++ rest) low high
    ∙ ap (with_sign false) (
        unsigned_in_first d (ds ++ rest) low high
        ∙ ap some (
            ap (digits_from 10 0) (sym text)
            ∙ digits_from-decimal fuel n rest h
            ∙ digits_from-Stops 10 n rest (omega arith) st))

pub magnitude-minus :
    (fuel n : ℕ) (rest : List ℕ)
    → n < 10 ^ suc fuel
    → Stops rest
    → magnitude unsigned (b'-' ∷ (decimal (suc fuel) n ++ rest)) ≡ some (true, n, rest)
unfolding with_sign
magnitude-minus fuel n rest h st =
    magnitude_minus unsigned (decimal (suc fuel) n ++ rest)
    ∙ ap (with_sign true) (unsigned-decimal fuel n rest h st)

to_int_pos : (n : ℕ) → n < 2 ^ 31 → to_int false n ≡ pos n
unfolding to_int int_bits
to_int_pos n h = ground arith

to_int_neg : (n : ℕ) → n < 2 ^ 31 → to_int true (n + 1) ≡ negsuc n
unfolding to_int int_bits
to_int_neg n h = ground arith

-- The text of an int, with no digit or letter behind it, is read as that int, and what stands
-- behind it is left.
pub strtol-print_int :
    (z : ℤ) (rest : List ℕ) → IsInt z → Stops rest → strtol (print_int z ++ rest) ≡ some (z, rest)
unfolding print_int strtol as_int
strtol-print_int (pos n) rest h st =
    ap as_int (magnitude-decimal 9 n rest (omega (arith, h)) st)
    ∙ ap (λ z. some (z, rest)) (to_int_pos n h)
strtol-print_int (negsuc n) rest h st =
    ap as_int (magnitude-minus 9 (n + 1) rest (omega (arith, h)) st)
    ∙ ap (λ z. some (z, rest)) (to_int_neg n h)

pub atoi-decimal :
    (fuel n : ℕ) → n < 2 ^ 31 → n < 10 ^ suc fuel → atoi (decimal (suc fuel) n) ≡ pos n
unfolding atoi int_or_zero
atoi-decimal fuel n h l =
    ap (λ s. int_or_zero (magnitude (unsigned_in 10) s)) (sym (append-nil (decimal (suc fuel) n)))
    ∙ ap int_or_zero (magnitude_10-decimal fuel n [] l tt)
    ∙ to_int_pos n h

pub atoi-print_int : (n : ℕ) → n < 2 ^ 31 → atoi (print_int (pos n)) ≡ pos n
unfolding print_int
atoi-print_int n h = atoi-decimal 9 n h (omega (arith, h))

abbrev pub IsDigit : ℕ → Type 0
IsDigit c = (b'0' ≤ c) × (c ≤ b'9')

-- Digits, and nothing else.
pub decimal-IsDigit : (fuel n : ℕ) → All IsDigit (decimal fuel n)
unfolding decimal
decimal-IsDigit zero n = tt
decimal-IsDigit (suc fuel) n = elim (Bool-cases (ltb n 10)) [
  | inl small ↦ rw small ((omega arith, ground (arith, small)), tt)
  | inr big ↦ rw big (
      All-append IsDigit (decimal fuel (n / 10)) ((b'0' + n % 10) ∷ [])
        (decimal-IsDigit fuel (n / 10)) ((omega arith, omega arith), tt))
]
