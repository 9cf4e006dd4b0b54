-- ===== src/Numbers/Bits.antt =====
-- The bits of a number are read back from its text.
use semantic_oml.Numbers.RoundTrip.{
  atoi-decimal, IsDigit, magnitude_10-decimal, decimal-IsDigit, Stops, magnitude-decimal,
  magnitude-minus,
}
use semantic_oml.Base.{
  [], ◌⊎◌, All, Bool-cases, Bool, ◌-◌, ltb, if◌then◌else◌, ℕ, ◌+◌, ◌^◌, ◌<◌, ◌≤◌, ◌≡◌, List, ◌∷◌,
  ◌++◌, some, true, false, arith, refl, ap, ◌∙◌, inl, inr,
}
use semantic_oml.Numbers.{
  pos, print_int, atoi, unsigned_in, strtoull_10, long_bits, print_uint, print_sint, bits_by,
  ulong_bits, strtoull, strtoll, magnitude, unsigned, decimal,
}

ulong_bits_pos : (n : ℕ) → n < 2 ^ 64 → ulong_bits false n ≡ (n, false)
unfolding ulong_bits
ulong_bits_pos n h = ground arith

strtoull_lem : (s : List ℕ) → strtoull s ≡ bits_by ulong_bits (magnitude unsigned s)
unfolding strtoull
strtoull_lem s = refl

strtoll_lem : (s : List ℕ) → strtoll s ≡ bits_by long_bits (magnitude unsigned s)
unfolding strtoll
strtoll_lem s = refl

bits_by-some :
    (bits : Bool → ℕ → ℕ × Bool) (minus : Bool) (m : ℕ) (rest : List ℕ) (w : ℕ) (e : Bool)
    → bits minus m ≡ (w, e)
    → bits_by bits (some (minus, m, rest)) ≡ some (w, e, rest)
unfolding bits_by
bits_by-some bits minus m rest w e h = ap (λ b. some (b.0, b.1, rest)) h

print_uint_lem : (n : ℕ) → print_uint n ≡ decimal 20 n
unfolding print_uint
print_uint_lem n = refl

-- A number of 64 bits is read back from its digits.
pub strtoull-print_uint :
    (n : ℕ) (rest : List ℕ)
    → n < 2 ^ 64
    → Stops rest
    → strtoull (print_uint n ++ rest) ≡ some (n, false, rest)
strtoull-print_uint n rest h st =
    ap (λ t. strtoull (t ++ rest)) (print_uint_lem n)
    ∙ strtoull_lem (decimal 20 n ++ rest)
    ∙ ap (bits_by ulong_bits) (magnitude-decimal 19 n rest (omega (arith, h)) st)
    ∙ bits_by-some ulong_bits false n rest n false (ulong_bits_pos n h)

strtoull_10_lem : (s : List ℕ) → strtoull_10 s ≡ bits_by ulong_bits (magnitude (unsigned_in 10) s)
unfolding strtoull_10
strtoull_10_lem s = refl

pub strtoull_10-print_uint :
    (n : ℕ) (rest : List ℕ)
    → n < 2 ^ 64
    → Stops rest
    → strtoull_10 (print_uint n ++ rest) ≡ some (n, false, rest)
strtoull_10-print_uint n rest h st =
    ap (λ t. strtoull_10 (t ++ rest)) (print_uint_lem n)
    ∙ strtoull_10_lem (decimal 20 n ++ rest)
    ∙ ap (bits_by ulong_bits) (magnitude_10-decimal 19 n rest (omega (arith, h)) st)
    ∙ bits_by-some ulong_bits false n rest n false (ulong_bits_pos n h)

-- The bits of a signed number of `w` bits, as 64 bits.
abbrev pub extended : ℕ → ℕ → ℕ
extended w n = if ltb n (2 ^ (w - 1)) then n else 2 ^ 64 - (2 ^ w - n)

print_sint_pos : (w n : ℕ) → ltb n (2 ^ (w - 1)) ≡ true → print_sint w n ≡ decimal 20 n
unfolding print_sint
print_sint_pos w n h = rw h refl

print_sint_neg :
    (w n : ℕ) → ltb n (2 ^ (w - 1)) ≡ false → print_sint w n ≡ b'-' ∷ decimal 20 (2 ^ w - n)
unfolding print_sint
print_sint_neg w n h = rw h refl

long_bits_pos : (n : ℕ) → n < 2 ^ 63 → long_bits false n ≡ (n, false)
unfolding long_bits
long_bits_pos n h = ground arith

long_bits_neg : (m : ℕ) → 0 < m → m ≤ 2 ^ 63 → long_bits true m ≡ (2 ^ 64 - m, false)
unfolding long_bits
long_bits_neg m p h = ground arith

-- A signed number of `w` bits is read back from its digits.
pub strtoll-print_sint :
    (w n : ℕ) (rest : List ℕ)
    → 2 ^ (w - 1) ≤ 2 ^ 63
    → 2 ^ w ≡ 2 ^ (w - 1) + 2 ^ (w - 1)
    → n < 2 ^ w
    → Stops rest
    → strtoll (print_sint w n ++ rest) ≡ some (extended w n, false, rest)
strtoll-print_sint w n rest hw double h st = elim (Bool-cases (ltb n (2 ^ (w - 1)))) [
  | inl small ↦
      let less : n < 2 ^ (w - 1) = ground (arith, small) in
      ap (λ t. strtoll (t ++ rest)) (print_sint_pos w n small)
      ∙ strtoll_lem (decimal 20 n ++ rest)
      ∙ ap (bits_by long_bits) (magnitude-decimal 19 n rest (omega (arith, less, hw)) st)
      ∙ bits_by-some long_bits false n rest n false (long_bits_pos n (omega (arith, less, hw)))
      ∙ rw small refl
  | inr big ↦
      let least : 2 ^ (w - 1) ≤ n = ground (arith, big) in
      let m = 2 ^ w - n in
      ap (λ t. strtoll (t ++ rest)) (print_sint_neg w n big)
      ∙ strtoll_lem (b'-' ∷ (decimal 20 m ++ rest))
      ∙ ap (bits_by long_bits) (magnitude-minus 19 m rest (omega (arith, least, hw, double, h)) st)
      ∙ bits_by-some long_bits true m rest (2 ^ 64 - m) false
          (long_bits_neg m (omega (arith, h)) (omega (arith, least, hw, double)))
      ∙ rw big refl
]

-- The characters of a number.
abbrev pub IsNumeral : ℕ → Type 0
IsNumeral c = (c ≡ b'-') ⊎ IsDigit c

digits-IsNumeral : (s : List ℕ) → All IsDigit s → All IsNumeral s
digits-IsNumeral [] h = tt
digits-IsNumeral (c ∷ s) (d, h) = (inr d, digits-IsNumeral s h)

pub print_uint-IsNumeral : (n : ℕ) → All IsNumeral (print_uint n)
print_uint-IsNumeral n =
    rw (print_uint_lem n) (digits-IsNumeral (decimal 20 n) (decimal-IsDigit 20 n))

pub print_sint-IsNumeral : (w n : ℕ) → All IsNumeral (print_sint w n)
print_sint-IsNumeral w n = elim (Bool-cases (ltb n (2 ^ (w - 1)))) [
  | inl small ↦
      rw (print_sint_pos w n small) (digits-IsNumeral (decimal 20 n) (decimal-IsDigit 20 n))
  | inr big ↦
      rw (print_sint_neg w n big)
        (inl refl, digits-IsNumeral (decimal 20 (2 ^ w - n)) (decimal-IsDigit 20 (2 ^ w - n)))
]

pub print_int-IsNumeral : (n : ℕ) → All IsNumeral (print_int (pos n))
unfolding print_int
print_int-IsNumeral n = digits-IsNumeral (decimal 10 n) (decimal-IsDigit 10 n)

-- A number that an int can hold, printed as 64 bits.
pub atoi-print_sint : (n : ℕ) → n < 2 ^ 31 → atoi (print_sint 64 n) ≡ pos n
atoi-print_sint n h =
    ap atoi (print_sint_pos 64 n (ground (arith, h))) ∙ atoi-decimal 19 n h (omega (arith, h))
