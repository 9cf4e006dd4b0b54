-- ===== src/Tests.antt =====
-- A C library, an arithmetic of doubles and buffers to run the code of soml/lib/shared on.
pub mod Mem
pub mod Mbuf
pub mod Marshal
pub mod Packet
pub mod Text
pub mod Server
pub mod Client
pub mod Proxy
use semantic_oml.Numbers.{print_uint, strtoull}
use semantic_oml.Base.{
  Option, ◌<◌, ℕ, ◌+◌, ◌-◌, ◌%◌, ◌^◌, ◌≡◌, List, [], ◌∷◌, ◌++◌, none, some, true, false, take,
  length, replicate, ltb, if◌then◌else◌, refl, arith, ap, ◌∙◌, length-append, length-take,
  length-replicate, take-append_left, take-all, sym,
}
use semantic_oml.Base.Int.{ℤ, pos}
use semantic_oml.Mem.{Libc}
use semantic_oml.Mem.Laws.{LibcLaws, FindsMemory}
use semantic_oml.Mbuf.{MBuffer}
use semantic_oml.Mbuf.Invariant.{IsValid}
use semantic_oml.Value.{Doubles}

-- realloc(3) keeps what fits and puts zeros behind it.
abbrev reallocated : List ℕ → ℕ → List ℕ
reallocated b n = take n b ++ replicate (n - length b) 0

abbrev pub test_libc : Libc
test_libc = record {
  malloc = λ n. some (replicate n 0);
  realloc = λ b n. if ltb n (2 ^ 63) then some (reallocated b n) else none;
  calloc = λ count size. true;
}

length-reallocated : (b : List ℕ) (n : ℕ) → length (reallocated b n) ≡ n
length-reallocated b n = omega (
  arith,
  length-append (take n b) (replicate (n - length b) 0),
  length-take n b,
  length-replicate {A = ℕ} (n - length b) 0,
)

reallocated_inv :
    (b : List ℕ) (n : ℕ) (b' : List ℕ)
    → test_libc.realloc b n ≡ some b'
    → (n < 2 ^ 63) × (b' ≡ reallocated b n)
reallocated_inv b n b' e = ground arith

pub test_libc-laws : LibcLaws test_libc
test_libc-laws = record {
  realloc_size =
      λ b n b' e. ap (length {A = ℕ}) (reallocated_inv b n b' e).1 ∙ length-reallocated b n;
  realloc_max = λ b n b' e. (reallocated_inv b n b' e).0;
  realloc_keeps = λ b n b' h e.
      ap (take (length b))
        ((reallocated_inv b n b' e).1 ∙ ap (λ l. l ++ replicate (n - length b) 0) (take-all n b h))
      ∙ take-append_left (length b) b (replicate (n - length b) 0) refl;
}

pub test_libc-memory : FindsMemory test_libc
test_libc-memory count size = refl

-- A double is a natural number here, with an exponent of 0.
abbrev pub test_doubles : Doubles
test_doubles = record {
  Double = ℕ;
  nan = 0;
  zero = 0;
  is_nan = λ d. false;
  frexp = λ d. (d, pos 0);
  ldexp = λ d e. d;
  to_fixed = λ d. d % 2 ^ 32;
  of_fixed = λ n. n;
  strtod = strtoull;
  bits = λ d. d;
  to_size = λ d. d;
  print_f = print_uint;
  print_g = print_uint;
  add_time = λ d z. d;
}

-- Sixteen bytes of storage of which four are filled, the first of them read.
abbrev pub four_bytes : MBuffer
four_bytes = record {
  base = record { size = 24; bytes = 65 ∷ 66 ∷ 67 ∷ 68 ∷ replicate 12 0 };
  length = 16;
  wr_remaining = 12;
  rd_remaining = 3;
  fill = 4;
  rdptr = 1;
  wrptr = 4;
  msgptr = 1;
  min_resize = 4;
  resized = 0;
  allow_resizing = true;
}

pub four_bytes-IsValid : IsValid four_bytes
four_bytes-IsValid = record {
  storage = omega arith;
  filled = refl;
  room = omega arith;
  unread = omega arith;
  message = omega arith;
  fits_int = omega arith;
  fits_size = omega arith;
  step_pos = omega arith;
  step_max = omega arith;
}

-- The same with the message mark behind the read mark.
abbrev pub marked_ahead : MBuffer
marked_ahead = record four_bytes { msgptr = 3 }

pub marked_ahead-IsValid : IsValid marked_ahead
marked_ahead-IsValid = let v = four_bytes-IsValid in omega (arith, v)

-- Bytes that were received and of which none is read.
abbrev pub received_bytes : List ℕ → MBuffer
received_bytes bs = record {
  base = record { size = length bs + 8; bytes = bs };
  length = length bs;
  wr_remaining = 0;
  rd_remaining = length bs;
  fill = length bs;
  rdptr = 0;
  wrptr = length bs;
  msgptr = 0;
  min_resize = 51;
  resized = 0;
  allow_resizing = true;
}

pub received_bytes-IsValid : (bs : List ℕ) → length bs < 2 ^ 30 → IsValid (received_bytes bs)
received_bytes-IsValid bs h = record {
  storage = omega arith;
  filled = omega arith;
  room = omega arith;
  unread = omega arith;
  message = omega arith;
  fits_int = omega arith;
  fits_size = omega arith;
  step_pos = omega arith;
  step_max = omega arith;
}
