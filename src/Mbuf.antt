-- ===== src/Mbuf.antt =====
-- soml/lib/shared/mbuf.h and mbuf.c: the managed buffer that a message is built in or read from.
-- Pointers are offsets from `base`; the pointer to an MBuffer is one that is not NULL.
pub mod Storage
pub mod Transfer
pub mod Message
pub mod Invariant
pub mod View
pub mod Trace
use semantic_oml.Base.{
  ℕ, zero, suc, ◌+◌, ◌-◌, ◌%◌, ◌^◌, List, Option, none, some, Bool, true, false, ◌&&◌, ◌||◌, ltb,
  leb, ◌==◌, if◌then◌else◌, size_mod, int_max,
}
use semantic_oml.Mem.{Xchunk}

-- `next` is left out: no function reads or writes it.
pub record MBuffer : Type 0 where
  pub base : Xchunk
  pub length : ℕ
  pub wr_remaining : ℕ
  pub rd_remaining : ℕ
  pub fill : ℕ
  pub rdptr : ℕ
  pub wrptr : ℕ
  pub msgptr : ℕ
  pub min_resize : ℕ
  pub resized : ℕ
  pub allow_resizing : Bool

-- What the functions return: 0 or -1.
pub data Status : Type 0 where
  ok fail : Status

-- `none` is a failed assert() or an access outside the memory: the program does not go on.
abbrev pub M {ℓ} : Type ℓ → Type ℓ
M A = MBuffer → Option (A × MBuffer)

abbrev pub pure {ℓ} : {A : Type ℓ} → A → M A
pure a m = some (a, m)

infixl 5 ◌>>=◌ ◌>>◌
abbrev pub ◌>>=◌ {ℓ κ} : {A : Type ℓ} {B : Type κ} → M A → (A → M B) → M B
◌>>=◌ f k m = elim (f m) [ none ↦ none | some (a, m') ↦ k a m' ]

abbrev pub ◌>>◌ {κ} : {B : Type κ} → M (Unit {0}) → M B → M B
f >> k = f >>= λ _. k

abbrev pub gets {ℓ} : {A : Type ℓ} → (MBuffer → A) → M A
gets f m = some (f m, m)

abbrev pub modify : (MBuffer → MBuffer) → M (Unit {0})
modify f m = some (tt, f m)

-- `size_t` arithmetic wraps.
abbrev pub add_size : ℕ → ℕ → ℕ
add_size a b = (a + b) % size_mod

abbrev pub sub_size : ℕ → ℕ → ℕ
sub_size a b = (a + size_mod - b) % size_mod

-- `d == (int) n`, for a distance `d` between two pointers that is not negative.
abbrev pub eq_int : ℕ → ℕ → Bool
eq_int d n = ltb (n % 2 ^ 32) int_max && d == n % 2 ^ 32

-- `len <= (int) n`, for a `len` that is not negative.
abbrev pub le_int : ℕ → ℕ → Bool
le_int len n = ltb (n % 2 ^ 32) int_max && leb len (n % 2 ^ 32)

-- The assertions of mbuf_check_invariant(), in order.
pub invariant : MBuffer → Bool
invariant m =
    leb m.wr_remaining m.length
    && leb m.fill m.length
    && add_size m.fill m.wr_remaining == m.length
    && leb m.rdptr m.wrptr
    && eq_int m.wrptr m.fill
    && eq_int (m.wrptr - m.rdptr) m.rd_remaining
    && (leb m.msgptr m.rdptr || leb m.msgptr m.wrptr)

unfoldable pub mbuf_check_invariant : M (Unit {0})
unfolding invariant
mbuf_check_invariant m = if invariant m then some (tt, m) else none
