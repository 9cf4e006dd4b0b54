-- ===== src/Mbuf/Transfer.antt =====
-- What goes into an MBuffer and out of it (soml/lib/shared/mbuf.c): write, print, read, find.
pub mod Write
pub mod Read
pub mod Print
use semantic_oml.Base.{
  not, get_elem?, ℕ, zero, suc, List, [], ◌∷◌, ◌++◌, Option, none, some, Bool, ltb, leb, ◌==◌,
  if◌then◌else◌, length, take, ◌+◌, ◌-◌,
}
use mathlib.Core.Option
use semantic_oml.Mem.{Libc, read_from, write_to}
use semantic_oml.Mbuf.{
  le_int, MBuffer, Status, ok, fail, M, pure, ◌>>=◌, ◌>>◌, gets, modify, add_size, sub_size,
  mbuf_check_invariant,
}
use semantic_oml.Mbuf.Storage.{mbuf_check_resize}

-- memcpy (mbuf->wrptr, buf, len): `none` if `buf` has fewer bytes, or the storage ends before.
unfoldable pub copy_in : List ℕ → ℕ → M (Unit {0})
copy_in buf len m = elim (read_from buf 0 len) [
  | none ↦ none
  | some bs ↦ elim (write_to m.base.bytes m.wrptr bs) [
    | none ↦ none
    | some mem ↦ some (tt, record m { base = record m.base { bytes = mem } })
  ]
]

-- `len` bytes more are filled and unread.
abbrev pub written : ℕ → MBuffer → MBuffer
written len m = record m {
  wrptr = m.wrptr + len;
  fill = add_size m.fill len;
  wr_remaining = sub_size m.wr_remaining len;
  rd_remaining = add_size m.rd_remaining len;
}

-- The rest of mbuf_write(), after mbuf_check_resize().
unfoldable pub put_bytes : List ℕ → ℕ → Status → M Status
put_bytes buf len fail = pure fail
put_bytes buf len ok = do copy_in buf len; modify (written len); mbuf_check_invariant; pure ok

-- `none` is a NULL `buf`.
unfoldable pub mbuf_write : Libc → Option (List ℕ) → ℕ → M Status
mbuf_write libc none len = pure fail
mbuf_write libc (some buf) len = do
  mbuf_check_invariant
  s ← mbuf_check_resize libc len
  put_bytes buf len s

abbrev pub advanced : ℕ → MBuffer → MBuffer
advanced len m = record m { rdptr = m.rdptr + len; rd_remaining = sub_size m.rd_remaining len }

-- memcpy (buf, mbuf->rdptr, len)
pub copy_out : ℕ → M (List ℕ)
copy_out len m = elim (read_from m.base.bytes m.rdptr len) [ none ↦ none | some bs ↦ some (bs, m) ]

-- The bytes read, or `none` for -1.
unfoldable pub mbuf_read : ℕ → M (Option (List ℕ))
unfolding copy_out
mbuf_read len = do
  mbuf_check_invariant
  left ← gets (λ m. m.rd_remaining)
  if ltb left len
      then pure none
      else do bs ← copy_out len; modify (advanced len); mbuf_check_invariant; pure (some bs)

pub mbuf_read_skip : ℕ → M Status
mbuf_read_skip len = do
  mbuf_check_invariant
  left ← gets (λ m. m.rd_remaining)
  if ltb left len then pure fail else do modify (advanced len); mbuf_check_invariant; pure ok

-- *(mbuf->rdptr)
pub byte_out : M ℕ
byte_out m = elim (get_elem? m.base.bytes m.rdptr) [ none ↦ none | some b ↦ some (b, m) ]

unfoldable pub mbuf_read_byte : M (Option ℕ)
unfolding byte_out
mbuf_read_byte = do
  mbuf_check_invariant
  left ← gets (λ m. m.rd_remaining)
  if ltb left 1
      then pure none
      else do b ← byte_out; modify (advanced 1); mbuf_check_invariant; pure (some b)

-- The distance from the first byte of a run to the first that passes the test.
pub scan : (ℕ → Bool) → List ℕ → Option ℕ
scan hit [] = none
scan hit (b ∷ bs) = let rest = scan hit bs in if hit b then some 0 else Option.map suc rest

-- The bytes between `rdptr` and `wrptr`, which the search walks over.
pub unread_out : M (List ℕ)
unread_out m = elim (read_from m.base.bytes m.rdptr (m.wrptr - m.rdptr)) [
  | none ↦ none
  | some bs ↦ some (bs, m)
]

find_by : (ℕ → Bool) → M (Option ℕ)
unfolding scan unread_out
find_by hit = do mbuf_check_invariant; bs ← unread_out; mbuf_check_invariant; pure (scan hit bs)

pub mbuf_find : ℕ → M (Option ℕ)
unfolding find_by
mbuf_find c = find_by (λ b. b == c)

pub mbuf_find_not : ℕ → M (Option ℕ)
unfolding find_by
mbuf_find_not c = find_by (λ b. not (b == c))

-- vsnprintf(3) of a text of bytes into `size` bytes at `at`: what fits of it before a final zero.
pub vsnprintf : List ℕ → ℕ → ℕ → List ℕ → Option (List ℕ)
vsnprintf mem at size text =
    if size == 0 then some mem else write_to mem at (take (size - 1) text ++ (0 ∷ []))

pub print_at : List ℕ → M (Unit {0})
unfolding vsnprintf
print_at text m = elim (vsnprintf m.base.bytes m.wrptr m.wr_remaining text) [
  | none ↦ none
  | some mem ↦ some (tt, record m { base = record m.base { bytes = mem } })
]

-- What follows a call of mbuf_check_resize() in the loop of mbuf_print().
pub retry : Status → M Status → M Status
retry ok again = again
retry fail again = pure fail

-- The loop of mbuf_print() on fuel, which `none` runs out of. The text is what the format and its
-- arguments print; it is shorter than INT_MAX.
pub print_loop : Libc → List ℕ → ℕ → M Status
print_loop libc text zero = λ _. none
print_loop libc text (suc fuel) =
    let again = print_loop libc text fuel in
    do
      print_at text
      m ← gets (λ m. m)
      if le_int (length text) m.wr_remaining
          then pure ok
          else do s ← mbuf_check_resize libc (length text); retry s again

-- The rest of mbuf_print(), after its loop.
pub finish_print : ℕ → Status → M Status
finish_print len fail = pure fail
finish_print len ok = do modify (written len); mbuf_check_invariant; pure ok

-- The second round has room, so the third is never begun.
abbrev pub print_rounds : ℕ
print_rounds = 3

pub mbuf_print : Libc → List ℕ → M Status
mbuf_print libc text = do
  mbuf_check_invariant
  s ← print_loop libc text print_rounds
  finish_print (length text) s
