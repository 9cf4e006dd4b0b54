-- ===== src/Mbuf/Message.antt =====
-- The message within an MBuffer (soml/lib/shared/mbuf.c): where it begins, starting over, and
-- moving it to the front of the storage.
pub mod Marks
pub mod Repack
use semantic_oml.Base.{
  ◌==◌, ℕ, Option, none, some, Bool, true, false, ltb, leb, if◌then◌else◌, ◌+◌, ◌-◌, replicate,
}
use semantic_oml.Mem.{read_from, write_to}
use semantic_oml.Mbuf.{
  MBuffer, Status, ok, fail, M, pure, ◌>>=◌, ◌>>◌, gets, modify, add_size, sub_size,
  mbuf_check_invariant,
}

-- The difference of two pointers, read as a `size_t`.
abbrev pub mbuf_rd_remaining : MBuffer → ℕ
mbuf_rd_remaining m = sub_size m.wrptr m.rdptr

abbrev pub mbuf_remaining : MBuffer → ℕ
mbuf_remaining m = mbuf_rd_remaining m

abbrev pub mbuf_length : MBuffer → ℕ
mbuf_length m = m.length

abbrev pub mbuf_fill : MBuffer → ℕ
mbuf_fill m = m.fill

abbrev pub mbuf_read_offset : MBuffer → ℕ
mbuf_read_offset m = m.rdptr

abbrev pub mbuf_write_offset : MBuffer → ℕ
mbuf_write_offset m = m.wrptr

abbrev pub mbuf_wr_remaining : MBuffer → ℕ
mbuf_wr_remaining m = sub_size m.wrptr m.rdptr

abbrev pub mbuf_fill_excluding_msg : MBuffer → ℕ
mbuf_fill_excluding_msg m = if ltb m.rdptr m.msgptr then m.msgptr - m.rdptr else 0

abbrev pub mbuf_message_offset : MBuffer → ℕ
mbuf_message_offset m = m.msgptr

abbrev pub mbuf_message_index : MBuffer → ℕ
mbuf_message_index m = sub_size m.rdptr m.msgptr

abbrev pub mbuf_message_length : MBuffer → ℕ
mbuf_message_length m = sub_size m.wrptr m.msgptr

pub mbuf_message_start_advance : ℕ → MBuffer → MBuffer
mbuf_message_start_advance n m =
    if ltb n (sub_size m.fill (mbuf_message_offset m))
    then record m { msgptr = m.msgptr + n }
    else m

-- An operation that asserts the invariant, refuses or changes the record, and asserts it again.
guarded : (MBuffer → Bool) → (MBuffer → MBuffer) → M Status
guarded refuses change = do
  mbuf_check_invariant
  no_go ← gets refuses
  if no_go then pure fail else do modify change; mbuf_check_invariant; pure ok

abbrev pub mark_read : MBuffer → MBuffer
mark_read m = record m { msgptr = m.rdptr }

abbrev pub mark_write : MBuffer → MBuffer
mark_write m = record m { msgptr = m.wrptr }

unfoldable pub mbuf_begin_read : M Status
unfolding guarded
mbuf_begin_read = guarded (λ m. false) mark_read

unfoldable pub mbuf_begin_write : M Status
unfolding guarded
mbuf_begin_write = guarded (λ m. false) mark_write

-- memset (mbuf->base, 0, mbuf->length)
zeroed : MBuffer → Option MBuffer
zeroed m = elim (write_to m.base.bytes 0 (replicate m.length 0)) [
  | none ↦ none
  | some mem ↦ some (record m { base = record m.base { bytes = mem } })
]

zero_if : Bool → M (Unit {0})
unfolding zeroed
zero_if false m = some (tt, m)
zero_if true m = elim (zeroed m) [ none ↦ none | some m' ↦ some (tt, m') ]

abbrev pub emptied : MBuffer → MBuffer
emptied m = record m {
  rdptr = 0;
  wrptr = 0;
  msgptr = 0;
  fill = 0;
  wr_remaining = m.length;
  rd_remaining = 0;
}

pub mbuf_clear2 : Bool → M Status
unfolding zero_if
mbuf_clear2 zero_buffer = do
  mbuf_check_invariant
  zero_if zero_buffer
  modify emptied
  mbuf_check_invariant
  pure ok

pub mbuf_clear : M Status
unfolding mbuf_clear2
mbuf_clear = mbuf_clear2 true

abbrev pub write_reset : MBuffer → MBuffer
write_reset m =
    let msglen = sub_size m.wrptr m.msgptr in
    record m {
      fill = sub_size m.fill msglen;
      wr_remaining = add_size m.wr_remaining msglen;
      rd_remaining = sub_size m.rd_remaining msglen;
      wrptr = m.msgptr;
    }

pub mbuf_reset_write : M Status
unfolding guarded
mbuf_reset_write = guarded (λ m. ltb m.msgptr m.rdptr) write_reset

abbrev pub read_reset : MBuffer → MBuffer
read_reset m = record m { rdptr = m.msgptr; rd_remaining = sub_size m.wrptr m.msgptr }

pub mbuf_reset_read : M Status
unfolding guarded
mbuf_reset_read = guarded (λ m. ltb m.rdptr m.msgptr) read_reset

pub mbuf_consume_message : M Status
unfolding guarded
mbuf_consume_message = guarded (λ m. ltb m.rdptr m.msgptr) mark_read

-- memmove (mbuf->base, mbuf->base + at, n)
move_down : ℕ → ℕ → M (Unit {0})
move_down at n m = elim (read_from m.base.bytes at n) [
  | none ↦ none
  | some bs ↦ elim (write_to m.base.bytes 0 bs) [
    | none ↦ none
    | some mem ↦ some (tt, record m { base = record m.base { bytes = mem } })
  ]
]

abbrev pub repacked : ℕ → MBuffer → MBuffer
repacked n m = record m {
  fill = n;
  wr_remaining = sub_size m.length n;
  wrptr = n;
  msgptr = 0;
  rdptr = 0;
}

pub mbuf_repack : M Status
mbuf_repack = do
  mbuf_check_invariant
  m ← gets (λ m. m)
  move_down m.rdptr m.rd_remaining
  modify (repacked m.rd_remaining)
  mbuf_check_invariant
  pure ok

-- rdptr = wrptr - rd_remaining. A pointer that would come to lie before `base` is a fault.
rdptr_before_wrptr : M (Unit {0})
rdptr_before_wrptr m =
    if leb m.rd_remaining m.wrptr
    then some (tt, record m { rdptr = m.wrptr - m.rd_remaining })
    else none

pub mbuf_repack_message : M Status
mbuf_repack_message = do
  mbuf_check_invariant
  m ← gets (λ m. m)
  move_down m.msgptr (mbuf_message_length m)
  modify (repacked (mbuf_message_length m))
  rdptr_before_wrptr
  mbuf_check_invariant
  pure ok

move_some : ℕ → ℕ → M (Unit {0})
move_some at n m = if n == 0 then some (tt, m) else move_down at n m

abbrev pub repacked2 : ℕ → MBuffer → MBuffer
repacked2 n m = record (repacked n m) { rd_remaining = n }

pub mbuf_repack_message2 : M Status
mbuf_repack_message2 = do
  mbuf_check_invariant
  m ← gets (λ m. m)
  move_some m.msgptr (mbuf_message_length m)
  modify (repacked2 (mbuf_message_length m))
  mbuf_check_invariant
  pure ok
