-- ===== src/Mbuf/Invariant.antt =====
-- The representation invariant of an MBuffer (soml/lib/shared/mbuf.c), stronger than what
-- mbuf_check_invariant() asserts.
use semantic_oml.Base.{◌+◌, ◌≤◌, ◌<◌, ◌^◌, ◌≡◌, some, length, arith, int_max}
use semantic_oml.Mbuf.{MBuffer, mbuf_check_invariant}

pub record IsValid (m : MBuffer) : Type 0 where
  pub storage : length m.base.bytes ≡ m.length
  pub filled : m.wrptr ≡ m.fill
  pub room : m.fill + m.wr_remaining ≡ m.length
  pub unread : m.rdptr + m.rd_remaining ≡ m.wrptr
  pub message : m.msgptr ≤ m.wrptr
  pub fits_int : m.fill < int_max
  pub fits_size : m.length < 2 ^ 63
  pub step_pos : 0 < m.min_resize
  pub step_max : m.min_resize ≤ 2 ^ 61

-- A valid buffer passes the assertions.
pub check_lem : {m : MBuffer} → IsValid m → mbuf_check_invariant m ≡ some (tt, m)
unfolding mbuf_check_invariant
check_lem v = ground arith
