-- ===== src/Mbuf/Storage.antt =====
-- The memory of an MBuffer (soml/lib/shared/mbuf.c): creation and growth.
pub mod Create
pub mod Growth
use semantic_oml.Base.{
  ◌==◌, size_mod, true, ltb, leb, if◌then◌else◌, ℕ, ◌+◌, ◌-◌, ◌/◌, ◌*◌, ◌%◌, Option, none, some,
}
use semantic_oml.Mem.{Libc, Xchunk, oml_malloc, oml_realloc}
use semantic_oml.Mbuf.{
  sub_size, mbuf_check_invariant, add_size, MBuffer, Status, ok, fail, M, pure, ◌>>=◌, ◌>>◌, gets,
  modify,
}

abbrev pub def_buf_size : ℕ
def_buf_size = 512

-- (size_t)(0.1 * DEF_BUF_SIZE)
abbrev pub def_min_buf_resize : ℕ
def_min_buf_resize = 51

-- The new buffer, over the memory that was allocated; oml_malloc() left `resized` zero.
abbrev pub fresh : ℕ → ℕ → Xchunk → MBuffer
fresh len min_resize base = record {
  base = base;
  length = len;
  wr_remaining = len;
  rd_remaining = 0;
  fill = 0;
  rdptr = 0;
  wrptr = 0;
  msgptr = 0;
  min_resize = min_resize;
  resized = 0;
  allow_resizing = true;
}

-- sizeof (MBuffer)
abbrev pub mbuffer_size : ℕ
mbuffer_size = 88

-- `some none` is NULL.
pub mbuf_create2 : Libc → ℕ → ℕ → Option (Option MBuffer)
mbuf_create2 libc buffer_length min_resize =
    let len = if ltb 0 buffer_length then buffer_length else def_buf_size in
    let min = if ltb 0 min_resize then min_resize else def_min_buf_resize in
    elim (oml_malloc libc mbuffer_size) [
      | none ↦ some none
      | some _ ↦ elim (oml_malloc libc len) [
        | none ↦ some none
        | some base ↦ elim (mbuf_check_invariant (fresh len min base)) [
          | none ↦ none
          | some (_, m) ↦ some (some m)
        ]
      ]
    ]

pub mbuf_create : Libc → Option (Option MBuffer)
unfolding mbuf_create2
mbuf_create libc = mbuf_create2 libc def_buf_size def_min_buf_resize

-- The offsets of the three pointers are kept over the move. They pass through an `int`, which
-- holds them: the assertion has found the largest equal to an `int`.
resized_to : ℕ → Xchunk → MBuffer → MBuffer
resized_to new_length new m = record m {
  base = new;
  resized = (m.resized + (new_length - m.length)) % 256;
  length = new_length;
  wr_remaining = sub_size new_length m.fill;
}

-- The rest of mbuf_resize(), after oml_realloc().
install : ℕ → Option Xchunk → M Status
unfolding resized_to
install new_length none = pure fail
install new_length (some new) = do modify (resized_to new_length new); mbuf_check_invariant; pure ok

pub mbuf_resize : Libc → ℕ → M Status
unfolding install
mbuf_resize libc new_length = do
  mbuf_check_invariant
  m ← gets (λ m. m)
  if leb new_length m.length
      then pure ok
      else if m.allow_resizing
      then install new_length (oml_realloc libc m.base new_length)
      else pure fail

abbrev pub step : MBuffer → ℕ
step m = if ltb 0 m.min_resize then m.min_resize else m.length

-- The length that makes room for `bytes` more: whole steps are added.
pub grown_length : ℕ → MBuffer → ℕ
grown_length bytes m =
    add_size m.length ((step m * ((bytes - m.wr_remaining) / step m + 1)) % size_mod)

-- A division by a step of 0 is a fault.
unfoldable pub mbuf_check_resize : Libc → ℕ → M Status
mbuf_check_resize libc bytes = do
  m ← gets (λ m. m)
  if leb bytes m.wr_remaining
      then pure ok
      else if step m == 0
      then (λ _. none)
      else mbuf_resize libc (grown_length bytes m)
