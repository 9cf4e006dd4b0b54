-- ===== src/Mbuf/Transfer/Write.antt =====
-- mbuf_write() of soml/lib/shared/mbuf.c appends, or leaves the buffer as it was.
use semantic_oml.Mbuf.Storage.{mbuf_check_resize}
use semantic_oml.Base.{
  ◌++◌, length-take, ◌^◌, ℕ, ◌+◌, ◌≤◌, ◌<◌, ◌≡◌, ◌⊎◌, inl, inr, some, none, List, take, length,
  refl, ap, arith, ◌∙◌,
}
use semantic_oml.Mem.{Libc}
use semantic_oml.Mem.Laws.{
  LibcLaws, splice, read_from_lem, write_to_lem, length-splice, take-splice,
}
use semantic_oml.Mbuf.{MBuffer, Status, ok, fail, M}
use semantic_oml.Mbuf.Invariant.{IsValid, check_lem}
use semantic_oml.Mbuf.View.{view, Returns, append}
use semantic_oml.Mbuf.Storage.Growth.{has_room, HasRoom, check_resize-Makes, check_resize_room}
use semantic_oml.Mbuf.Transfer.{mbuf_check_resize, copy_in, written, put_bytes, mbuf_write}

-- A write is refused and leaves the buffer as it was, or appends the bytes.
abbrev pub Writes : List ℕ → MBuffer → M Status → Type 0
Writes bs m f = (f m ≡ some (fail, m)) ⊎ Returns f m ok (append bs (view m))

module _ (buf : List ℕ) (len : ℕ) (inside : len ≤ length buf) (m : MBuffer) (v : IsValid m)
    (room : len ≤ m.wr_remaining) (small : m.fill + len < 2 ^ 31) where
  abbrev copied : List ℕ
  copied = take len buf

  length-copied : length copied ≡ len
  length-copied = omega (arith, length-take len buf)

  fits : m.wrptr + length copied ≤ length m.base.bytes
  fits = omega (arith, length-copied)

  -- The buffer with the bytes copied in, and counted.
  abbrev filled : MBuffer
  filled =
      written len (record m { base = record m.base { bytes = splice m.base.bytes m.wrptr copied } })

  filled-IsValid : IsValid filled
  filled-IsValid = omega (arith, length-splice m.base.bytes m.wrptr copied fits)

  copy_in_lem :
      copy_in buf len m
      ≡ some (tt, record m { base = record m.base { bytes = splice m.base.bytes m.wrptr copied } })
  unfolding copy_in
  copy_in_lem =
      ground (
        arith,
        read_from_lem buf 0 len (omega arith),
        write_to_lem m.base.bytes m.wrptr copied fits,
      )

  put_bytes-Returns : Returns (put_bytes buf len ok) m ok (append copied (view m))
  unfolding put_bytes
  put_bytes-Returns = record {
    after = filled;
    runs = ground (arith, copy_in_lem, check_lem filled-IsValid);
    valid = filled-IsValid;
    shows =
        ap (λ c. record { content = c; rd = m.rdptr; msg = m.msgptr })
          (take-splice m.base.bytes m.wrptr copied filled.fill fits (omega (arith, length-copied))
            ∙ ap (λ n. take n m.base.bytes ++ copied) v.filled);
  }

module _ (libc : Libc) (laws : LibcLaws libc) (m : MBuffer) (v : IsValid m) (buf : List ℕ) (len : ℕ)
    (inside : len ≤ length buf) (small : m.fill + len < 2 ^ 31) where
  -- Once there is room in `m'`, the bytes are appended to what `m` shows.
  written_after :
      (m' : MBuffer)
      → mbuf_check_resize libc len m ≡ some (ok, m')
      → HasRoom len m m'
      → Returns (mbuf_write libc (some buf) len) m ok (append (take len buf) (view m))
  unfolding mbuf_write
  written_after m' e r =
      let put = put_bytes-Returns buf len inside m' r.valid r.room (omega (arith, r)) in
      record {
        after = put.after;
        runs = ground (arith, check_lem v, put.runs);
        valid = put.valid;
        shows = put.shows ∙ ap (append (take len buf)) r.shows;
      }

  -- In a valid buffer that stays below 2 ^ 31 bytes, a write of the first `len` bytes of a source
  -- that has as many is refused and leaves the buffer as it was, or appends those bytes.
  pub mbuf_write-Writes : Writes (take len buf) m (mbuf_write libc (some buf) len)
  unfolding mbuf_write put_bytes
  mbuf_write-Writes = elim (check_resize-Makes libc laws m v len small) [
    | inl refused ↦ inl (ground (arith, check_lem v))
    | inr (m', e, r) ↦ inr (written_after m' e r)
  ]

  -- With room in the storage a write goes through, whatever the allocator says.
  pub mbuf_write_room :
      len ≤ m.wr_remaining
      → Returns (mbuf_write libc (some buf) len) m ok (append (take len buf) (view m))
  mbuf_write_room room =
      written_after m (check_resize_room libc laws m v len room) (has_room libc laws m v len room)

-- A NULL source is refused, also for no bytes.
pub mbuf_write_null :
    (libc : Libc) (len : ℕ) (m : MBuffer) → mbuf_write libc none len m ≡ some (fail, m)
unfolding mbuf_write
mbuf_write_null libc len m = refl
