-- ===== src/Mbuf/Message/Marks.antt =====
-- Moving the message mark, and starting a message over (soml/lib/shared/mbuf.c).
use semantic_oml.Mem.Laws.{write_to_lem, length-splice, splice}
use semantic_oml.Base.{
  length-replicate, ◌+◌, replicate, take-take, ◌<◌, ltb, ◌≤◌, ◌≡◌, ℕ, Bool, true, false, take,
  length, some, refl, inl, inr, Bool-cases, ap, arith,
}
use semantic_oml.Mbuf.{MBuffer, sub_size, ok, fail}
use semantic_oml.Mbuf.Invariant.{IsValid, check_lem}
use semantic_oml.Mbuf.View.{
  View, view, Returns, length-content, begin_read, begin_write, reset_write, reset_read, nothing,
}
use semantic_oml.Mbuf.Message.{
  write_reset, read_reset, mark_write, mark_read, mbuf_message_start_advance, mbuf_message_offset,
  mbuf_clear, guarded, mbuf_begin_read, mbuf_begin_write, mbuf_reset_write, mbuf_reset_read,
  mbuf_consume_message, mbuf_clear2, emptied,
}

module _ (refuses : MBuffer → Bool) (change : MBuffer → MBuffer) (m : MBuffer) where
  guarded-Returns :
      {c : View}
      → refuses m ≡ false
      → IsValid m
      → IsValid (change m)
      → view (change m) ≡ c
      → Returns (guarded refuses change) m ok c
  unfolding guarded
  guarded-Returns e v v' s = record {
    after = change m;
    runs = ground (arith, check_lem v, check_lem v');
    valid = v';
    shows = s;
  }

  guarded_refused : refuses m ≡ true → IsValid m → guarded refuses change m ≡ some (fail, m)
  unfolding guarded
  guarded_refused e v = ground (arith, check_lem v)

module _ (m : MBuffer) (v : IsValid m) where
  pub begin_read-Returns : Returns mbuf_begin_read m ok (begin_read (view m))
  unfolding mbuf_begin_read
  begin_read-Returns = guarded-Returns (λ m. false) mark_read m refl v (omega arith) refl

  pub begin_write-Returns : Returns mbuf_begin_write m ok (begin_write (view m))
  unfolding mbuf_begin_write
  begin_write-Returns =
      guarded-Returns (λ m. false) mark_write m refl v (omega arith)
        (rw (length-content m v)
          (ap (λ k. record { content = take m.fill m.base.bytes; rd = m.rdptr; msg = k }) v.filled))

  -- In a valid buffer whose message does not begin before the read mark, mbuf_reset_write() drops
  -- the message and keeps what stands before it and both marks.
  pub reset_write-Returns :
      m.rdptr ≤ m.msgptr → Returns mbuf_reset_write m ok (reset_write (view m))
  unfolding mbuf_reset_write
  reset_write-Returns h =
      guarded-Returns (λ m. ltb m.msgptr m.rdptr) write_reset m (ground arith) v (omega arith)
        (rw (take-take m.msgptr m.fill m.base.bytes (omega arith)) (
          ap (λ k. record { content = take k m.base.bytes; rd = m.rdptr; msg = m.msgptr })
            (omega arith)))

  pub reset_write_refused : m.msgptr < m.rdptr → mbuf_reset_write m ≡ some (fail, m)
  unfolding mbuf_reset_write
  reset_write_refused h = guarded_refused (λ m. ltb m.msgptr m.rdptr) write_reset m (ground arith) v

  pub reset_read-Returns : m.msgptr ≤ m.rdptr → Returns mbuf_reset_read m ok (reset_read (view m))
  unfolding mbuf_reset_read
  reset_read-Returns h =
      guarded-Returns (λ m. ltb m.rdptr m.msgptr) read_reset m (ground arith) v (omega arith) refl

  pub reset_read_refused : m.rdptr < m.msgptr → mbuf_reset_read m ≡ some (fail, m)
  unfolding mbuf_reset_read
  reset_read_refused h = guarded_refused (λ m. ltb m.rdptr m.msgptr) read_reset m (ground arith) v

  pub consume-Returns : m.msgptr ≤ m.rdptr → Returns mbuf_consume_message m ok (begin_read (view m))
  unfolding mbuf_consume_message
  consume-Returns h =
      guarded-Returns (λ m. ltb m.rdptr m.msgptr) mark_read m (ground arith) v (omega arith) refl

  pub consume_refused : m.rdptr < m.msgptr → mbuf_consume_message m ≡ some (fail, m)
  unfolding mbuf_consume_message
  consume_refused h = guarded_refused (λ m. ltb m.rdptr m.msgptr) mark_read m (ground arith) v

  pub clear-Returns : (zero_buffer : Bool) → Returns (mbuf_clear2 zero_buffer) m ok nothing
  unfolding mbuf_clear2
  clear-Returns false = record {
    after = emptied m;
    runs = ground (arith, check_lem v, check_lem {m = emptied m} (omega arith));
    valid = omega arith;
    shows = refl;
  }
  clear-Returns true =
      let zeros = replicate m.length 0 in
      let fits : 0 + length zeros ≤ length m.base.bytes =
        omega (arith, length-replicate {A = ℕ} m.length 0) in
      let m' =
        emptied (record m { base = record m.base { bytes = splice m.base.bytes 0 zeros } }) in
      let v' : IsValid m' = omega (arith, length-splice m.base.bytes 0 zeros fits) in
      record {
        after = m';
        runs = ground (arith, check_lem v, write_to_lem m.base.bytes 0 zeros fits, check_lem v');
        valid = v';
        shows = refl;
      }

  -- mbuf_message_start_advance() leaves a valid buffer valid, whatever the distance.
  pub start_advance-IsValid : (n : ℕ) → IsValid (mbuf_message_start_advance n m)
  unfolding mbuf_message_start_advance
  start_advance-IsValid n = elim (Bool-cases (ltb n (sub_size m.fill (mbuf_message_offset m)))) [
    | inl inside ↦
        rw inside (let h : m.msgptr + n ≤ m.wrptr = ground (arith, v) in omega (arith, v, h))
    | inr outside ↦ rw outside v
  ]

  -- mbuf_clear() empties the buffer, whatever it holds.
  pub mbuf_clear-Returns : Returns mbuf_clear m ok nothing
  unfolding mbuf_clear
  mbuf_clear-Returns = clear-Returns true
