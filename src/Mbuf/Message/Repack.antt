-- ===== src/Mbuf/Message/Repack.antt =====
-- Moving what is left of an MBuffer to the front of its storage (soml/lib/shared/mbuf.c).
use semantic_oml.Mbuf.View.{view, repack_message2, repack_message, repack, Returns}
use semantic_oml.Base.{
  zero, suc, suc, drop-all, if◌then◌else◌, ◌==◌, Bool-cases, inl, inr, true, ◌≡◌, inr, inl, none,
  ◌<◌, ap, ap₂, ◌-◌, length-drop, drop-take, ◌≤◌, sym, length-take, List, ◌≡◌, ◌+◌, ℕ, take, drop,
  length, some, arith, ◌∙◌,
}
use semantic_oml.Mem.Laws.{splice, read_from_lem, write_to_lem, length-splice, take-splice}
use semantic_oml.Mbuf.{sub_size, ok, MBuffer}
use semantic_oml.Mbuf.Invariant.{check_lem, IsValid}
use semantic_oml.Mbuf.Message.{
  rdptr_before_wrptr, move_some, repacked2, repacked, mbuf_repack_message2, mbuf_repack_message,
  mbuf_repack, move_down,
}

module _ (m : MBuffer) (v : IsValid m) (at n : ℕ) (fits : at + n ≡ m.fill) where
  -- The bytes that are moved, and the storage after the move.
  abbrev moved : List ℕ
  moved = take n (drop at m.base.bytes)

  abbrev storage : List ℕ
  storage = splice m.base.bytes 0 moved

  length-moved : length moved ≡ n
  length-moved = omega (arith, length-take n (drop at m.base.bytes), length-drop at m.base.bytes)

  in_front : 0 + length moved ≤ length m.base.bytes
  in_front = omega (arith, length-moved)

  length-storage : length storage ≡ m.length
  length-storage = omega (arith, length-splice m.base.bytes 0 moved in_front)

  take-storage : take n storage ≡ drop at (take m.fill m.base.bytes)
  take-storage =
      take-splice m.base.bytes 0 moved n in_front (omega (arith, length-moved))
      ∙ sym (drop-take at m.fill n m.base.bytes fits)

  move_down_lem :
      move_down at n m ≡ some (tt, record m { base = record m.base { bytes = storage } })
  unfolding move_down
  move_down_lem = ground (
    arith,
    read_from_lem m.base.bytes at n (omega arith),
    write_to_lem m.base.bytes 0 moved in_front,
  )

-- The storage with the moved bytes, as the rest of the operation finds it.
abbrev with_bytes : MBuffer → List ℕ → MBuffer
with_bytes m mem = record m { base = record m.base { bytes = mem } }

read_back :
    (m : MBuffer)
    → m.rd_remaining ≤ m.wrptr
    → rdptr_before_wrptr m ≡ some (tt, record m { rdptr = m.wrptr - m.rd_remaining })
unfolding rdptr_before_wrptr
read_back m h = ground arith

read_back_fault : (m : MBuffer) → m.wrptr < m.rd_remaining → rdptr_before_wrptr m ≡ none
unfolding rdptr_before_wrptr
read_back_fault m h = ground arith

module _ (m : MBuffer) (v : IsValid m) where
  -- The memmove() of mbuf_repack_message2() is skipped where it would move nothing.
  move_some_lem :
      (at n : ℕ) (fits : at + n ≡ m.fill)
      → move_some at n m ≡ some (tt, if n == 0 then m else with_bytes m (storage m v at n fits))
  unfolding move_some
  move_some_lem at n fits = ground (arith, move_down_lem m v at n fits)

  pub repack-Returns : Returns mbuf_repack m ok (repack (view m))
  unfolding mbuf_repack
  repack-Returns =
      let at = m.rdptr in
      let n = m.rd_remaining in
      let fits : at + n ≡ m.fill = omega arith in
      let m' = repacked n (with_bytes m (storage m v at n fits)) in
      let v' : IsValid m' = omega (arith, length-storage m v at n fits) in
      record {
        after = m';
        runs = ground (arith, check_lem v, move_down_lem m v at n fits, check_lem v');
        valid = v';
        shows = ap (λ c. record { content = c; rd = 0; msg = 0 }) (take-storage m v at n fits);
      }

  -- In a valid buffer whose message does not begin behind the read mark, mbuf_repack_message()
  -- keeps the message alone, with the read mark in the same place of it.
  pub repack_message-Returns :
      m.msgptr ≤ m.rdptr → Returns mbuf_repack_message m ok (repack_message (view m))
  unfolding mbuf_repack_message
  repack_message-Returns h =
      let at = m.msgptr in
      let n = sub_size m.wrptr m.msgptr in
      let fits : at + n ≡ m.fill = omega arith in
      let m' = record (repacked n (with_bytes m (storage m v at n fits))) {
        rdptr = n - m.rd_remaining;
      } in
      let v' : IsValid m' = omega (arith, length-storage m v at n fits) in
      record {
        after = m';
        runs = ground (
          arith,
          check_lem v,
          move_down_lem m v at n fits,
          read_back (repacked n (with_bytes m (storage m v at n fits))),
          check_lem v',
        );
        valid = v';
        shows =
            ap₂ (λ c k. record { content = c; rd = k; msg = 0 }) (take-storage m v at n fits)
              (omega arith);
      }

  -- In a valid buffer whose message begins behind the read mark, mbuf_repack_message() puts the
  -- read pointer before the storage.
  pub repack_message_faults : m.rdptr < m.msgptr → mbuf_repack_message m ≡ none
  unfolding mbuf_repack_message
  repack_message_faults h =
      let at = m.msgptr in
      let n = sub_size m.wrptr m.msgptr in
      let fits : at + n ≡ m.fill = omega arith in
      ground (
        arith,
        check_lem v,
        move_down_lem m v at n fits,
        read_back_fault (repacked n (with_bytes m (storage m v at n fits))),
      )

  -- An empty message leaves an empty content.
  nothing_left :
      (n : ℕ)
      → (n == 0) ≡ true
      → m.msgptr + n ≡ m.fill
      → take n m.base.bytes ≡ drop m.msgptr (take m.fill m.base.bytes)
  nothing_left zero e fits = sym (
      drop-all m.msgptr (take m.fill m.base.bytes) (omega (arith, length-take m.fill m.base.bytes)))
  nothing_left (suc n) e fits = absurd (ground arith)

  -- In a valid buffer, mbuf_repack_message2() keeps the message alone, with all of it unread.
  pub repack_message2-Returns : Returns mbuf_repack_message2 m ok (repack_message2 (view m))
  unfolding mbuf_repack_message2
  repack_message2-Returns =
      let at = m.msgptr in
      let n = sub_size m.wrptr m.msgptr in
      let fits : at + n ≡ m.fill = omega arith in
      elim (Bool-cases (n == 0)) [
        | inl none_left ↦
            let v' : IsValid (repacked2 n m) = omega arith in
            record {
              after = repacked2 n m;
              runs = ground (arith, check_lem v, move_some_lem at n fits, check_lem v');
              valid = v';
              shows =
                  ap (λ c. record { content = c; rd = 0; msg = 0 }) (nothing_left n none_left fits);
            }
        | inr some_left ↦
            let m' = repacked2 n (with_bytes m (storage m v at n fits)) in
            let v' : IsValid m' = omega (arith, length-storage m v at n fits) in
            record {
              after = m';
              runs = ground (arith, check_lem v, move_some_lem at n fits, check_lem v');
              valid = v';
              shows =
                  ap (λ c. record { content = c; rd = 0; msg = 0 }) (take-storage m v at n fits);
            }
      ]
