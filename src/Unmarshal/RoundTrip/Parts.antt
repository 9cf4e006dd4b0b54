-- ===== src/Unmarshal/RoundTrip/Parts.antt =====
-- The parts of unmarshal_value() of soml/lib/shared/marshal.c, each on the bytes that it expects.
use semantic_oml.Mbuf.Transfer.Read.{read-unread}
use semantic_oml.Mem.Laws.{read_from_lem}
use semantic_oml.Mbuf.Message.{mbuf_rd_remaining}
use semantic_oml.Mbuf.View.{Returns-of_eq, view, unread}
use semantic_oml.Mbuf.Invariant.{IsValid}
use semantic_oml.Mbuf.{pure, MBuffer}
use semantic_oml.Base.Bytes.{from_be, length-be, from_be-be, be}
use semantic_oml.Base.{
  map, ◌==◌, ◌*◌, take-append_left, false, ap, ltb, ◌++◌, leb, ℕ, ◌≤◌, ◌<◌, ◌^◌, ◌≡◌, List, [], ◌∷◌,
  some, true, length, take, refl, arith, if◌then◌else◌,
}
use semantic_oml.Mem.{oml_calloc, Libc}
use semantic_oml.Mbuf.Transfer.{mbuf_read, mbuf_read_byte}
use semantic_oml.Value.{Doubles, OmlValue, blob}
use semantic_oml.Marshal.{string_t_max_size}
use semantic_oml.Unmarshal.{
  bool_of, vector_bool, bool_elements, any_tag, body, vector_elements, Outcome, vector_value,
  unmarshal_value, elements, mbuf_rd_remaining, MBuffer, copy_unread, blob_value, blob_tail,
  blob_bytes, read_into, fixed, text,
}
use semantic_oml.Unmarshal.Reads.{
  length-left, Returns-if_false, Reads-mbuf_read_skip, Reads, Reads-pure, Reads-bind,
  Reads-bind_last, Reads-mbuf_read, Reads-mbuf_read_byte, Reads-if_true,
}

module _ (dbl : Doubles) where
  open dbl use {Double}

  module _ (libc : Libc) (old : OmlValue Double) where
    pub fixed-Reads :
        (n : ℕ) (make : List ℕ → OmlValue Double) (bs : List ℕ)
        → length bs ≡ n
        → Reads bs (fixed dbl libc old n make) (true, make bs)
    unfolding fixed
    fixed-Reads n make bs h =
        Reads-bind_last (mbuf_read n) _ bs (some bs) _ (Reads-mbuf_read n bs h)
          (Reads-pure (true, make bs))

    read_into-Reads :
        (cap : ℕ) (bs : List ℕ) → length bs ≤ cap → Reads bs (read_into cap (length bs)) (some bs)
    unfolding read_into
    read_into-Reads cap bs h =
        Reads-bind_last (mbuf_read (length bs)) _ bs (some bs) _
          (Reads-mbuf_read (length bs) bs refl)
          (Reads-if_true (leb (length bs) cap) _ _ [] (ground arith) (Reads-pure (some bs)))

    pub text-Reads :
        (make : List ℕ → OmlValue Double) (bs : List ℕ)
        → length bs ≤ string_t_max_size
        → Reads (length bs ∷ bs) (text dbl libc old make) (true, make bs)
    unfolding text
    text-Reads make bs h =
        Reads-bind mbuf_read_byte _ (length bs ∷ []) bs (some (length bs)) _
          (Reads-mbuf_read_byte (length bs))
          (Reads-bind_last (read_into string_t_max_size (length bs)) _ bs (some bs) _
            (read_into-Reads string_t_max_size bs h) (Reads-pure (true, make bs)))

    copy_unread_lem :
        (m : MBuffer) (bs rest : List ℕ)
        → IsValid m
        → unread (view m) ≡ bs ++ rest
        → copy_unread (length bs) m ≡ some (bs, m)
    unfolding copy_unread
    copy_unread_lem m bs rest v e =
        let n = length bs in
        let h = length-left n bs refl m rest v e in
        ground (
          arith,
          read_from_lem m.base.bytes m.rdptr n (omega arith),
          read-unread m v n h,
          ap (take n) e,
          take-append_left n bs rest refl,
        )

    blob_bytes-Reads :
        (bs : List ℕ) → Reads bs (blob_bytes dbl libc old (length bs)) (true, blob (some bs))
    unfolding blob_bytes
    blob_bytes-Reads bs = record {
      at = λ m rest v e.
          let r = (Reads-mbuf_read_skip (length bs) bs refl).at m rest v e in
          record {
            after = r.after;
            runs = ground (arith, copy_unread_lem m bs rest v e, r.runs);
            valid = r.valid;
            shows = r.shows;
          };
    }

    blob_tail-Reads :
        (bs : List ℕ)
        → length bs < 2 ^ 32
        → Reads bs (blob_tail dbl libc old (some (be 4 (length bs)))) (true, blob (some bs))
    unfolding blob_tail
    blob_tail-Reads bs h = record {
      at = λ m rest v e.
          let len = from_be-be 4 (length bs) (omega arith) in
          let got = from_be 0 (be 4 (length bs)) in
          let short = ltb (mbuf_rd_remaining m) got in
          let whole = blob_bytes dbl libc old got in
          Returns-of_eq _ (if short then pure (false, old) else whole) m refl (
            Returns-if_false short (pure (false, old)) whole m
              (ground (arith, len, length-left (length bs) bs refl m rest v e))
              (rw len ((blob_bytes-Reads bs).at m rest v e)));
    }

    pub blob_value-Reads :
        (bs : List ℕ)
        → length bs < 2 ^ 32
        → Reads (be 4 (length bs) ++ bs) (blob_value dbl libc old) (true, blob (some bs))
    unfolding blob_value
    blob_value-Reads bs h =
        Reads-bind (mbuf_read 4) _ (be 4 (length bs)) bs (some (be 4 (length bs))) _
          (Reads-mbuf_read 4 (be 4 (length bs)) (length-be 4 (length bs))) (blob_tail-Reads bs h)

    -- A vector's elements, in memory that is found.
    pub elements-Reads :
        (n size : ℕ) (make : List ℕ → OmlValue Double) (bs : List ℕ)
        → oml_calloc libc n size ≡ true
        → length bs ≡ n * size
        → Reads bs (elements dbl libc old n size make) (true, make bs)
    unfolding elements
    elements-Reads n size make bs found h =
        Reads-if_true (oml_calloc libc n size) _ _ bs found (fixed-Reads (n * size) make bs h)

    pub bool_elements-Reads :
        (n : ℕ) (bs : List ℕ)
        → oml_calloc libc n 1 ≡ true
        → length bs ≡ n
        → Reads bs
            (bool_elements dbl libc old n)
            (true, vector_bool (map (bool_of dbl libc old) bs))
    unfolding bool_elements
    bool_elements-Reads n bs found h =
        rw found (fixed-Reads n (λ l. vector_bool (map (bool_of dbl libc old) l)) bs h)

    pub vector_value-Reads :
        (tag n : ℕ) (bs : List ℕ) (value : OmlValue Double)
        → n < 2 ^ 16
        → Reads bs (vector_elements dbl libc old tag n) (true, value)
        → Reads (tag ∷ (be 2 n ++ bs)) (vector_value dbl libc old) (true, value)
    unfolding vector_value
    vector_value-Reads tag n bs value h r =
        Reads-bind mbuf_read_byte _ (tag ∷ []) (be 2 n ++ bs) (some tag) _
          (Reads-mbuf_read_byte tag)
          (Reads-bind (mbuf_read 2) _ (be 2 n) bs (some (be 2 n)) _
            (Reads-mbuf_read 2 (be 2 n) (length-be 2 n)) (rw (from_be-be 2 n (omega arith)) r))

    -- The type in front of a value.
    pub unmarshal_value-Reads :
        (tag : ℕ) (bs : List ℕ) (out : Outcome dbl)
        → Reads bs (body dbl libc old tag) out
        → Reads (tag ∷ bs) (unmarshal_value dbl libc old) out
    unfolding unmarshal_value
    unmarshal_value-Reads tag bs out r = record {
      at = λ m rest v e.
          let whole =
            Reads-bind mbuf_read_byte _ (tag ∷ []) bs (some tag) out (Reads-mbuf_read_byte tag) r in
          let none_left = mbuf_rd_remaining m == 0 in
          Returns-of_eq _ (if none_left then pure (false, old) else any_tag dbl libc old) m refl (
            Returns-if_false none_left (pure (false, old)) (any_tag dbl libc old) m
              (ground (arith, length-left (length (tag ∷ bs)) (tag ∷ bs) refl m rest v e))
              (whole.at m rest v e));
    }
