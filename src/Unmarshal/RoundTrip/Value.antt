-- ===== src/Unmarshal/RoundTrip/Value.antt =====
-- Each value that marshal_value() of soml/lib/shared/marshal.c sends is read by unmarshal_value().
use semantic_oml.Base.{
  length-map, length-take, length-append, drop-append_left, take-append_left, ℕ, ◌*◌, ◌<◌, ◌^◌, ◌≡◌,
  List, [], ◌∷◌, ◌++◌, some, Bool, true, false, All, length, take, map, refl, sym, ap, ◌∙◌, subst,
  arith, if◌then◌else◌, ◌||◌, not, inl, inr, Bool-cases,
}
use semantic_oml.Base.Bytes.{
  from_be_byte, be, from_be, pack, unpack, length-be, from_be-be, length-pack, unpack-pack,
}
use semantic_oml.Base.Int.{fits_int8, int8_bits, int8_of, int8_of-int8_bits}
use semantic_oml.Mem.{Libc}
use semantic_oml.Mem.Laws.{FindsMemory, oml_calloc_found}
use semantic_oml.Mbuf.{ok}
use semantic_oml.Mbuf.Transfer.{mbuf_read_skip}
use semantic_oml.Value.{
  Doubles, OmlValue, unknown, double, long, int32, uint32, int64, uint64, guid, string, datetime,
  blob, bool, vector_double, vector_int32, vector_uint32, vector_int64, vector_uint64, vector_bool,
  oml_value_clamp_long,
}
use semantic_oml.Marshal.{
  vector_t, string_t_max_size, long_t, double_t, double_nan, string_t, datetime_t, blob_t, guid_t,
  bool_true_t, bool_false_t, int32_t, uint32_t, int64_t, uint64_t, double64_t, bool_t,
}
use semantic_oml.Marshal.Wire.{text_bytes, wire, no_bytes, double_bytes}
use semantic_oml.Unmarshal.{
  fixed, text, bool_of, double_of, nan_value, vector_elements, body, unmarshal_value,
}
use semantic_oml.Unmarshal.Reads.{Reads, Reads-pure, Reads-bind_last, Reads-mbuf_read_skip}
use semantic_oml.Unmarshal.RoundTrip.{received, Fits}
use semantic_oml.Unmarshal.RoundTrip.Parts.{
  bool_elements-Reads, fixed-Reads, text-Reads, blob_value-Reads, elements-Reads,
  vector_value-Reads, unmarshal_value-Reads,
}

clamp-lt : (w : ℕ) → w < 2 ^ 64 → oml_value_clamp_long w < 2 ^ 32
unfolding oml_value_clamp_long
clamp-lt w h = ground arith

module _ (dbl : Doubles) (libc : Libc) (old : OmlValue dbl.Double) where
  -- An integer of `k` bytes behind its type.
  integer-Reads :
      (tag k w : ℕ) (make : ℕ → OmlValue dbl.Double)
      → w < 256 ^ k
      → Reads (be k w) (body dbl libc old tag) (true, make (from_be 0 (be k w)))
      → Reads (tag ∷ be k w) (unmarshal_value dbl libc old) (true, make w)
  integer-Reads tag k w make h r =
      unmarshal_value-Reads dbl libc old tag (be k w) (true, make w)
        (subst (λ n. Reads (be k w) (body dbl libc old tag) (true, make n)) (from_be-be k w h) r)

  fixed-be :
      (k w : ℕ) (make : ℕ → OmlValue dbl.Double)
      → Reads
          (be k w)
          (fixed dbl libc old k (λ bs. make (from_be 0 bs)))
          (true, make (from_be 0 (be k w)))
  fixed-be k w make =
      fixed-Reads dbl libc old k (λ bs. make (from_be 0 bs)) (be k w) (length-be k w)

  double_of_lem :
      (d : dbl.Double)
      → dbl.to_fixed (dbl.frexp d).0 < 2 ^ 32
      → fits_int8 (dbl.frexp d).1 ≡ true
      → double_of dbl libc old
          (be 4 (dbl.to_fixed (dbl.frexp d).0) ++ (int8_bits (dbl.frexp d).1 ∷ []))
        ≡ double (dbl.ldexp (dbl.of_fixed (dbl.to_fixed (dbl.frexp d).0)) (dbl.frexp d).1)
  unfolding double_of
  double_of_lem d h e =
      let f = dbl.to_fixed (dbl.frexp d).0 in
      let z = int8_bits (dbl.frexp d).1 in
      rw
        (
          take-append_left 4 (be 4 f) (z ∷ []) (sym (length-be 4 f)),
          drop-append_left 4 (be 4 f) (z ∷ []) (sym (length-be 4 f)),
          from_be-be 4 f (omega arith),
        )
        (ap (λ n. double (dbl.ldexp (dbl.of_fixed f) (int8_of n))) (from_be_byte z)
          ∙ ap (λ x. double (dbl.ldexp (dbl.of_fixed f) x)) (int8_of-int8_bits (dbl.frexp d).1 e))

  nan_value-Reads : Reads (0 ∷ 0 ∷ 0 ∷ 0 ∷ 0 ∷ []) (nan_value dbl libc old) (true, double dbl.nan)
  unfolding nan_value
  nan_value-Reads =
      Reads-bind_last (mbuf_read_skip 5) _ (0 ∷ 0 ∷ 0 ∷ 0 ∷ 0 ∷ []) ok _
        (Reads-mbuf_read_skip 5 (0 ∷ 0 ∷ 0 ∷ 0 ∷ 0 ∷ []) refl) (Reads-pure (true, double dbl.nan))

  number-Reads :
      (d : dbl.Double)
      → dbl.to_fixed (dbl.frexp d).0 < 2 ^ 32
      → fits_int8 (dbl.frexp d).1 ≡ true
      → Reads
          (be 4 (dbl.to_fixed (dbl.frexp d).0) ++ (int8_bits (dbl.frexp d).1 ∷ []))
          (fixed dbl libc old 5 (double_of dbl libc old))
          (true, double (dbl.ldexp (dbl.of_fixed (dbl.to_fixed (dbl.frexp d).0)) (dbl.frexp d).1))
  number-Reads d h e =
      let bs = be 4 (dbl.to_fixed (dbl.frexp d).0) ++ (int8_bits (dbl.frexp d).1 ∷ []) in
      subst (λ x. Reads bs (fixed dbl libc old 5 (double_of dbl libc old)) (true, x))
        (double_of_lem d h e)
        (fixed-Reads dbl libc old 5 (double_of dbl libc old) bs (
          omega (
            arith,
            length-append (be 4 (dbl.to_fixed (dbl.frexp d).0)) (int8_bits (dbl.frexp d).1 ∷ []),
            length-be 4 (dbl.to_fixed (dbl.frexp d).0),
          )))

  double-Reads :
      (d : dbl.Double)
      → dbl.to_fixed (dbl.frexp d).0 < 2 ^ 32
      → Reads (double_bytes dbl d) (unmarshal_value dbl libc old) (true, received dbl (double d))
  unfolding body
  double-Reads d h = elim (Bool-cases (dbl.is_nan d || not (fits_int8 (dbl.frexp d).1))) [
    | inl e ↦ rw e (unmarshal_value-Reads dbl libc old double_nan _ _ nan_value-Reads)
    | inr e ↦
        rw e (unmarshal_value-Reads dbl libc old double_t _ _ (number-Reads d h (ground arith)))
  ]

  map-bool_of :
      (bs : List Bool)
      → map (bool_of dbl libc old) (map (λ b. if b then bool_true_t else bool_false_t) bs) ≡ bs
  unfolding bool_of
  map-bool_of [] = refl
  map-bool_of (true ∷ bs) = ap (λ l. true ∷ l) (map-bool_of bs)
  map-bool_of (false ∷ bs) = ap (λ l. false ∷ l) (map-bool_of bs)

  module _ (memory : FindsMemory libc) where
    -- A vector of words behind its types.
    words-Reads :
        (tag size : ℕ) (ws : List ℕ) (make : List ℕ → OmlValue dbl.Double)
        → (length ws < 2 ^ 16) × All (λ w. w < 256 ^ size) ws
        → ((bs : List ℕ)
            → length bs ≡ length ws * size
            → Reads bs
                (vector_elements dbl libc old tag (length ws))
                (true, make (unpack size (length ws) bs)))
        → Reads
            (vector_t ∷ tag ∷ (be 2 (length ws) ++ pack size ws))
            (unmarshal_value dbl libc old)
            (true, make ws)
    unfolding body
    words-Reads tag size ws make h r =
        unmarshal_value-Reads dbl libc old vector_t _ (true, make ws)
          (vector_value-Reads dbl libc old tag (length ws) (pack size ws) (make ws) h.0 (
            subst
              (λ l.
                Reads (pack size ws) (vector_elements dbl libc old tag (length ws)) (true, make l))
              (unpack-pack size ws h.1) (r (pack size ws) (length-pack size ws))))

  clipped-Reads :
      (make : List ℕ → OmlValue dbl.Double) (bs : List ℕ)
      → Reads (text_bytes bs) (text dbl libc old make) (true, make (take string_t_max_size bs))
  clipped-Reads make bs =
      text-Reads dbl libc old make (take string_t_max_size bs)
        (omega (arith, length-take string_t_max_size bs))

  bools-Reads :
      (bs : List Bool)
      → length bs < 2 ^ 16
      → FindsMemory libc
      → Reads (wire dbl (vector_bool bs)) (unmarshal_value dbl libc old) (true, vector_bool bs)
  unfolding wire body vector_elements
  bools-Reads bs h memory =
      let tags = map (λ b. if b then bool_true_t else bool_false_t) bs in
      unmarshal_value-Reads dbl libc old vector_t _ (true, vector_bool bs)
        (vector_value-Reads dbl libc old bool_t (length bs) tags (vector_bool bs) h (
          subst
            (λ l.
              Reads tags (vector_elements dbl libc old bool_t (length bs)) (true, vector_bool l))
            (map-bool_of bs)
            (bool_elements-Reads dbl libc old (length bs) tags
              (oml_calloc_found libc memory (length bs) 1)
              (omega (arith, length-map (λ b. if b then bool_true_t else bool_false_t) bs)))))

  -- Where the bytes that a sender puts for a value stand next to be read, unmarshal_value() returns
  -- 1 with what a receiver is told by that value, and has read those bytes and no others.
  pub wire-Reads :
      (value : OmlValue dbl.Double)
      → Fits dbl value
      → FindsMemory libc
      → Reads (wire dbl value) (unmarshal_value dbl libc old) (true, received dbl value)
  unfolding wire body vector_elements
  wire-Reads unknown h memory = absurd h
  wire-Reads (long w) h memory =
      integer-Reads long_t 4 (oml_value_clamp_long w) int32 (clamp-lt w h)
        (fixed-be 4 (oml_value_clamp_long w) int32)
  wire-Reads (int32 w) h memory = integer-Reads int32_t 4 w int32 h (fixed-be 4 w int32)
  wire-Reads (uint32 w) h memory = integer-Reads uint32_t 4 w uint32 h (fixed-be 4 w uint32)
  wire-Reads (int64 w) h memory = integer-Reads int64_t 8 w int64 h (fixed-be 8 w int64)
  wire-Reads (uint64 w) h memory = integer-Reads uint64_t 8 w uint64 h (fixed-be 8 w uint64)
  wire-Reads (guid w) h memory = integer-Reads guid_t 8 w guid h (fixed-be 8 w guid)
  wire-Reads (double d) h memory = double-Reads d h
  wire-Reads (string s) h memory =
      unmarshal_value-Reads dbl libc old string_t _ _
        (clipped-Reads (λ t. string (some t)) (no_bytes s))
  wire-Reads (datetime s) h memory =
      unmarshal_value-Reads dbl libc old datetime_t _ _
        (clipped-Reads (λ t. datetime (some t)) (no_bytes s))
  wire-Reads (blob b) h memory =
      unmarshal_value-Reads dbl libc old blob_t _ _ (blob_value-Reads dbl libc old (no_bytes b) h)
  wire-Reads (bool true) h memory =
      unmarshal_value-Reads dbl libc old bool_true_t [] _ (Reads-pure (true, bool true))
  wire-Reads (bool false) h memory =
      unmarshal_value-Reads dbl libc old bool_false_t [] _ (Reads-pure (true, bool false))
  wire-Reads (vector_int32 ws) h memory = words-Reads memory int32_t 4 ws vector_int32 h (λ bs e.
      elements-Reads dbl libc old (length ws) 4 _ bs (oml_calloc_found libc memory (length ws) 4) e)
  wire-Reads (vector_uint32 ws) h memory = words-Reads memory uint32_t 4 ws vector_uint32 h (λ bs e.
      elements-Reads dbl libc old (length ws) 4 _ bs (oml_calloc_found libc memory (length ws) 4) e)
  wire-Reads (vector_int64 ws) h memory = words-Reads memory int64_t 8 ws vector_int64 h (λ bs e.
      elements-Reads dbl libc old (length ws) 8 _ bs (oml_calloc_found libc memory (length ws) 8) e)
  wire-Reads (vector_uint64 ws) h memory = words-Reads memory uint64_t 8 ws vector_uint64 h (λ bs e.
      elements-Reads dbl libc old (length ws) 8 _ bs (oml_calloc_found libc memory (length ws) 8) e)
  wire-Reads (vector_double ws) h memory =
      words-Reads memory double64_t 8 ws vector_double h (λ bs e.
        elements-Reads dbl libc old (length ws) 8 _ bs (oml_calloc_found libc memory (length ws) 8)
          e)
  wire-Reads (vector_bool bs) h memory = bools-Reads bs h memory
