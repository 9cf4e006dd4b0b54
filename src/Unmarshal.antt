-- ===== src/Unmarshal.antt =====
-- soml/lib/shared/marshal.c: the receiver's half of the binary protocol, one value at a time.
pub mod Reads
pub mod RoundTrip
pub mod Packet
pub mod Faults
use semantic_oml.Base.{
  ℕ, ◌+◌, ◌*◌, ◌≤◌, List, [], ◌∷◌, Option, none, some, Bool, true, false, length, take, drop, map,
  ltb, leb, ◌==◌, if◌then◌else◌,
}
use semantic_oml.Base.Int.{int8_of}
use semantic_oml.Base.Bytes.{from_be, unpack}
use semantic_oml.Mem.{Libc, oml_calloc, read_from}
use semantic_oml.Mbuf.{MBuffer, Status, ok, fail, M, pure, ◌>>=◌, gets}
use semantic_oml.Mbuf.Transfer.{mbuf_read, mbuf_read_skip, mbuf_read_byte}
use semantic_oml.Mbuf.Message.{mbuf_rd_remaining}
use semantic_oml.Value.{
  Doubles, OmlValue, double, long, int32, uint32, int64, uint64, guid, string, datetime, blob, bool,
  vector_double, vector_int32, vector_uint32, vector_int64, vector_uint64, vector_bool,
}
use semantic_oml.Marshal.{
  long_t, double_t, double_nan, string_t, int32_t, uint32_t, int64_t, uint64_t, blob_t, guid_t,
  bool_false_t, bool_true_t, vector_t, bool_t, double64_t, datetime_t, string_t_max_size,
}

abbrev fault {ℓ} : {A : Type ℓ} → M A
fault m = none

-- The bytes are copied to a buffer of `cap` bytes on the stack.
pub within : ℕ → Option (List ℕ) → M (Option (List ℕ))
within cap none = pure none
within cap (some bs) = if leb (length bs) cap then pure (some bs) else fault

pub read_into : ℕ → ℕ → M (Option (List ℕ))
unfolding within
read_into cap n = do r ← mbuf_read n; within cap r

-- What omlc_set_blob() copies from the read pointer.
copy_unread : ℕ → M (List ℕ)
copy_unread n m = elim (read_from m.base.bytes m.rdptr n) [ none ↦ none | some bs ↦ some (bs, m) ]

module _ (dbl : Doubles) where
  open dbl use {Double, nan, ldexp, of_fixed}

  -- What unmarshal_value() returns, and what it leaves in the value that it is given. A value that
  -- is not set stays as it was.
  abbrev pub Outcome : Type 0
  Outcome = Bool × OmlValue Double

  module _ (libc : Libc) (old : OmlValue Double) where
    -- 1 with a value made of the bytes read, or 0.
    accept : (List ℕ → OmlValue Double) → Option (List ℕ) → M Outcome
    accept make none = pure (false, old)
    accept make (some bs) = pure (true, make bs)

    unfoldable pub fixed : ℕ → (List ℕ → OmlValue Double) → M Outcome
    unfolding accept
    fixed n make = do r ← mbuf_read n; accept make r

    pub text_tail : (List ℕ → OmlValue Double) → Option ℕ → M Outcome
    unfolding accept
    text_tail make none = pure (false, old)
    text_tail make (some len) = do r ← read_into string_t_max_size len; accept make r

    pub text : (List ℕ → OmlValue Double) → M Outcome
    unfolding text_tail
    text make = do len ← mbuf_read_byte; text_tail make len

    blob_bytes : ℕ → M Outcome
    unfolding copy_unread
    blob_bytes len = do bs ← copy_unread len; _ ← mbuf_read_skip len; pure (true, blob (some bs))

    blob_tail : Option (List ℕ) → M Outcome
    unfolding blob_bytes
    blob_tail none = pure (false, old)
    blob_tail (some n_len) = do
      remaining ← gets mbuf_rd_remaining
      if ltb remaining (from_be 0 n_len) then pure (false, old) else blob_bytes (from_be 0 n_len)

    pub blob_value : M Outcome
    unfolding blob_tail
    blob_value = do r ← mbuf_read 4; blob_tail r

    -- `n` elements of `size` bytes, into memory that oml_calloc() finds: mbuf_read() refuses NULL.
    pub elements : ℕ → ℕ → (List ℕ → OmlValue Double) → M Outcome
    unfolding accept
    elements n size make =
        if oml_calloc libc n size then fixed (n * size) make else pure (false, old)

    pub bool_of : ℕ → Bool
    bool_of b = b == bool_true_t

    -- What is read in place of memory that is not found: the first element is written through NULL.
    unallocated : Option (List ℕ) → M Outcome
    unallocated none = pure (false, old)
    unallocated (some []) = pure (true, vector_bool [])
    unallocated (some (b ∷ bs)) = fault

    -- The elements are read into an array of their own first.
    pub bool_elements : ℕ → M Outcome
    unfolding unallocated bool_of
    bool_elements n =
        if oml_calloc libc n 1
        then fixed n (λ bs. vector_bool (map bool_of bs))
        else (do r ← mbuf_read n; unallocated r)

    -- The element type indexes vector_type_map, which ends at DOUBLE64_T. An element type that is
    -- none leaves the value as it was, and is no error.
    pub vector_elements : ℕ → ℕ → M Outcome
    unfolding elements bool_elements
    vector_elements tag n =
        if ltb double64_t tag
        then fault
        else if tag == int32_t
        then elements n 4 (λ bs. vector_int32 (unpack 4 n bs))
        else if tag == uint32_t
        then elements n 4 (λ bs. vector_uint32 (unpack 4 n bs))
        else if tag == int64_t
        then elements n 8 (λ bs. vector_int64 (unpack 8 n bs))
        else if tag == uint64_t
        then elements n 8 (λ bs. vector_uint64 (unpack 8 n bs))
        else if tag == double64_t
        then elements n 8 (λ bs. vector_double (unpack 8 n bs))
        else if tag == bool_t
        then bool_elements n
        else pure (true, old)

    vector_count : ℕ → Option (List ℕ) → M Outcome
    unfolding vector_elements
    vector_count tag none = pure (false, old)
    vector_count tag (some nof_elts) = vector_elements tag (from_be 0 nof_elts)

    pub vector_tail : Option ℕ → M Outcome
    unfolding vector_count
    vector_tail none = pure (false, old)
    vector_tail (some tag) = do r ← mbuf_read 2; vector_count tag r

    pub vector_value : M Outcome
    unfolding vector_tail
    vector_value = do tag ← mbuf_read_byte; vector_tail tag

    unfoldable pub double_of : List ℕ → OmlValue Double
    double_of bs =
        double (ldexp (of_fixed (from_be 0 (take 4 bs))) (int8_of (from_be 0 (drop 4 bs))))

    -- The bytes of a NaN are skipped, also where there are too few of them.
    pub nan_value : M Outcome
    nan_value = do _ ← mbuf_read_skip 5; pure (true, double nan)

    unfoldable pub body : ℕ → M Outcome
    body tag =
        if tag == long_t
        then fixed 4 (λ bs. int32 (from_be 0 bs))
        else if tag == int32_t
        then fixed 4 (λ bs. int32 (from_be 0 bs))
        else if tag == uint32_t
        then fixed 4 (λ bs. uint32 (from_be 0 bs))
        else if tag == int64_t
        then fixed 8 (λ bs. int64 (from_be 0 bs))
        else if tag == uint64_t
        then fixed 8 (λ bs. uint64 (from_be 0 bs))
        else if tag == double_t
        then fixed 5 double_of
        else if tag == double_nan
        then nan_value
        else if tag == string_t
        then text (λ bs. string (some bs))
        else if tag == datetime_t
        then text (λ bs. datetime (some bs))
        else if tag == blob_t
        then blob_value
        else if tag == guid_t
        then fixed 8 (λ bs. guid (from_be 0 bs))
        else if tag == bool_false_t
        then pure (true, bool false)
        else if tag == bool_true_t
        then pure (true, bool true)
        else if tag == vector_t
        then vector_value
        else pure (false, old)

    pub tagged : Option ℕ → M Outcome
    unfolding body
    tagged none = pure (false, old)
    tagged (some tag) = body tag

    any_tag : M Outcome
    unfolding tagged
    any_tag = do tag ← mbuf_read_byte; tagged tag

    unfoldable pub unmarshal_value : M Outcome
    unfolding any_tag
    unmarshal_value = do
      remaining ← gets mbuf_rd_remaining
      if remaining == 0 then pure (false, old) else any_tag
