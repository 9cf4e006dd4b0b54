-- ===== src/Marshal/Sends/Value.antt =====
-- marshal_value() of soml/lib/shared/marshal.c, type by type, against the wire format.
use semantic_oml.Base.Bytes.{length-be, pack}
use semantic_oml.Base.Int.{fits_int8}
use semantic_oml.Marshal.Wire.{IsSendable, wire, double_bytes, vector_bytes, text_bytes}
use semantic_oml.Value.{
  Doubles, OmlValue, unknown, double, long, int32, uint32, int64, uint64, guid, string, datetime,
  blob, bool, vector_double, vector_int32, vector_uint32, vector_int64, vector_uint64, vector_bool,
}
use semantic_oml.Base.{
  inr, inl, false, refl, ap, ◌||◌, not, map, if◌then◌else◌, sym, Bool, none, take-min, ◌%◌, min,
  ◌∷◌, length-take, ℕ, ◌+◌, ◌≤◌, ◌≡◌, List, [], ◌++◌, some, true, length, take, subst, arith,
  append-nil, length-append, take-all,
}
use semantic_oml.Base.Bytes.{be}
use semantic_oml.Mem.{Libc}
use semantic_oml.Mem.Laws.{LibcLaws}
use semantic_oml.Mbuf.{MBuffer, pure, ◌>>=◌}
use semantic_oml.Mbuf.Invariant.{IsValid}
use semantic_oml.Mbuf.View.{reset_write, Returns, view, length-content}
use semantic_oml.Mbuf.Transfer.{mbuf_write}
use semantic_oml.Mbuf.Transfer.Write.{mbuf_write_null, Writes, mbuf_write-Writes}
use semantic_oml.Marshal.{
  put_blob, bool_t, double64_t, uint64_t, int64_t, uint32_t, pack, int32_t, bool_false_t, fits_int8,
  bool_true_t, blob_t, datetime_t, string_t, bool_tag, uint64, int64, uint32, int32, long, blob, be,
  OmlValue, vector_t, string_t_max_size, put_double, marshal_value, put_vector, put_text, Doubles,
  or_reset, put, put_both,
}
use semantic_oml.Marshal.Sends.{
  goes_on, reset-append, Writable-append, drops, reset_write, Returns, Writable, Sends, Sends-pure,
  Sends-bind,
}

module _ (libc : Libc) (laws : LibcLaws libc) (m : MBuffer) (v : IsValid m) where
  writes :
      (buf : List ℕ) (len n : ℕ)
      → len ≤ length buf
      → Writable (len + n) (view m)
      → Writes (take len buf) m (mbuf_write libc (some buf) len)
  writes buf len n h w =
      mbuf_write-Writes libc laws m v buf len h (omega (arith, w, length-content m v))

module _ (libc : Libc) (laws : LibcLaws libc) where
  all_written :
      (m : MBuffer) (v : IsValid m) (buf : List ℕ) (n : ℕ)
      → Writable (length buf + n) (view m)
      → Writes buf m (mbuf_write libc (some buf) (length buf))
  all_written m v buf n w =
      rw (take-all (length buf) buf (omega arith)) at
        (writes libc laws m v buf (length buf) n (omega arith) w)

  put-Sends :
      (m : MBuffer) (v : IsValid m) (buf : List ℕ)
      → Writable (length buf) (view m)
      → Sends buf m (put libc buf)
  unfolding put
  put-Sends m v buf w =
      let w' : Writable (length buf + 0) (view m) = omega (arith, w) in
      subst (λ bs. Sends bs m (put libc buf)) (append-nil buf)
        (Sends-bind m v (mbuf_write libc (some buf) (length buf)) (pure true) buf [] w'
          (all_written m v buf 0 w') (λ m' v' _. Sends-pure m' v'))

  put_part-Sends :
      (m : MBuffer) (v : IsValid m) (buf : List ℕ) (len : ℕ)
      → len ≤ length buf
      → Writable (length (take len buf)) (view m)
      → Sends (take len buf) m (mbuf_write libc (some buf) len >>= λ s. or_reset s (pure true))
  put_part-Sends m v buf len h w =
      let e : length (take len buf) ≡ len = omega (arith, length-take len buf) in
      let w' : Writable (length (take len buf) + 0) (view m) = omega (arith, w) in
      subst (λ bs. Sends bs m (mbuf_write libc (some buf) len >>= λ s. or_reset s (pure true)))
        (append-nil (take len buf))
        (Sends-bind m v (mbuf_write libc (some buf) len) (pure true) (take len buf) [] w'
          (writes libc laws m v buf len 0 h (omega (arith, w, e))) (λ m' v' _. Sends-pure m' v'))

  put_both-Sends :
      (m : MBuffer) (v : IsValid m) (header buf : List ℕ) (len : ℕ)
      → len ≤ length buf
      → Writable (length (header ++ take len buf)) (view m)
      → Sends (header ++ take len buf) m (put_both libc header (some buf) len)
  unfolding put_both
  put_both-Sends m v header buf len h w =
      let w' : Writable (length header + length (take len buf)) (view m) =
        omega (arith, w, length-append header (take len buf)) in
      Sends-bind m v (mbuf_write libc (some header) (length header)) _ header (take len buf) w'
        (all_written m v header (length (take len buf)) w')
        (λ m' v' w''. put_part-Sends m' v' buf len h w'')

  text_header :
      (tag : ℕ) (s : List ℕ)
      → (tag ∷ (min (length s) string_t_max_size % 256) ∷ [])
          ++ take (min (length s) string_t_max_size) s
        ≡ tag ∷ text_bytes s
  text_header tag s = ground (arith, take-min string_t_max_size s, length-take string_t_max_size s)

  put_text-Sends :
      (m : MBuffer) (v : IsValid m) (tag : ℕ) (s : List ℕ)
      → Writable (length (tag ∷ text_bytes s)) (view m)
      → Sends (tag ∷ text_bytes s) m (put_text libc tag s)
  unfolding put_text
  put_text-Sends m v tag s w =
      let len = min (length s) string_t_max_size in
      let header = tag ∷ (len % 256) ∷ [] in
      let w' : Writable (length (header ++ take len s)) (view m) =
        subst (λ bs. Writable (length bs) (view m)) (sym (text_header tag s)) w in
      subst (λ bs. Sends bs m (put_text libc tag s)) (text_header tag s)
        (put_both-Sends m v header s len (omega arith) w')

  put_all-Sends :
      (m : MBuffer) (v : IsValid m) (header buf : List ℕ)
      → Writable (length (header ++ buf)) (view m)
      → Sends (header ++ buf) m (put_both libc header (some buf) (length buf))
  put_all-Sends m v header buf w =
      let e = take-all (length buf) buf (omega arith) in
      subst (λ bs. Sends (header ++ bs) m (put_both libc header (some buf) (length buf))) e
        (put_both-Sends m v header buf (length buf) (omega arith) (rw e w))

  put_vector-Sends :
      (m : MBuffer) (v : IsValid m) (tag n : ℕ) (elts : List ℕ)
      → Writable (length (vector_bytes tag n elts)) (view m)
      → Sends (vector_bytes tag n elts) m (put_vector libc tag n elts)
  unfolding put_vector
  put_vector-Sends m v tag n elts w = put_all-Sends m v (vector_t ∷ tag ∷ be 2 n) elts w

  put_if :
      (a b : Bool) (xs ys : List ℕ)
      → (if a then put libc xs else if b then put libc xs else put libc ys)
        ≡ put libc (if a || b then xs else ys)
  put_if true b xs ys = refl
  put_if false true xs ys = refl
  put_if false false xs ys = refl

  bool_tags :
      (bs : List Bool) → map bool_tag bs ≡ map (λ b. if b then bool_true_t else bool_false_t) bs
  unfolding bool_tag
  bool_tags [] = refl
  bool_tags (true ∷ bs) = ap (λ l. bool_true_t ∷ l) (bool_tags bs)
  bool_tags (false ∷ bs) = ap (λ l. bool_false_t ∷ l) (bool_tags bs)

  module _ (dbl : Doubles) where
    put_double-Sends :
        (m : MBuffer) (v : IsValid m) (d : dbl.Double)
        → Writable (length (double_bytes dbl d)) (view m)
        → Sends (double_bytes dbl d) m (put_double libc dbl d)
    unfolding put_double
    put_double-Sends m v d w =
        subst (Sends (double_bytes dbl d) m)
          (sym (put_if (dbl.is_nan d) (not (fits_int8 (dbl.frexp d).1)) _ _))
          (put-Sends m v (double_bytes dbl d) w)

    -- In a valid buffer in which a message is being written, with less than 2 ^ 31 bytes after the
    -- value, any value of a known type but a NULL blob: marshal_value() returns 1 and has appended the
    -- value's bytes, or returns 0 and has dropped the message. The bytes are the type, and the value in
    -- network order behind its length, if it has one: of one byte for a string or a date, two for a
    -- vector, and four for a blob, where the comment at the head of marshal.c shows one.
    pub marshal_value-Sends :
        (m : MBuffer) (v : IsValid m) (value : OmlValue dbl.Double)
        → IsSendable value
        → Writable (length (wire dbl value)) (view m)
        → Sends (wire dbl value) m (marshal_value libc dbl value)
    unfolding marshal_value wire put_blob
    marshal_value-Sends m v unknown h w = absurd h
    marshal_value-Sends m v (long n) h w = put-Sends m v _ w
    marshal_value-Sends m v (int32 n) h w = put-Sends m v _ w
    marshal_value-Sends m v (uint32 n) h w = put-Sends m v _ w
    marshal_value-Sends m v (int64 n) h w = put-Sends m v _ w
    marshal_value-Sends m v (uint64 n) h w = put-Sends m v _ w
    marshal_value-Sends m v (guid n) h w = put-Sends m v _ w
    marshal_value-Sends m v (bool true) h w = put-Sends m v _ w
    marshal_value-Sends m v (bool false) h w = put-Sends m v _ w
    marshal_value-Sends m v (double d) h w = put_double-Sends m v d w
    marshal_value-Sends m v (string none) h w = put_text-Sends m v string_t [] w
    marshal_value-Sends m v (string (some s)) h w = put_text-Sends m v string_t s w
    marshal_value-Sends m v (datetime none) h w = put_text-Sends m v datetime_t [] w
    marshal_value-Sends m v (datetime (some s)) h w = put_text-Sends m v datetime_t s w
    marshal_value-Sends m v (blob none) h w = absurd h
    marshal_value-Sends m v (blob (some bs)) h w =
        put_all-Sends m v (blob_t ∷ be 4 (length bs)) bs w
    marshal_value-Sends m v (vector_int32 ws) h w =
        put_vector-Sends m v int32_t (length ws) (pack 4 ws) w
    marshal_value-Sends m v (vector_uint32 ws) h w =
        put_vector-Sends m v uint32_t (length ws) (pack 4 ws) w
    marshal_value-Sends m v (vector_int64 ws) h w =
        put_vector-Sends m v int64_t (length ws) (pack 8 ws) w
    marshal_value-Sends m v (vector_uint64 ws) h w =
        put_vector-Sends m v uint64_t (length ws) (pack 8 ws) w
    marshal_value-Sends m v (vector_double ws) h w =
        put_vector-Sends m v double64_t (length ws) (pack 8 ws) w
    marshal_value-Sends m v (vector_bool bs) h w =
        subst
          (λ elts.
            Sends (vector_bytes bool_t (length bs) elts) m
              (put_vector libc bool_t (length bs) (map bool_tag bs)))
          (bool_tags bs)
          (put_vector-Sends m v bool_t (length bs) (map bool_tag bs) (rw (bool_tags bs) w))

-- A NULL blob is never sent: in a valid buffer in which a message is being written, with less than
-- 2 ^ 31 bytes after five more, marshal_value() returns 0 and has dropped the message.
pub null_blob_drops :
    (libc : Libc) (laws : LibcLaws libc) (dbl : Doubles) (m : MBuffer) (v : IsValid m)
    → Writable 5 (view m)
    → Returns (marshal_value libc dbl (blob none)) m false (reset_write (view m))
unfolding marshal_value put_blob put_both
null_blob_drops libc laws dbl m v w =
    let header = blob_t ∷ be 4 0 in
    let first = mbuf_write libc (some header) (length header) in
    let second = mbuf_write libc none 0 in
    let next = second >>= λ s. or_reset s (pure true) in
    let w' : Writable (length header + 0) (view m) = omega (arith, w, length-be 4 0) in
    elim (all_written libc laws m v header 0 w') [
      | inl refused ↦ drops m v first next header [] w' refused
      | inr r ↦
          let w'' = subst (Writable 0) (sym r.shows) (Writable-append header 0 (view m) w') in
          subst (Returns (marshal_value libc dbl (blob none)) m false)
            (reset-append m v first next header [] w' r)
            (goes_on m v first next header [] w' r
              (drops r.after r.valid second (pure true) [] [] w'' (mbuf_write_null libc 0 r.after)))
    ]
