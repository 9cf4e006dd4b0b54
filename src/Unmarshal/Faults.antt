-- ===== src/Unmarshal/Faults.antt =====
-- Inputs on which unmarshal_value() of soml/lib/shared/marshal.c leaves its memory.
use semantic_oml.Marshal.{datetime_t, double64_t, vector_t, string_t_max_size, string_t}
use semantic_oml.Mbuf.Transfer.Read.{mbuf_read_byte-Returns}
use semantic_oml.Mbuf.Transfer.{mbuf_read_byte}
use semantic_oml.Mem.{Libc}
use semantic_oml.Value.{OmlValue, Doubles}
use semantic_oml.Base.{
  inr, inl, ◌⊎◌, ◌∙◌, [], ap, ◌∷◌, some, Option, ℕ, ◌<◌, ◌≡◌, List, ◌++◌, none, length, refl, arith,
}
use semantic_oml.Mbuf.{MBuffer, M, ◌>>=◌}
use semantic_oml.Base.Bytes.{be, length-be}
use semantic_oml.Mbuf.Invariant.{IsValid}
use semantic_oml.Mbuf.View.{view, unread}
use semantic_oml.Unmarshal.Reads.{length-left, unread-skip, Reads-mbuf_read}
use semantic_oml.Unmarshal.{
  datetime, string, vector_tail, tagged, text_tail, vector_t, vector_elements, string_t_max_size,
  string_t, vector_value, unmarshal_value, text, body, mbuf_read_byte, OmlValue, Libc, within,
  Doubles, read_into,
}

-- A byte, then what faults behind it.
byte_then_faults :
    {B : Type 0} (k : Option ℕ → M B) (m : MBuffer) (b : ℕ) (rest : List ℕ)
    → IsValid m
    → unread (view m) ≡ b ∷ rest
    → ((m' : MBuffer) → IsValid m' → unread (view m') ≡ rest → k (some b) m' ≡ none)
    → (mbuf_read_byte >>= k) m ≡ none
byte_then_faults k m b rest v e faults =
    let r = mbuf_read_byte-Returns m v b rest e in
    let left = ap unread r.shows ∙ unread-skip 1 (b ∷ []) rest (view m) refl e in
    ground (arith, r.runs, faults r.after r.valid left)

-- A text whose length byte is above the 254 bytes that the buffer on the stack has.
within_faults :
    (cap : ℕ) (bs : List ℕ) (m : MBuffer) → cap < length bs → within cap (some bs) m ≡ none
unfolding within
within_faults cap bs m h = ground arith

read_into_faults :
    (m : MBuffer) (cap : ℕ) (bs rest : List ℕ)
    → IsValid m
    → unread (view m) ≡ bs ++ rest
    → cap < length bs
    → read_into cap (length bs) m ≡ none
unfolding read_into
read_into_faults m cap bs rest v e h =
    let r = (Reads-mbuf_read (length bs) bs refl).at m rest v e in
    ground (arith, r.runs, within_faults cap bs r.after h)

module _ (dbl : Doubles) (libc : Libc) (old : OmlValue dbl.Double) where
  tag_then_faults :
      (m : MBuffer) (tag : ℕ) (rest : List ℕ)
      → IsValid m
      → unread (view m) ≡ tag ∷ rest
      → ((m' : MBuffer) → IsValid m' → unread (view m') ≡ rest → body dbl libc old tag m' ≡ none)
      → unmarshal_value dbl libc old m ≡ none
  unfolding unmarshal_value
  tag_then_faults m tag rest v e faults = ground (
    arith,
    length-left 1 (tag ∷ []) refl m rest v e,
    byte_then_faults (tagged dbl libc old) m tag rest v e faults,
  )

  text_faults :
      (make : List ℕ → OmlValue dbl.Double) (m : MBuffer) (bs rest : List ℕ)
      → IsValid m
      → unread (view m) ≡ length bs ∷ (bs ++ rest)
      → string_t_max_size < length bs
      → text dbl libc old make m ≡ none
  unfolding text
  text_faults make m bs rest v e h =
      byte_then_faults (text_tail dbl libc old make) m (length bs) (bs ++ rest) v e
        (λ m' v' e'. ground (arith, read_into_faults m' string_t_max_size bs rest v' e' h))

  -- Where a valid buffer has next to be read a string or a date whose length byte is above 254,
  -- with as many bytes behind it, unmarshal_value() writes outside its buffer on the stack.
  pub long_text_faults :
      (m : MBuffer) (tag : ℕ) (bs rest : List ℕ)
      → IsValid m
      → (tag ≡ string_t) ⊎ (tag ≡ datetime_t)
      → unread (view m) ≡ tag ∷ length bs ∷ (bs ++ rest)
      → string_t_max_size < length bs
      → unmarshal_value dbl libc old m ≡ none
  unfolding body
  long_text_faults m tag bs rest v (inl t) e h =
      tag_then_faults m tag _ v e
        (λ m' v' e'. rw t (text_faults (λ b. string (some b)) m' bs rest v' e' h))
  long_text_faults m tag bs rest v (inr t) e h =
      tag_then_faults m tag _ v e
        (λ m' v' e'. rw t (text_faults (λ b. datetime (some b)) m' bs rest v' e' h))

  vector_faults :
      (m : MBuffer) (tag n : ℕ) (rest : List ℕ)
      → IsValid m
      → unread (view m) ≡ tag ∷ (be 2 n ++ rest)
      → double64_t < tag
      → vector_value dbl libc old m ≡ none
  unfolding vector_value vector_elements
  vector_faults m tag n rest v e h =
      byte_then_faults (vector_tail dbl libc old) m tag _ v e (λ m' v' e'.
        ground (arith, ((Reads-mbuf_read 2 (be 2 n) (length-be 2 n)).at m' rest v' e').runs))

  -- Where a valid buffer has next to be read a vector whose element type is above DOUBLE64_T,
  -- unmarshal_value() reads outside vector_type_map.
  pub unknown_vector_faults :
      (m : MBuffer) (tag n : ℕ) (rest : List ℕ)
      → IsValid m
      → unread (view m) ≡ vector_t ∷ tag ∷ (be 2 n ++ rest)
      → double64_t < tag
      → unmarshal_value dbl libc old m ≡ none
  unfolding body
  unknown_vector_faults m tag n rest v e h =
      tag_then_faults m vector_t _ v e (λ m' v' e'. vector_faults m' tag n rest v' e' h)
