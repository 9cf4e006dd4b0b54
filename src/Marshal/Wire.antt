-- ===== src/Marshal/Wire.antt =====
-- The bytes of a value on the wire, as soml/lib/shared/marshal.c writes them: a type, then the value in
-- network order, with a length in front of what has one. The comment at the head of that file lays the
-- same out, but for a blob, whose length it shows as one byte where the code has four.
use semantic_oml.Base.{
  not, ◌||◌, ℕ, List, [], ◌∷◌, ◌++◌, Option, none, some, length, map, take, if◌then◌else◌,
}
use semantic_oml.Base.Int.{int8_bits, fits_int8}
use semantic_oml.Base.Bytes.{be, pack}
use semantic_oml.Value.{
  Doubles, OmlValue, unknown, double, long, int32, uint32, int64, uint64, guid, string, datetime,
  blob, bool, vector_double, vector_int32, vector_uint32, vector_int64, vector_uint64, vector_bool,
  oml_value_clamp_long,
}
use semantic_oml.Marshal.{
  bool_t, double64_t, bool_false_t, bool_true_t, guid_t, blob_t, datetime_t, string_t, uint64_t,
  int64_t, double_t, uint32_t, double_nan, int32_t, vector_t, long_t, string_t_max_size,
}

abbrev pub no_bytes : Option (List ℕ) → List ℕ
no_bytes none = []
no_bytes (some bs) = bs

abbrev pub text_bytes : List ℕ → List ℕ
text_bytes s = length (take string_t_max_size s) ∷ take string_t_max_size s

abbrev pub vector_bytes : ℕ → ℕ → List ℕ → List ℕ
vector_bytes tag n elts = vector_t ∷ tag ∷ (be 2 n ++ elts)

-- A value of a known type that is no NULL blob.
abbrev pub IsSendable : {Double : Type 0} → OmlValue Double → Type 0
IsSendable unknown = ⊥
IsSendable (blob none) = ⊥
IsSendable value = Unit {0}

module _ (dbl : Doubles) where
  open dbl use {Double, is_nan, frexp, to_fixed}

  -- A mantissa of 30 bits behind the point and an exponent of 8 bits, or the mark of no number.
  abbrev pub double_bytes : Double → List ℕ
  double_bytes v =
      if is_nan v || not (fits_int8 (frexp v).1)
      then double_nan ∷ 0 ∷ 0 ∷ 0 ∷ 0 ∷ 0 ∷ []
      else double_t ∷ (be 4 (to_fixed (frexp v).0) ++ (int8_bits (frexp v).1 ∷ []))

  unfoldable pub wire : OmlValue Double → List ℕ
  wire unknown = []
  wire (long w) = long_t ∷ be 4 (oml_value_clamp_long w)
  wire (int32 w) = int32_t ∷ be 4 w
  wire (uint32 w) = uint32_t ∷ be 4 w
  wire (int64 w) = int64_t ∷ be 8 w
  wire (uint64 w) = uint64_t ∷ be 8 w
  wire (double v) = double_bytes v
  wire (string s) = string_t ∷ text_bytes (no_bytes s)
  wire (datetime s) = datetime_t ∷ text_bytes (no_bytes s)
  wire (blob b) = blob_t ∷ (be 4 (length (no_bytes b)) ++ no_bytes b)
  wire (guid w) = guid_t ∷ be 8 w
  wire (bool b) = (if b then bool_true_t else bool_false_t) ∷ []
  wire (vector_int32 ws) = vector_bytes int32_t (length ws) (pack 4 ws)
  wire (vector_uint32 ws) = vector_bytes uint32_t (length ws) (pack 4 ws)
  wire (vector_int64 ws) = vector_bytes int64_t (length ws) (pack 8 ws)
  wire (vector_uint64 ws) = vector_bytes uint64_t (length ws) (pack 8 ws)
  wire (vector_double ws) = vector_bytes double64_t (length ws) (pack 8 ws)
  wire (vector_bool bs) =
      vector_bytes bool_t (length bs) (map (λ b. if b then bool_true_t else bool_false_t) bs)

  -- One value behind the other.
  abbrev pub wires : List (OmlValue Double) → List ℕ
  wires [] = []
  wires (v ∷ vs) = wire v ++ wires vs
