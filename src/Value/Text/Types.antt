-- ===== src/Value/Text/Types.antt =====
-- The types of the values that oml_value_set_type() and oml_value_from_s(), of
-- soml/lib/shared/oml_value.c, leave.
use semantic_oml.Value.Names.{same_type_eq, same_type}
use semantic_oml.Base.{
  ◌^◌, ◌%◌, take, ℕ, ◌≡◌, List, [], Option, none, some, Bool, refl, Bool-cases, inl, inr,
}
use semantic_oml.Mem.{Libc, oml_calloc}
use semantic_oml.Mbuf.{Status}
use semantic_oml.Base64.{base64_validate_string, base64_decode_string}
use semantic_oml.Strings.{backslash_decode}
use semantic_oml.Numbers.{strtoll, strtoull, strtoull_10}
use semantic_oml.Value.{
  unknown_value, double_value, long_value, string_value, int32_value, uint32_value, int64_value,
  uint64_value, blob_value, guid_value, bool_value, datetime_value, vector_double_value,
  vector_int32_value, vector_uint32_value, vector_int64_value, vector_uint64_value,
  vector_bool_value, OmlValue, OmlValueT, Doubles, oml_value_get_type, long, int32, uint32, int64,
  uint64, guid, string, datetime, blob, vector_double, vector_int32, vector_uint32, vector_int64,
  vector_uint64,
}
use semantic_oml.Value.Text.{
  same_type, number_from, double_from, text_from, blob_from, vector_from, vector_bool_from,
  elements_from, bools_from, elements, bools, double_bits, double_count, low_bits,
  oml_value_ut_from_s, oml_value_from_s, oml_value_set_type, zero_of, Text,
}

module _ (dbl : Doubles) (libc : Libc) where
  abbrev Value : Type 0
  Value = OmlValue dbl.Double

  abbrev pub HasType : OmlValueT → Option (Status × Value) → Type 0
  HasType type none = Unit {0}
  HasType type (some (st, v)) = oml_value_get_type v ≡ type

  abbrev Number : Type 0
  Number = Option (ℕ × Bool × Text)

  module _ (type : OmlValueT) where
    number_from_lem :
        (make : ℕ → Value) (k : Number)
        → ((n : ℕ) → oml_value_get_type (make n) ≡ type)
        → HasType type (some (number_from dbl libc make k))
    unfolding number_from
    number_from_lem make none h = h 0
    number_from_lem make (some (n, range, rest)) h = h n

    text_from_lem :
        (make : Option Text → Value) (t : Option Text)
        → ((o : Option Text) → oml_value_get_type (make o) ≡ type)
        → HasType type (text_from dbl libc make t)
    unfolding text_from
    text_from_lem make none h = tt
    text_from_lem make (some s) h = h (some s)

    elements_from_lem :
        (make : List ℕ → Value) (range : Bool) (r : Option (List ℕ × Bool))
        → ((ws : List ℕ) → oml_value_get_type (make ws) ≡ type)
        → HasType type (some (elements_from dbl libc make range r))
    unfolding elements_from
    elements_from_lem make range none h = h []
    elements_from_lem make range (some (ws, ranges)) h = h ws

    vector_from_lem :
        (make : List ℕ → Value) (size : ℕ) (read : Text → Number) (k : Number)
        → ((ws : List ℕ) → oml_value_get_type (make ws) ≡ type)
        → HasType type (some (vector_from dbl libc make size read k))
    unfolding vector_from
    vector_from_lem make size read none h = h []
    vector_from_lem make size read (some (n, range, p)) h =
        elim (Bool-cases (oml_calloc libc n size)) [
          | inl e ↦ rw e (
              elements_from_lem (λ ws. make (take (n % 2 ^ 16) ws)) range (elements read n p)
                (λ ws. h (take (n % 2 ^ 16) ws)))
          | inr e ↦ rw e (h [])
        ]

  double_from_lem :
      (k : Option (dbl.Double × Bool × Text)) → HasType double_value (some (double_from dbl libc k))
  unfolding double_from oml_value_get_type
  double_from_lem none = refl
  double_from_lem (some (d, range, rest)) = refl

  blob_from_lem : (s : Text) (n : Option ℕ) → HasType blob_value (blob_from dbl libc s n)
  unfolding blob_from oml_value_get_type
  blob_from_lem s none = refl
  blob_from_lem s (some n) =
      text_from_lem blob_value blob (base64_decode_string (take n s)) (λ o. refl)

  bools_from_lem :
      (n : ℕ) (range : Bool) (r : Option (List Bool))
      → HasType vector_bool_value (some (bools_from dbl libc n range r))
  unfolding bools_from oml_value_get_type
  bools_from_lem n range none = refl
  bools_from_lem n range (some bs) = refl

  vector_bool_from_lem :
      (k : Number) → HasType vector_bool_value (some (vector_bool_from dbl libc k))
  unfolding vector_bool_from oml_value_get_type
  vector_bool_from_lem none = refl
  vector_bool_from_lem (some (n, range, p)) = elim (Bool-cases (oml_calloc libc n 1)) [
    | inl e ↦ rw e (bools_from_lem n range (bools n p))
    | inr e ↦ rw e refl
  ]

  -- oml_value_ut_from_s() leaves a value of the type that it is given, for each type and text, errors
  -- included.
  pub oml_value_ut_from_s_lem :
      (type : OmlValueT) (s : Text) → HasType type (oml_value_ut_from_s dbl libc type s)
  unfolding oml_value_ut_from_s oml_value_get_type
  oml_value_ut_from_s_lem unknown_value s = refl
  oml_value_ut_from_s_lem long_value s = number_from_lem long_value long (strtoll s) (λ n. refl)
  oml_value_ut_from_s_lem int32_value s =
      number_from_lem int32_value int32 (low_bits dbl libc (strtoll s)) (λ n. refl)
  oml_value_ut_from_s_lem uint32_value s =
      number_from_lem uint32_value uint32 (low_bits dbl libc (strtoull s)) (λ n. refl)
  oml_value_ut_from_s_lem int64_value s = number_from_lem int64_value int64 (strtoll s) (λ n. refl)
  oml_value_ut_from_s_lem uint64_value s =
      number_from_lem uint64_value uint64 (strtoull s) (λ n. refl)
  oml_value_ut_from_s_lem double_value s = double_from_lem (dbl.strtod s)
  oml_value_ut_from_s_lem string_value s =
      text_from_lem string_value string (backslash_decode s) (λ o. refl)
  oml_value_ut_from_s_lem datetime_value s =
      text_from_lem datetime_value datetime (backslash_decode s) (λ o. refl)
  oml_value_ut_from_s_lem blob_value s = blob_from_lem s (base64_validate_string s)
  oml_value_ut_from_s_lem guid_value s = number_from_lem guid_value guid (strtoull_10 s) (λ n. refl)
  oml_value_ut_from_s_lem bool_value s = refl
  oml_value_ut_from_s_lem vector_double_value s =
      vector_from_lem vector_double_value vector_double 8 (λ p. double_bits dbl libc (dbl.strtod p))
        (double_count dbl libc (dbl.strtod s)) (λ ws. refl)
  oml_value_ut_from_s_lem vector_int32_value s =
      vector_from_lem vector_int32_value vector_int32 4 (λ p. low_bits dbl libc (strtoll p))
        (strtoll s) (λ ws. refl)
  oml_value_ut_from_s_lem vector_uint32_value s =
      vector_from_lem vector_uint32_value vector_uint32 4 (λ p. low_bits dbl libc (strtoull p))
        (strtoull s) (λ ws. refl)
  oml_value_ut_from_s_lem vector_int64_value s =
      vector_from_lem vector_int64_value vector_int64 8 strtoll (strtoll s) (λ ws. refl)
  oml_value_ut_from_s_lem vector_uint64_value s =
      vector_from_lem vector_uint64_value vector_uint64 8 strtoull (strtoull s) (λ ws. refl)
  oml_value_ut_from_s_lem vector_bool_value s = vector_bool_from_lem (strtoull s)

  zero_of_lem : (type : OmlValueT) → oml_value_get_type (zero_of dbl libc type) ≡ type
  unfolding zero_of oml_value_get_type
  zero_of_lem unknown_value = refl
  zero_of_lem double_value = refl
  zero_of_lem long_value = refl
  zero_of_lem string_value = refl
  zero_of_lem int32_value = refl
  zero_of_lem uint32_value = refl
  zero_of_lem int64_value = refl
  zero_of_lem uint64_value = refl
  zero_of_lem blob_value = refl
  zero_of_lem guid_value = refl
  zero_of_lem bool_value = refl
  zero_of_lem datetime_value = refl
  zero_of_lem vector_double_value = refl
  zero_of_lem vector_int32_value = refl
  zero_of_lem vector_uint32_value = refl
  zero_of_lem vector_int64_value = refl
  zero_of_lem vector_uint64_value = refl
  zero_of_lem vector_bool_value = refl

  pub oml_value_set_type_lem :
      (v : Value) (type : OmlValueT)
      → oml_value_get_type (oml_value_set_type dbl libc v type) ≡ type
  unfolding oml_value_set_type
  oml_value_set_type_lem v type = elim (Bool-cases (same_type (oml_value_get_type v) type)) [
    | inl e ↦ rw e (same_type_eq (oml_value_get_type v) type e)
    | inr e ↦ rw e (zero_of_lem type)
  ]

  -- oml_value_from_s(), after oml_value_set_type().
  pub typed_from_lem :
      (v : Value) (type : OmlValueT) (s : Text)
      → HasType type (oml_value_from_s dbl libc (oml_value_set_type dbl libc v type) s)
  unfolding oml_value_from_s
  typed_from_lem v type s = rw (oml_value_set_type_lem v type) (oml_value_ut_from_s_lem type s)
