-- ===== src/Value/Text.antt =====
-- soml/lib/shared/oml_value.c and guid.c: setting the type of a value, resetting it, and reading it
-- from a text. A string is its bytes before the final zero.
pub mod Cases
pub mod Types
use semantic_oml.Base.{
  ℕ, zero, suc, ◌%◌, ◌^◌, ◌+◌, List, [], ◌∷◌, Option, none, some, Bool, true, false, not, ◌&&◌,
  ◌||◌, ◌==◌, leb, take, if◌then◌else◌,
}
use semantic_oml.Base.Text.{codes}
use semantic_oml.Mem.{Libc, oml_calloc}
use semantic_oml.Mbuf.{Status, ok, fail}
use semantic_oml.Base64.{base64_validate_string, base64_decode_string}
use semantic_oml.Strings.{backslash_decode}
use semantic_oml.Numbers.{strtoll, strtoull, strtoull_10}
use semantic_oml.Value.{
  unknown_value, double_value, long_value, string_value, int32_value, uint32_value, int64_value,
  uint64_value, blob_value, guid_value, bool_value, datetime_value, vector_double_value,
  vector_int32_value, vector_uint32_value, vector_int64_value, vector_uint64_value,
  vector_bool_value, OmlValue, OmlValueT, Doubles, oml_value_get_type, oml_value_init, unknown,
  double, long, int32, uint32, int64, uint64, guid, string, datetime, blob, bool, vector_double,
  vector_int32, vector_uint32, vector_int64, vector_uint64, vector_bool,
}
use semantic_oml.Value.Names.{same_type}

abbrev pub Text : Type 0
Text = List ℕ

abbrev Number : Type 0
Number = Option (ℕ × Bool × Text)

lower : ℕ → ℕ
lower c = if leb b'A' c && leb c b'Z' then c + 32 else c

-- strncasecmp (v, word, strlen (v)) == 0: `v` begins the word, whatever its case.
begins : Text → Text → Bool
unfolding lower
begins [] word = true
begins (c ∷ v) [] = false
begins (c ∷ v) (d ∷ word) = (lower c == d) && begins v word

unfoldable pub oml_value_string_to_bool : Text → Bool
unfolding begins
oml_value_string_to_bool s = not (begins s (codes "false"))

-- The elements of a vector, and whether one of them is out of range; `none` for a bad one.
one_element : ℕ → Bool → Option (List ℕ × Bool) → Option (List ℕ × Bool)
one_element w range none = none
one_element w range (some (ws, ranges)) = some (w ∷ ws, range || ranges)

pub elements : (Text → Number) → ℕ → Text → Option (List ℕ × Bool)
unfolding one_element
elements read zero p = some ([], false)
elements read (suc n) p = elim (read p) [
  | none ↦ none
  | some (w, range, q) ↦ one_element w range (elements read n q)
]

-- strtok_r (p, " ", &n): a word, and the text behind its space.
word_on : Text → Text × Text
word_on [] = ([], [])
word_on (c ∷ s) = let (v, rest) = word_on s in if c == b' ' then ([], s) else (c ∷ v, rest)

strtok : Text → Option (Text × Text)
unfolding word_on
strtok [] = none
strtok (c ∷ s) = let rest = strtok s in if c == b' ' then rest else some (word_on (c ∷ s))

one_bool : Bool → Option (List Bool) → Option (List Bool)
one_bool b none = none
one_bool b (some bs) = some (b ∷ bs)

pub bools : ℕ → Text → Option (List Bool)
unfolding strtok one_bool
bools zero p = some []
bools (suc n) p = elim (strtok p) [
  | none ↦ none
  | some (v, q) ↦ one_bool (oml_value_string_to_bool v) (bools n q)
]

-- -1 for a number out of range
in_range : Bool → Status
in_range true = fail
in_range false = ok

module _ (dbl : Doubles) (libc : Libc) where
  abbrev Value : Type 0
  Value = OmlValue dbl.Double

  -- A text without a number is 0.
  pub number_from : (ℕ → Value) → Number → Status × Value
  unfolding in_range
  number_from make none = (ok, make 0)
  number_from make (some (n, range, rest)) = (in_range range, make n)

  pub double_from : Option (dbl.Double × Bool × Text) → Status × Value
  unfolding in_range
  double_from none = (ok, double dbl.nan)
  double_from (some (d, range, rest)) = (in_range range, double d)

  pub text_from : (Option Text → Value) → Option Text → Option (Status × Value)
  text_from make none = none
  text_from make (some s) = some (ok, make (some s))

  -- A text that is no base64 leaves a blob that is NULL. What could not be decoded would be memory that
  -- is not set.
  pub blob_from : Text → Option ℕ → Option (Status × Value)
  blob_from s none = some (ok, blob none)
  blob_from s (some n) = text_from blob (base64_decode_string (take n s))

  pub elements_from : (List ℕ → Value) → Bool → Option (List ℕ × Bool) → Status × Value
  unfolding in_range
  elements_from make range none = (fail, make [])
  elements_from make range (some (ws, ranges)) = (in_range (range || ranges), make ws)

  -- The number of elements, and each of them. A vector of none is what a reset leaves. OmlVector
  -- counts the elements in 16 bits.
  pub vector_from : (List ℕ → Value) → ℕ → (Text → Number) → Number → Status × Value
  unfolding elements_from
  vector_from make size read none = (fail, make [])
  vector_from make size read (some (n, range, p)) =
      let found = elements_from (λ ws. make (take (n % 2 ^ 16) ws)) range (elements read n p) in
      if oml_calloc libc n size then found else (fail, make [])

  pub bools_from : ℕ → Bool → Option (List Bool) → Status × Value
  unfolding in_range
  bools_from n range none = (fail, vector_bool [])
  bools_from n range (some bs) = (in_range range, vector_bool (take (n % 2 ^ 16) bs))

  pub vector_bool_from : Number → Status × Value
  unfolding bools_from
  vector_bool_from none = (fail, vector_bool [])
  vector_bool_from (some (n, range, p)) =
      let found = bools_from n range (bools n p) in
      if oml_calloc libc n 1 then found else (fail, vector_bool [])

  pub double_bits : Option (dbl.Double × Bool × Text) → Number
  double_bits none = none
  double_bits (some (d, range, p)) = some (dbl.bits d, range, p)

  pub double_count : Option (dbl.Double × Bool × Text) → Number
  double_count none = none
  double_count (some (d, range, p)) = some (dbl.to_size d, range, p)

  -- The low 32 bits of each number
  unfoldable pub low_bits : Number → Number
  low_bits none = none
  low_bits (some (n, range, p)) = some (n % 2 ^ 32, range, p)

  -- Into a value of the type that has been reset. `none` is an access outside the memory.
  unfoldable pub oml_value_ut_from_s : OmlValueT → Text → Option (Status × Value)
  unfolding number_from double_from text_from blob_from vector_from vector_bool_from double_bits
      double_count low_bits strtoll strtoull strtoull_10 oml_value_string_to_bool backslash_decode
  oml_value_ut_from_s unknown_value s = some (fail, unknown)
  oml_value_ut_from_s long_value s = some (number_from long (strtoll s))
  oml_value_ut_from_s int32_value s = some (number_from int32 (low_bits (strtoll s)))
  oml_value_ut_from_s uint32_value s = some (number_from uint32 (low_bits (strtoull s)))
  oml_value_ut_from_s int64_value s = some (number_from int64 (strtoll s))
  oml_value_ut_from_s uint64_value s = some (number_from uint64 (strtoull s))
  oml_value_ut_from_s double_value s = some (double_from (dbl.strtod s))
  oml_value_ut_from_s string_value s = text_from string (backslash_decode s)
  oml_value_ut_from_s datetime_value s = text_from datetime (backslash_decode s)
  oml_value_ut_from_s blob_value s = blob_from s (base64_validate_string s)
  oml_value_ut_from_s guid_value s = some (number_from guid (strtoull_10 s))
  oml_value_ut_from_s bool_value s = some (ok, bool (oml_value_string_to_bool s))
  oml_value_ut_from_s vector_double_value s =
      some (
        vector_from vector_double 8 (λ p. double_bits (dbl.strtod p)) (double_count (dbl.strtod s)))
  oml_value_ut_from_s vector_int32_value s =
      some (vector_from vector_int32 4 (λ p. low_bits (strtoll p)) (strtoll s))
  oml_value_ut_from_s vector_uint32_value s =
      some (vector_from vector_uint32 4 (λ p. low_bits (strtoull p)) (strtoull s))
  oml_value_ut_from_s vector_int64_value s = some (vector_from vector_int64 8 strtoll (strtoll s))
  oml_value_ut_from_s vector_uint64_value s =
      some (vector_from vector_uint64 8 strtoull (strtoull s))
  oml_value_ut_from_s vector_bool_value s = some (vector_bool_from (strtoull s))

  unfoldable pub oml_value_from_s : Value → Text → Option (Status × Value)
  unfolding oml_value_get_type
  oml_value_from_s v s = oml_value_ut_from_s (oml_value_get_type v) s

  pub oml_value_reset : Value → Value
  oml_value_reset v = oml_value_init dbl

  -- A value of zero bits
  pub zero_of : OmlValueT → Value
  zero_of unknown_value = unknown
  zero_of double_value = double dbl.zero
  zero_of long_value = long 0
  zero_of string_value = string none
  zero_of int32_value = int32 0
  zero_of uint32_value = uint32 0
  zero_of int64_value = int64 0
  zero_of uint64_value = uint64 0
  zero_of blob_value = blob none
  zero_of guid_value = guid 0
  zero_of bool_value = bool false
  zero_of datetime_value = datetime none
  zero_of vector_double_value = vector_double []
  zero_of vector_int32_value = vector_int32 []
  zero_of vector_uint32_value = vector_uint32 []
  zero_of vector_int64_value = vector_int64 []
  zero_of vector_uint64_value = vector_uint64 []
  zero_of vector_bool_value = vector_bool []

  unfoldable pub oml_value_set_type : Value → OmlValueT → Value
  unfolding zero_of oml_value_get_type
  oml_value_set_type v type = if same_type (oml_value_get_type v) type then v else zero_of type
