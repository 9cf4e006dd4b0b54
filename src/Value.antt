-- ===== src/Value.antt =====
-- OmlValue (soml/lib/client/oml2/omlc.h): one typed value of a measurement, and the clamp of
-- soml/lib/shared/oml_value.h. An integer is its bit pattern, and so is a double in a vector.
pub mod Names
pub mod Text
use semantic_oml.Base.{ℕ, ◌-◌, ◌%◌, ◌^◌, List, Option, Bool, ltb, if◌then◌else◌}
use semantic_oml.Base.Int.{ℤ}

-- The type double, and what the C library and the compiler's conversions do with it.
pub record Doubles : Type 1 where
  pub Double : Type 0
  pub nan : Double
  -- all bits zero
  pub zero : Double
  pub is_nan : Double → Bool
  -- frexp(3): the mantissa and the exponent
  pub frexp : Double → Double × ℤ
  pub ldexp : Double → ℤ → Double
  -- (int32_t)(mant * (1 << BIG_L)), as its 32 bits, and hmant * 1.0 / (1 << BIG_L)
  pub to_fixed : Double → ℕ
  pub of_fixed : ℕ → Double
  -- strtod(3): the number, whether errno is ERANGE, and the text behind it
  pub strtod : List ℕ → Option (Double × Bool × List ℕ)
  -- the bits of a double, and (size_t) of it
  pub bits : Double → ℕ
  pub to_size : Double → ℕ
  -- the %f of a double, and the %.*g of its bits, with DBL_DIG digits
  pub print_f : Double → List ℕ
  pub print_g : ℕ → List ℕ
  -- ts += time_offset
  pub add_time : Double → ℤ → Double

-- enum OmlValueT, the concrete types
pub data OmlValueT : Type 0 where
  unknown_value double_value long_value string_value int32_value uint32_value : OmlValueT
  int64_value uint64_value blob_value guid_value bool_value datetime_value : OmlValueT
  vector_double_value vector_int32_value vector_uint32_value vector_int64_value : OmlValueT
  vector_uint64_value vector_bool_value : OmlValueT

-- The union of OML_UNKNOWN_VALUE is `unknown`. A NULL pointer is `none`. The length of a vector is its `nof_elts`.
pub data OmlValue (Double : Type 0) : Type 0 where
  unknown : OmlValue Double
  double : Double → OmlValue Double
  long int32 uint32 int64 uint64 guid : ℕ → OmlValue Double
  string datetime blob : Option (List ℕ) → OmlValue Double
  bool : Bool → OmlValue Double
  vector_double vector_int32 vector_uint32 vector_int64 vector_uint64 : List ℕ → OmlValue Double
  vector_bool : List Bool → OmlValue Double

module _ {Double : Type 0} where
  unfoldable pub oml_value_get_type : OmlValue Double → OmlValueT
  oml_value_get_type unknown = unknown_value
  oml_value_get_type (double d) = double_value
  oml_value_get_type (long n) = long_value
  oml_value_get_type (int32 n) = int32_value
  oml_value_get_type (uint32 n) = uint32_value
  oml_value_get_type (int64 n) = int64_value
  oml_value_get_type (uint64 n) = uint64_value
  oml_value_get_type (guid n) = guid_value
  oml_value_get_type (string s) = string_value
  oml_value_get_type (datetime s) = datetime_value
  oml_value_get_type (blob b) = blob_value
  oml_value_get_type (bool b) = bool_value
  oml_value_get_type (vector_double ws) = vector_double_value
  oml_value_get_type (vector_int32 ws) = vector_int32_value
  oml_value_get_type (vector_uint32 ws) = vector_uint32_value
  oml_value_get_type (vector_int64 ws) = vector_int64_value
  oml_value_get_type (vector_uint64 ws) = vector_uint64_value
  oml_value_get_type (vector_bool bs) = vector_bool_value

-- memset() to zero leaves the type OML_DOUBLE_VALUE.
abbrev pub oml_value_init : (dbl : Doubles) → OmlValue dbl.Double
oml_value_init dbl = double dbl.zero

-- The 64 bits of a long to the 32 bits of an int32_t: INT_MAX above, INT_MIN below.
unfoldable pub oml_value_clamp_long : ℕ → ℕ
oml_value_clamp_long w =
    if ltb w (2 ^ 63)
    then (if ltb (2 ^ 31 - 1) w then 2 ^ 31 - 1 else w)
    else if ltb w (2 ^ 64 - 2 ^ 31)
    then 2 ^ 31
    else w % 2 ^ 32
