-- ===== src/Marshal.antt =====
-- soml/lib/shared/marshal.c: the sender's half of the binary protocol, one value at a time.
pub mod Wire
pub mod Sends
pub mod Packet
use semantic_oml.Base.{
  ℕ, ◌+◌, ◌%◌, ◌^◌, List, [], ◌∷◌, ◌++◌, Option, none, some, Bool, true, false, length, map, min,
  not, if◌then◌else◌,
}
use semantic_oml.Base.Int.{int8_bits, fits_int8}
use semantic_oml.Base.Bytes.{be, pack}
use semantic_oml.Mem.{Libc}
use semantic_oml.Mbuf.{Status, ok, fail, M, pure, ◌>>=◌}
use semantic_oml.Mbuf.Transfer.{mbuf_write}
use semantic_oml.Mbuf.Message.{mbuf_reset_write}
use semantic_oml.Value.{
  vector_double_value, vector_int32_value, vector_uint32_value, vector_int64_value,
  vector_uint64_value, vector_bool_value, OmlValueT, Doubles, OmlValue, unknown, double, long,
  int32, uint32, int64, uint64, guid, string, datetime, blob, bool, vector_double, vector_int32,
  vector_uint32, vector_int64, vector_uint64, vector_bool, oml_value_clamp_long,
}

-- The types on the wire.
abbrev pub long_t : ℕ
long_t = 0x1

abbrev pub double_t : ℕ
double_t = 0x2

abbrev pub double_nan : ℕ
double_nan = 0x3

abbrev pub string_t : ℕ
string_t = 0x4

abbrev pub int32_t : ℕ
int32_t = 0x5

abbrev pub uint32_t : ℕ
uint32_t = 0x6

abbrev pub int64_t : ℕ
int64_t = 0x7

abbrev pub uint64_t : ℕ
uint64_t = 0x8

abbrev pub blob_t : ℕ
blob_t = 0x9

abbrev pub guid_t : ℕ
guid_t = 0xA

abbrev pub bool_false_t : ℕ
bool_false_t = 0xB

abbrev pub bool_true_t : ℕ
bool_true_t = 0xC

abbrev pub vector_t : ℕ
vector_t = 0xD

abbrev pub bool_t : ℕ
bool_t = 0xE

abbrev pub double64_t : ℕ
double64_t = 0xF

abbrev pub datetime_t : ℕ
datetime_t = 0x10

-- STRING_T_MAX_SIZE and DATETIME_T_MAX_SIZE
abbrev pub string_t_max_size : ℕ
string_t_max_size = 254

-- The type of a vector's elements; the table has no other entry.
abbrev pub vector_protocol_map : OmlValueT → ℕ
vector_protocol_map vector_double_value = double64_t
vector_protocol_map vector_int32_value = int32_t
vector_protocol_map vector_uint32_value = uint32_t
vector_protocol_map vector_int64_value = int64_t
vector_protocol_map vector_uint64_value = uint64_t
vector_protocol_map vector_bool_value = bool_t
vector_protocol_map other = 0

-- `true` is the 1 of marshal_value(), `false` its 0. A failed write drops the message.
unfoldable pub or_reset : Status → M Bool → M Bool
or_reset ok next = next
or_reset fail next = do _ ← mbuf_reset_write; pure false

pub bool_tag : Bool → ℕ
bool_tag true = bool_true_t
bool_tag false = bool_false_t

-- strlen (str), of the empty string for NULL
pub text_of : Option (List ℕ) → List ℕ
text_of none = []
text_of (some s) = s

module _ (libc : Libc) where
  -- One write, or two, and the 1 that marshal_value() ends with.
  unfoldable pub put : List ℕ → M Bool
  put buf = do s ← mbuf_write libc (some buf) (length buf); or_reset s (pure true)

  pub put_both : List ℕ → Option (List ℕ) → ℕ → M Bool
  put_both header buf len = do
    s ← mbuf_write libc (some header) (length header)
    or_reset s (do s' ← mbuf_write libc buf len; or_reset s' (pure true))

  pub put_text : ℕ → List ℕ → M Bool
  put_text tag str =
      let len = min (length str) string_t_max_size in
      put_both (tag ∷ (len % 256) ∷ []) (some str) len

  pub put_blob : Option (List ℕ) → M Bool
  put_blob none = put_both (blob_t ∷ be 4 0) none 0
  put_blob (some bs) = put_both (blob_t ∷ be 4 (length bs)) (some bs) (length bs)

  pub put_vector : ℕ → ℕ → List ℕ → M Bool
  put_vector tag n elts = put_both (vector_t ∷ tag ∷ be 2 n) (some elts) (length elts)

  module _ (dbl : Doubles) where
    open dbl use {Double, is_nan, frexp, to_fixed}

    unfoldable pub put_double : Double → M Bool
    put_double v =
        let (mant, exp) = frexp v in
        if is_nan v
        then put (double_nan ∷ 0 ∷ 0 ∷ 0 ∷ 0 ∷ 0 ∷ [])
        else if not (fits_int8 exp)
        then put (double_nan ∷ 0 ∷ 0 ∷ 0 ∷ 0 ∷ 0 ∷ [])
        else put (double_t ∷ (be 4 (to_fixed mant) ++ (int8_bits exp ∷ [])))

    unfoldable pub marshal_value : OmlValue Double → M Bool
    unfolding text_of bool_tag
    marshal_value unknown = pure false
    marshal_value (long w) = put (long_t ∷ be 4 (oml_value_clamp_long w))
    marshal_value (int32 w) = put (int32_t ∷ be 4 w)
    marshal_value (uint32 w) = put (uint32_t ∷ be 4 w)
    marshal_value (int64 w) = put (int64_t ∷ be 8 w)
    marshal_value (uint64 w) = put (uint64_t ∷ be 8 w)
    marshal_value (double v) = put_double v
    marshal_value (string s) = put_text string_t (text_of s)
    marshal_value (datetime s) = put_text datetime_t (text_of s)
    marshal_value (blob b) = put_blob b
    marshal_value (guid w) = put (guid_t ∷ be 8 w)
    marshal_value (bool b) = put (bool_tag b ∷ [])
    marshal_value (vector_int32 ws) =
        put_vector (vector_protocol_map vector_int32_value) (length ws) (pack 4 ws)
    marshal_value (vector_uint32 ws) =
        put_vector (vector_protocol_map vector_uint32_value) (length ws) (pack 4 ws)
    marshal_value (vector_int64 ws) =
        put_vector (vector_protocol_map vector_int64_value) (length ws) (pack 8 ws)
    marshal_value (vector_uint64 ws) =
        put_vector (vector_protocol_map vector_uint64_value) (length ws) (pack 8 ws)
    marshal_value (vector_double ws) =
        put_vector (vector_protocol_map vector_double_value) (length ws) (pack 8 ws)
    marshal_value (vector_bool bs) =
        put_vector (vector_protocol_map vector_bool_value) (length bs) (map bool_tag bs)
