-- ===== src/Unmarshal/RoundTrip.antt =====
-- unmarshal_value() of soml/lib/shared/marshal.c reads back what marshal_value() puts on the wire.
pub mod Parts
pub mod Value
pub mod Sent
use semantic_oml.Base.{
  leb, ℕ, ◌≤◌, ◌<◌, ◌^◌, ◌≡◌, List, [], ◌∷◌, some, true, All, length, take, refl, arith,
  if◌then◌else◌, ◌||◌, not,
}
use semantic_oml.Base.Int.{fits_int8}
use semantic_oml.Mem.{Libc}
use semantic_oml.Mbuf.Transfer.{mbuf_read, mbuf_read_byte}
use semantic_oml.Value.{
  Doubles, OmlValue, unknown, double, long, int32, uint32, int64, uint64, guid, string, datetime,
  blob, bool, vector_double, vector_int32, vector_uint32, vector_int64, vector_uint64, vector_bool,
  oml_value_clamp_long,
}
use semantic_oml.Marshal.{string_t_max_size}
use semantic_oml.Marshal.Wire.{no_bytes}
use semantic_oml.Unmarshal.{read_into, fixed, text}
use semantic_oml.Unmarshal.Reads.{
  Reads, Reads-pure, Reads-bind, Reads-bind_last, Reads-mbuf_read, Reads-mbuf_read_byte,
  Reads-if_true,
}

-- What a receiver is told by a sender's value: a long as an int32_t, a double with the precision of
-- the wire, a text cut to its first 254 bytes, no text or blob as an empty one.
module _ (dbl : Doubles) where
  open dbl use {Double, nan, is_nan, frexp, ldexp, to_fixed, of_fixed}

  abbrev pub received : OmlValue Double → OmlValue Double
  received (long w) = int32 (oml_value_clamp_long w)
  received (double v) =
      if is_nan v || not (fits_int8 (frexp v).1)
      then double nan
      else double (ldexp (of_fixed (to_fixed (frexp v).0)) (frexp v).1)
  received (string s) = string (some (take string_t_max_size (no_bytes s)))
  received (datetime s) = datetime (some (take string_t_max_size (no_bytes s)))
  received (blob b) = blob (some (no_bytes b))
  received value = value

  -- The bit patterns have the width of their type, and a length fits its field.
  abbrev pub Fits : OmlValue Double → Type 0
  Fits unknown = ⊥
  Fits (long w) = w < 2 ^ 64
  Fits (int32 w) = w < 2 ^ 32
  Fits (uint32 w) = w < 2 ^ 32
  Fits (int64 w) = w < 2 ^ 64
  Fits (uint64 w) = w < 2 ^ 64
  Fits (guid w) = w < 2 ^ 64
  Fits (double v) = to_fixed (frexp v).0 < 2 ^ 32
  Fits (blob b) = length (no_bytes b) < 2 ^ 32
  Fits (vector_int32 ws) = (length ws < 2 ^ 16) × All (λ w. w < 256 ^ 4) ws
  Fits (vector_uint32 ws) = (length ws < 2 ^ 16) × All (λ w. w < 256 ^ 4) ws
  Fits (vector_int64 ws) = (length ws < 2 ^ 16) × All (λ w. w < 256 ^ 8) ws
  Fits (vector_uint64 ws) = (length ws < 2 ^ 16) × All (λ w. w < 256 ^ 8) ws
  Fits (vector_double ws) = (length ws < 2 ^ 16) × All (λ w. w < 256 ^ 8) ws
  Fits (vector_bool bs) = length bs < 2 ^ 16
  Fits (string s) = Unit {0}
  Fits (datetime s) = Unit {0}
  Fits (bool b) = Unit {0}
