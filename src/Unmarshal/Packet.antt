-- ===== src/Unmarshal/Packet.antt =====
-- soml/lib/shared/marshal.c: the packet that values are sent in, on the receiver's side.
pub mod Reads
use semantic_oml.Base.{
  ℕ, zero, suc, ◌+◌, ◌-◌, ◌%◌, ◌^◌, List, [], ◌∷◌, Option, none, some, Bool, true, false, length,
  ltb, ◌==◌, ◌&&◌, if◌then◌else◌,
}
use semantic_oml.Base.Int.{ℤ, pos, negsuc}
use semantic_oml.Base.Bytes.{from_be}
use semantic_oml.Mem.{Libc}
use semantic_oml.Mbuf.{Status, ok, fail, M, pure, ◌>>=◌, gets, sub_size, add_size}
use semantic_oml.Mbuf.Transfer.{mbuf_read, mbuf_read_skip}
use semantic_oml.Mbuf.Message.{mbuf_begin_read, mbuf_reset_read, mbuf_rd_remaining}
use semantic_oml.Value.{Doubles, OmlValue, oml_value_init, int32, double}
use semantic_oml.Marshal.Packet.{sync_byte, packet_header_size, omb_data_p, omb_ldata_p}
use semantic_oml.Unmarshal.{fault, Outcome, unmarshal_value}

-- A `size_t` that is returned as an `int`, and an `int` that is kept as a `size_t`.
abbrev pub int_of : ℕ → ℤ
int_of n = if ltb (n % 2 ^ 32) (2 ^ 31) then pos (n % 2 ^ 32) else negsuc (2 ^ 32 - 1 - n % 2 ^ 32)

abbrev pub size_of : ℕ → ℕ
size_of n = if ltb n (2 ^ 31) then n else n + (2 ^ 64 - 2 ^ 32)

pub record OmlBinaryHeader (Double : Type 0) : Type 0 where
  pub type : ℕ
  pub length : ℕ
  pub values : ℕ
  pub stream : ℕ
  pub seqno : ℕ
  pub timestamp : Double

module _ (dbl : Doubles) (libc : Libc) where
  open dbl use {Double}

  -- What unmarshal_init() returns, and what it leaves in the header that it is given.
  abbrev pub Answer : Type 0
  Answer = ℤ × OmlBinaryHeader Double

  -- The message is read again later; what is missing of `n` bytes is returned, as a negative number.
  too_short : ℕ → OmlBinaryHeader Double → M Answer
  too_short n header = do
    left ← gets mbuf_rd_remaining
    _ ← mbuf_reset_read
    pure (int_of (sub_size left n), header)

  -- unmarshal_typed_value(), of a value that oml_value_init() has made, for the two types that a
  -- header has.
  as_int32 : Outcome dbl → Option ℕ
  as_int32 (true, int32 w) = some w
  as_int32 (done, value) = none

  as_double : Outcome dbl → Option Double
  as_double (true, double d) = some d
  as_double (done, value) = none

  with_timestamp : OmlBinaryHeader Double → Option ℕ → Option Double → M Answer
  with_timestamp header (some w) (some d) = pure (pos 1, record header { seqno = w; timestamp = d })
  with_timestamp header seqno timestamp = pure (pos 0, header)

  with_seqno : OmlBinaryHeader Double → Option ℕ → M Answer
  unfolding with_timestamp as_double
  with_seqno header none = pure (pos 0, header)
  with_seqno header (some w) = do
    r ← unmarshal_value dbl libc (oml_value_init dbl)
    with_timestamp header (some w) (as_double r)

  stream_header : OmlBinaryHeader Double → Option (List ℕ) → M Answer
  unfolding with_seqno as_int32 too_short
  stream_header header (some (values ∷ stream ∷ [])) = do
    r ← unmarshal_value dbl libc (oml_value_init dbl)
    with_seqno (record header { values = values; stream = stream }) (as_int32 r)
  stream_header header (some bs) = fault
  stream_header header none = too_short 2 header

  -- Whether all of the packet has come.
  whole_packet : OmlBinaryHeader Double → M Answer
  unfolding stream_header too_short
  whole_packet header = do
    left ← gets mbuf_rd_remaining
    if ltb (sub_size left header.length % 2 ^ 32) (2 ^ 31)
        then mbuf_read 2 >>= stream_header header
        else too_short header.length header

  length_field : ℕ → OmlBinaryHeader Double → Option (List ℕ) → M Answer
  unfolding whole_packet too_short
  length_field n header none = too_short n header
  length_field n header (some bs) = whole_packet (record header { length = size_of (from_be 0 bs) })

  packet_type : OmlBinaryHeader Double → M Answer
  unfolding length_field
  packet_type header =
      if header.type == omb_data_p
      then mbuf_read 2 >>= length_field 2 header
      else if header.type == omb_ldata_p
      then mbuf_read 4 >>= length_field 4 header
      else pure (pos 0, header)

  sync_bytes : OmlBinaryHeader Double → Option (List ℕ) → M Answer
  unfolding packet_type
  sync_bytes header (some (a ∷ b ∷ type ∷ [])) =
      if (a == sync_byte) && (b == sync_byte)
      then packet_type (record header { type = type })
      else pure (pos 0, header)
  sync_bytes header (some bs) = fault
  sync_bytes header none = do left ← gets mbuf_rd_remaining; pure (int_of (sub_size left 3), header)

  begun : OmlBinaryHeader Double → Status → M Answer
  unfolding sync_bytes
  begun header fail = pure (pos 0, header)
  begun header ok = mbuf_read 3 >>= sync_bytes header

  unfoldable pub unmarshal_init : OmlBinaryHeader Double → M Answer
  unfolding begun
  unmarshal_init header = do s ← mbuf_begin_read; begun header s

  -- The values that are read in place of the old ones, and whether all of them are.
  abbrev pub Values : Type 0
  Values = Bool × List (OmlValue Double)

  pub put_front : OmlValue Double → Values → M Values
  put_front v r = pure (r.0, v ∷ r.1)

  pub read_on : List (OmlValue Double) → M Values → Outcome dbl → M Values
  unfolding put_front
  read_on olds next (true, v) = next >>= put_front v
  read_on olds next (false, v) = pure (false, v ∷ olds)

  -- The loop of unmarshal_values(), over an array that has room for the values.
  unfoldable pub read_values : ℕ → List (OmlValue Double) → M Values
  unfolding read_on
  read_values zero olds = pure (true, olds)
  read_values (suc n) [] = fault
  read_values (suc n) (old ∷ olds) =
      unmarshal_value dbl libc old >>= read_on olds (read_values n olds)

  pub values_read : ℕ → Values → M (ℤ × List (OmlValue Double))
  values_read count (true, values) = pure (pos count, values)
  values_read count (false, values) = pure (negsuc 100, values)

  -- The packet is skipped, with a header that is read already.
  skip_packet : OmlBinaryHeader Double → List (OmlValue Double) → M (ℤ × List (OmlValue Double))
  skip_packet header olds = do
    _ ← mbuf_read_skip (add_size header.length packet_header_size)
    _ ← mbuf_begin_read
    pure (negsuc (header.values - length olds - 1), olds)

  unfoldable pub unmarshal_values :
      OmlBinaryHeader Double → List (OmlValue Double) → M (ℤ × List (OmlValue Double))
  unfolding read_values values_read skip_packet
  unmarshal_values header olds =
      if header.values == 0
      then pure (negsuc 101, olds)
      else if ltb (length olds) header.values
      then skip_packet header olds
      else (read_values header.values olds >>= values_read header.values)
