-- ===== src/Marshal/Packet.antt =====
-- soml/lib/shared/marshal.c: the packet that values are sent in, on the sender's side.
pub mod Sends
pub mod Sync
use semantic_oml.Base.{
  ℕ, ◌+◌, ◌-◌, ◌%◌, ◌^◌, List, [], ◌∷◌, Option, none, some, Bool, true, false, length, get_elem?,
  ltb, leb, ◌==◌, ◌&&◌, if◌then◌else◌, min,
}
use semantic_oml.Base.Bytes.{be}
use semantic_oml.Mem.{Libc, read_from, write_to}
use semantic_oml.Mbuf.{Status, ok, fail, M, pure, ◌>>=◌, ◌>>◌, gets, sub_size}
use semantic_oml.Mbuf.Transfer.{mbuf_write}
use semantic_oml.Mbuf.Message.{mbuf_begin_write, mbuf_reset_write, mbuf_message_length}
use semantic_oml.Value.{Doubles, OmlValue, int32, double}
use semantic_oml.Marshal.{marshal_value}

abbrev pub sync_byte : ℕ
sync_byte = 0xAA

abbrev pub packet_header_size : ℕ
packet_header_size = 5

-- OmlBinMsgType, which is a byte of the packet.
abbrev pub omb_data_p : ℕ
omb_data_p = 0x1

abbrev pub omb_ldata_p : ℕ
omb_ldata_p = 0x2

-- The offset of the first of two sync bytes in the first `len` bytes that follow `before`, which
-- stands at `at`; `none` is NULL.
pub sync_after : ℕ → ℕ → List ℕ → Option ℕ
sync_after before at [] = none
sync_after before at (b ∷ bs) =
    let rest = sync_after b (at + 1) bs in
    if (b == sync_byte) && (before == sync_byte) then some at else rest

pub find_sync : List ℕ → Option ℕ
unfolding sync_after
find_sync [] = none
find_sync (b ∷ bs) = sync_after b 0 bs

-- buf[i] and buf[i] = b for the `buf` that mbuf_message() returns.
message_byte : ℕ → M ℕ
message_byte i m = elim (get_elem? m.base.bytes (m.msgptr + i)) [
  | none ↦ none
  | some b ↦ some (b, m)
]

message_write : ℕ → List ℕ → M (Unit {0})
message_write i bs m = elim (write_to m.base.bytes (m.msgptr + i) bs) [
  | none ↦ none
  | some mem ↦ some (tt, record m { base = record m.base { bytes = mem } })
]

unfoldable pub marshal_get_msgtype : M ℕ
unfolding message_byte
marshal_get_msgtype = message_byte 2

-- buf[i] += n
add_to_byte : ℕ → ℕ → M (Unit {0})
unfolding message_byte message_write
add_to_byte i n = do b ← message_byte i; message_write i (((b + n) % 256) ∷ [])

count_values : ℕ → ℕ → M (Unit {0})
unfolding add_to_byte
count_values type n =
    if type == omb_data_p
    then add_to_byte 5 n
    else if type == omb_ldata_p
    then add_to_byte 7 n
    else pure tt

-- memmove (&buf[at + 2], &buf[at], n)
move_up : ℕ → ℕ → M (Unit {0})
unfolding message_write
move_up at n m = elim (read_from m.base.bytes (m.msgptr + at) n) [
  | none ↦ none
  | some bs ↦ message_write (at + 2) bs m
]

-- The `buf` of marshal_finalize() points into the storage from before mbuf_write(). It is of no use
-- once a write that found no room has gone through, since the storage was given to realloc(3).
still_there : Bool → Status → M (Unit {0})
still_there room fail = pure tt
still_there true ok = pure tt
still_there false ok = λ _. none

write_length : ℕ → ℕ → M (Unit {0})
unfolding message_write
write_length type len =
    if type == omb_data_p
    then message_write 3 (be 2 (sub_size len packet_header_size))
    else if type == omb_ldata_p
    then message_write 3 (be 4 (sub_size len (packet_header_size + 2)))
    else pure tt

module _ (libc : Libc) where
  pub marshal_header_short : M Status
  marshal_header_short = mbuf_write libc (some (sync_byte ∷ sync_byte ∷ omb_data_p ∷ 0 ∷ 0 ∷ [])) 5

  pub marshal_header_long : M Status
  marshal_header_long =
      mbuf_write libc (some (sync_byte ∷ sync_byte ∷ omb_ldata_p ∷ 0 ∷ 0 ∷ 0 ∷ 0 ∷ [])) 7

  -- The rest of marshal_init(), after mbuf_begin_write(). Any other type writes nothing.
  unfoldable pub header_of : ℕ → Status → M Status
  unfolding marshal_header_short marshal_header_long
  header_of msgtype fail = pure fail
  header_of msgtype ok =
      if msgtype == omb_data_p
      then marshal_header_short
      else if msgtype == omb_ldata_p
      then marshal_header_long
      else pure ok

  unfoldable pub marshal_init : ℕ → M Status
  marshal_init msgtype = do s ← mbuf_begin_write; header_of msgtype s

  -- A short packet that has grown too long becomes a long one.
  lengthen : ℕ → M (Unit {0})
  unfolding still_there move_up
  lengthen len = do
    room ← gets (λ m. leb 2 m.wr_remaining)
    s ← mbuf_write libc (some (0 ∷ 0 ∷ [])) 2
    still_there room s
    move_up packet_header_size (len - packet_header_size)
    message_write 2 (omb_ldata_p ∷ [])

  finish : ℕ → ℕ → M (Unit {0})
  unfolding lengthen write_length
  finish type len =
      if (type == omb_data_p) && ltb 65535 len
      then lengthen len >> write_length omb_ldata_p (len + 2)
      else write_length type len

  unfoldable pub marshal_finalize : M (Unit {0})
  unfolding finish
  marshal_finalize = do
    type ← marshal_get_msgtype
    len ← gets mbuf_message_length
    finish type (min len (2 ^ 32 - 1))

  module _ (dbl : Doubles) where
    open dbl use {Double}

    -- Sequence number and time, whatever becomes of them.
    put_meta : ℕ → Double → Status → M Status
    put_meta seqno now fail = do _ ← mbuf_reset_write; pure fail
    put_meta seqno now ok = do
      _ ← marshal_value libc dbl (int32 seqno)
      _ ← marshal_value libc dbl (double now)
      pure ok

    -- `ok` is the 1 of marshal_measurements(), `fail` its -1.
    unfoldable pub marshal_measurements : ℕ → ℕ → Double → M Status
    unfolding put_meta
    marshal_measurements stream seqno now = do
      s ← mbuf_write libc (some (0 ∷ (stream % 256) ∷ [])) 2
      put_meta seqno now s

    -- The loop of marshal_values(), which ends at the first value that is not sent.
    pub go_on : M Bool → Bool → M Bool
    go_on next true = next
    go_on next false = pure false

    unfoldable pub each_value : List (OmlValue Double) → M Bool
    unfolding go_on
    each_value [] = pure true
    each_value (v ∷ vs) = do sent ← marshal_value libc dbl v; go_on (each_value vs) sent

    counted : ℕ → Bool → M Status
    unfolding count_values
    counted n false = pure fail
    counted n true = do type ← marshal_get_msgtype; count_values type n; pure ok

    unfoldable pub marshal_values : List (OmlValue Double) → M Status
    unfolding counted
    marshal_values values = do sent ← each_value values; counted (length values) sent
