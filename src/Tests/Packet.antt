-- ===== src/Tests/Packet.antt =====
-- A packet of soml/lib/shared/marshal.c, from the calls that send it to those that read it.
use semantic_oml.Base.{ℕ, ◌≡◌, ◌⊎◌, List, [], ◌∷◌, ◌++◌, some, true, length, replicate, refl, arith}
use semantic_oml.Base.Bytes.{be, from_be}
use semantic_oml.Base.Int.{ℤ, pos, int8_bits, int8_of, fits_int8}
use semantic_oml.Tests.{
  test_libc, test_libc-laws, test_libc-memory, test_doubles, four_bytes, four_bytes-IsValid,
  marked_ahead, marked_ahead-IsValid, received_bytes,
}
use semantic_oml.Mem.{read_from, write_to}
use semantic_oml.Mbuf.{MBuffer, ok, fail, M, ◌>>=◌, mbuf_check_invariant}
use semantic_oml.Mbuf.View.{view, Returns, append, begin_write}
use semantic_oml.Mbuf.Storage.{mbuf_check_resize}
use semantic_oml.Mbuf.Message.{mbuf_begin_write, mbuf_begin_read}
use semantic_oml.Mbuf.Transfer.{mbuf_write, put_bytes, copy_in, mbuf_read, mbuf_read_byte}
use semantic_oml.Value.{OmlValue, int32, bool}
use semantic_oml.Marshal.{marshal_value, put, put_double, or_reset}
use semantic_oml.Marshal.Wire.{wire, wires}
use semantic_oml.Marshal.Sends.{Sends}
use semantic_oml.Marshal.Packet.{
  marshal_init, header_of, marshal_measurements, marshal_values, each_value, marshal_finalize,
  marshal_get_msgtype,
}
use semantic_oml.Marshal.Packet.Sends.{each_value-Sends, marshal_init-Returns, header_bytes}
use semantic_oml.Unmarshal.{unmarshal_value, body, fixed, double_of}
use semantic_oml.Unmarshal.Reads.{Reads}
use semantic_oml.Unmarshal.Packet.{OmlBinaryHeader, unmarshal_init, unmarshal_values, read_values}
use semantic_oml.Unmarshal.Packet.Reads.{unmarshal_values-Reads}
use semantic_oml.Marshal.Packet.Sync.{FindsSync, find_sync-FindsSync}
use semantic_oml.Marshal.Packet.{find_sync}

-- A packet of one value.
abbrev sends_packet : M (Unit {0})
sends_packet = marshal_init test_libc 1 >>= λ _.
    marshal_measurements test_libc test_doubles 3 9 5 >>= λ _.
    marshal_values test_libc test_doubles (int32 7 ∷ []) >>= λ _. marshal_finalize test_libc

abbrev empty_buffer : MBuffer
empty_buffer = record (received_bytes []) {
  base = record { size = 40; bytes = replicate 32 0 };
  length = 32;
  wr_remaining = 32;
}

abbrev packet : List ℕ
packet =
    170 ∷ 170 ∷ 1 ∷ 0 ∷ 18 ∷ 1 ∷ 3 ∷ 5 ∷ 0 ∷ 0 ∷ 0 ∷ 9 ∷ 2 ∷ 0 ∷ 0 ∷ 0 ∷ 5 ∷ 0 ∷ 5 ∷ 0 ∷ 0 ∷ 0 ∷ 7
    ∷ []

abbrev full_buffer : MBuffer
full_buffer = record empty_buffer {
  base = record { size = 40; bytes = packet ++ replicate 9 0 };
  wr_remaining = 9;
  rd_remaining = 23;
  fill = 23;
  wrptr = 23;
}

sends_packet_run : sends_packet empty_buffer ≡ some (tt, full_buffer)
unfolding marshal_init header_of marshal_measurements marshal_values each_value marshal_finalize
    marshal_get_msgtype marshal_value put put_double or_reset mbuf_begin_write mbuf_write put_bytes
    copy_in mbuf_check_resize mbuf_check_invariant read_from write_to be int8_bits fits_int8
sends_packet_run = refl

abbrev no_header : OmlBinaryHeader ℕ
no_header = record { type = 0; length = 0; values = 0; stream = 0; seqno = 0; timestamp = 0 }

abbrev packet_header : OmlBinaryHeader ℕ
packet_header = record { type = 1; length = 18; values = 1; stream = 3; seqno = 9; timestamp = 5 }

abbrev reads_packet : M (ℤ × List (OmlValue ℕ))
reads_packet = unmarshal_init test_doubles test_libc no_header >>= λ r.
    unmarshal_values test_doubles test_libc r.1 (int32 0 ∷ [])

abbrev read_buffer : MBuffer
read_buffer = record (received_bytes packet) { rdptr = 23; rd_remaining = 0 }

reads_packet_run : reads_packet (received_bytes packet) ≡ some ((pos 1, int32 7 ∷ []), read_buffer)
unfolding unmarshal_init unmarshal_values read_values unmarshal_value body fixed double_of mbuf_read
    mbuf_read_byte mbuf_begin_read mbuf_check_invariant read_from from_be int8_of
reads_packet_run = refl

-- Two values.
abbrev two_values : List (OmlValue ℕ)
two_values = bool true ∷ int32 7 ∷ []

two_length : length (wires test_doubles two_values) ≡ 6
unfolding wire be
two_length = refl

each_value-Sends_example :
    Sends
      (wires test_doubles two_values)
      marked_ahead
      (each_value test_libc test_doubles two_values)
each_value-Sends_example =
    each_value-Sends test_libc test_libc-laws test_doubles marked_ahead marked_ahead-IsValid
      two_values (tt, (tt, tt))
      (record { writing = omega arith; within = omega arith; small = omega (arith, two_length) })

marshal_init-Returns_example :
    Returns
      (marshal_init test_libc 1)
      four_bytes
      ok
      (append (header_bytes true) (begin_write (view four_bytes)))
    ⊎ Returns (marshal_init test_libc 1) four_bytes fail (begin_write (view four_bytes))
marshal_init-Returns_example =
    marshal_init-Returns test_libc test_libc-laws four_bytes four_bytes-IsValid true (omega arith)

unmarshal_values-Reads_example :
    Reads
      (wires test_doubles two_values)
      (unmarshal_values test_doubles test_libc
        (record packet_header { values = 2 })
        (int32 0 ∷ int32 0 ∷ []))
      (pos 2, two_values)
unmarshal_values-Reads_example =
    unmarshal_values-Reads test_doubles test_libc test_libc-memory
      (record packet_header { values = 2 }) two_values (int32 0 ∷ int32 0 ∷ [])
      (tt, (omega arith, tt)) (omega arith) (omega arith) refl

find_sync-FindsSync_example : FindsSync (0 ∷ 170 ∷ 170 ∷ []) 0 (find_sync (0 ∷ 170 ∷ 170 ∷ []))
find_sync-FindsSync_example = find_sync-FindsSync (0 ∷ 170 ∷ 170 ∷ [])
