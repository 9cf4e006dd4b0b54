-- ===== src/Tests/Marshal.antt =====
-- marshal_value() and unmarshal_value() of soml/lib/shared/marshal.c on small buffers.
use semantic_oml.Base.{ℕ, ◌≡◌, List, [], ◌∷◌, none, some, true, false, replicate, refl, arith, inl}
use semantic_oml.Base.Bytes.{be}
use semantic_oml.Tests.{
  test_libc, test_libc-laws, test_libc-memory, test_doubles, marked_ahead, marked_ahead-IsValid,
  received_bytes, received_bytes-IsValid,
}
use semantic_oml.Mem.{read_from, write_to}
use semantic_oml.Mbuf.{MBuffer, mbuf_check_invariant}
use semantic_oml.Mbuf.View.{view, Returns, reset_write, skip}
use semantic_oml.Mbuf.Storage.{mbuf_check_resize}
use semantic_oml.Mbuf.Transfer.{mbuf_write, put_bytes, copy_in}
use semantic_oml.Value.{OmlValue, int32, blob}
use semantic_oml.Marshal.{marshal_value, put, or_reset}
use semantic_oml.Marshal.Wire.{wire}
use semantic_oml.Marshal.Sends.{Writable, Sends}
use semantic_oml.Marshal.Sends.Value.{marshal_value-Sends, null_blob_drops}
use semantic_oml.Unmarshal.{unmarshal_value}
use semantic_oml.Unmarshal.RoundTrip.Sent.{marshal-unmarshal}
use semantic_oml.Unmarshal.Faults.{long_text_faults, unknown_vector_faults}

abbrev seven : OmlValue ℕ
seven = int32 7

-- The buffer after marshal_value() of seven.
abbrev with_seven : MBuffer
with_seven = record marked_ahead {
  base = record { size = 24; bytes = 65 ∷ 66 ∷ 67 ∷ 68 ∷ 5 ∷ 0 ∷ 0 ∷ 0 ∷ 7 ∷ replicate 7 0 };
  wr_remaining = 7;
  rd_remaining = 8;
  fill = 9;
  wrptr = 9;
}

puts_seven : marshal_value test_libc test_doubles seven marked_ahead ≡ some (true, with_seven)
unfolding marshal_value put or_reset mbuf_write put_bytes copy_in mbuf_check_resize
    mbuf_check_invariant read_from write_to be
puts_seven = refl

seven-Writable : Writable 5 (view marked_ahead)
seven-Writable = record { writing = omega arith; within = omega arith; small = omega arith }

marshal_value-Sends_example :
    Sends (5 ∷ 0 ∷ 0 ∷ 0 ∷ 7 ∷ []) marked_ahead (marshal_value test_libc test_doubles seven)
unfolding wire be
marshal_value-Sends_example =
    marshal_value-Sends test_libc test_libc-laws test_doubles marked_ahead marked_ahead-IsValid
      seven tt seven-Writable

null_blob_drops_example :
    Returns
      (marshal_value test_libc test_doubles (blob none))
      marked_ahead
      false
      (reset_write (view marked_ahead))
null_blob_drops_example =
    null_blob_drops test_libc test_libc-laws test_doubles marked_ahead marked_ahead-IsValid
      seven-Writable

-- What a receiver has of the five bytes, with one more behind them.
abbrev six_bytes : List ℕ
six_bytes = 5 ∷ 0 ∷ 0 ∷ 0 ∷ 7 ∷ 9 ∷ []

marshal-unmarshal_example :
    Returns
      (unmarshal_value test_doubles test_libc (int32 0))
      (received_bytes six_bytes)
      (true, seven)
      (skip 5 (view (received_bytes six_bytes)))
unfolding wire be
marshal-unmarshal_example =
    marshal-unmarshal test_libc test_libc-laws test_doubles marked_ahead marked_ahead-IsValid seven
      with_seven tt (omega arith) seven-Writable puts_seven (received_bytes six_bytes) (9 ∷ [])
      (int32 0) (received_bytes-IsValid six_bytes (omega arith)) refl test_libc-memory

abbrev long_text : List ℕ
long_text = 4 ∷ 255 ∷ replicate 255 65

long_text_faults_example :
    unmarshal_value test_doubles test_libc (int32 0) (received_bytes long_text) ≡ none
long_text_faults_example =
    long_text_faults test_doubles test_libc (int32 0) (received_bytes long_text) 4
      (replicate 255 65) [] (received_bytes-IsValid long_text (omega arith)) (inl refl) refl
      (omega arith)

abbrev strange_vector : List ℕ
strange_vector = 13 ∷ 16 ∷ 0 ∷ 2 ∷ []

unknown_vector_faults_example :
    unmarshal_value test_doubles test_libc (int32 0) (received_bytes strange_vector) ≡ none
unfolding be
unknown_vector_faults_example =
    unknown_vector_faults test_doubles test_libc (int32 0) (received_bytes strange_vector) 16 2 []
      (received_bytes-IsValid strange_vector (omega arith)) refl (omega arith)
