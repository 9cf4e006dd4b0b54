-- ===== src/Tests/Mbuf.antt =====
-- The operations of soml/lib/shared/mbuf.c on small buffers.
use semantic_oml.Base.{◌≡◌, ◌⊎◌, List, [], ◌∷◌, none, some, replicate, arith}
use semantic_oml.Tests.{
  test_libc, test_libc-laws, four_bytes, four_bytes-IsValid, marked_ahead, marked_ahead-IsValid,
}
use semantic_oml.Mbuf.{MBuffer, ok}
use semantic_oml.Mbuf.Invariant.{IsValid}
use semantic_oml.Mbuf.View.{view, Returns, repack_message, repack_message2, nothing}
use semantic_oml.Mbuf.Storage.{mbuf_create2, mbuf_check_resize}
use semantic_oml.Mbuf.Storage.Create.{create2_lem, or_default}
use semantic_oml.Mbuf.Storage.Growth.{Makes, check_resize-Makes}
use semantic_oml.Mbuf.Transfer.{mbuf_write, mbuf_print}
use semantic_oml.Mbuf.Transfer.Write.{Writes, mbuf_write-Writes}
use semantic_oml.Mbuf.Transfer.Print.{Prints, mbuf_print-Prints}
use semantic_oml.Mbuf.Transfer.Print.Attempt.{printed}
use semantic_oml.Mbuf.Message.{mbuf_repack_message, mbuf_repack_message2}
use semantic_oml.Mbuf.Message.Repack.{
  repack_message-Returns, repack_message_faults, repack_message2-Returns,
}
use semantic_oml.Mbuf.Trace.{Op, run}
use semantic_oml.Mbuf.Trace.Refines.{PerformsRun, run-PerformsRun}

-- Two bytes are written, three are read, and the message is moved to the front.
abbrev calls : List Op
calls = Op.write (7 ∷ 8 ∷ []) ∷ Op.read 3 ∷ Op.repack ∷ Op.reset_read ∷ []

run-PerformsRun_example : PerformsRun calls four_bytes (run test_libc calls four_bytes)
run-PerformsRun_example =
    run-PerformsRun test_libc test_libc-laws four_bytes calls four_bytes-IsValid
      (omega arith, λ r c a. (tt, λ r' c' a'. (tt, λ r'' c'' a''. (tt, λ r3 c3 a3. tt))))

mbuf_write-Writes_example :
    Writes (7 ∷ 8 ∷ []) four_bytes (mbuf_write test_libc (some (7 ∷ 8 ∷ 9 ∷ [])) 2)
mbuf_write-Writes_example =
    mbuf_write-Writes test_libc test_libc-laws four_bytes four_bytes-IsValid (7 ∷ 8 ∷ 9 ∷ []) 2
      (omega arith) (omega arith)

mbuf_print-Prints_example :
    Prints (printed 12 (replicate 12 65)) four_bytes (mbuf_print test_libc (replicate 12 65))
mbuf_print-Prints_example =
    mbuf_print-Prints test_libc test_libc-laws four_bytes four_bytes-IsValid (replicate 12 65)
      (omega arith)

check_resize-Makes_example : Makes 100 four_bytes (mbuf_check_resize test_libc 100 four_bytes)
check_resize-Makes_example =
    check_resize-Makes test_libc test_libc-laws four_bytes four_bytes-IsValid 100 (omega arith)

create2_lem_example :
    (mbuf_create2 test_libc 64 0 ≡ some none)
    ⊎ ((m : MBuffer) × (mbuf_create2 test_libc 64 0 ≡ some (some m))
        × IsValid m
        × (view m ≡ nothing)
        × (m.wr_remaining ≡ or_default 64 512))
create2_lem_example = create2_lem test_libc 64 0 (omega arith) (omega arith)

repack_message-Returns_example :
    Returns mbuf_repack_message four_bytes ok (repack_message (view four_bytes))
repack_message-Returns_example = repack_message-Returns four_bytes four_bytes-IsValid (omega arith)

repack_message_faults_example : mbuf_repack_message marked_ahead ≡ none
repack_message_faults_example =
    repack_message_faults marked_ahead marked_ahead-IsValid (omega arith)

repack_message2-Returns_example :
    Returns mbuf_repack_message2 marked_ahead ok (repack_message2 (view marked_ahead))
repack_message2-Returns_example = repack_message2-Returns marked_ahead marked_ahead-IsValid
