-- ===== src/Tests/Mem.antt =====
-- Copies of soml/lib/shared/mem.c.
use semantic_oml.Base.{List, ◌≡◌, [], ◌∷◌, some, replicate, refl, arith}
use semantic_oml.Mem.{Xchunk, oml_malloc}
use semantic_oml.Mem.Copy.{oml_strndup, strndup_copies}
use semantic_oml.Mem.Counts.{
  Counts, Event, count, count_all, IsBalanced, BalancesAll, count_all-IsBalanced,
}
use semantic_oml.Tests.{test_libc}

abbrev three_bytes : Xchunk
three_bytes = record { size = 11; bytes = replicate 3 0 }

finds_three : oml_malloc test_libc 3 ≡ some three_bytes
unfolding oml_malloc
finds_three = refl

strndup_copies_example :
    oml_strndup test_libc (7 ∷ 8 ∷ 0 ∷ 9 ∷ []) 4
    ≡ some (record { size = 11; bytes = 7 ∷ 8 ∷ 0 ∷ [] })
strndup_copies_example =
    strndup_copies test_libc three_bytes (7 ∷ 8 ∷ []) (9 ∷ []) 4 (omega arith, (omega arith, tt))
      (omega arith) (omega arith) finds_three

abbrev events : List Event
events = Event.allocates 24 ∷ Event.moves 40 24 ∷ Event.frees 40 ∷ []

abbrev no_counts : Counts
no_counts = record { bytes = 0; total = 0; freed = 0; peak = 0 }

events_balance : BalancesAll events no_counts
unfolding count
events_balance = (omega arith, ((omega arith, omega arith), (omega arith, tt)))

count_all-IsBalanced_example : IsBalanced (count_all events no_counts)
count_all-IsBalanced_example =
    count_all-IsBalanced events no_counts events_balance
      (record { sum = refl; within = omega arith; small = omega arith })
