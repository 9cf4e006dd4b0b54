-- ===== src/Tests/Client.antt =====
-- A row of a client of the library (soml/lib/client), and a client of the server that gets it.
use semantic_oml.Base.{
  ◌-◌, ◌^◌, ℕ, ◌≡◌, ◌∷◌, List, [], none, some, length, replicate, refl, arith, ◌++◌,
}
use semantic_oml.Base.Text.{codes}
use semantic_oml.Tests.{test_doubles, test_libc}
use semantic_oml.Tests.Server.{load_schema, test_backend, one_table, fresh_client}
use semantic_oml.Numbers.{print_uint}
use semantic_oml.Numbers.Bits.{print_uint-IsNumeral}
use semantic_oml.Value.{oml_value_get_type, OmlValue, double, string, int32, long, vector_int32}
use semantic_oml.Server.Client.{ClientHandler, Serving, c_text_data}
use semantic_oml.Server.Client.Slots.{HasSlots}
use semantic_oml.Server.Client.Headers.{done}
use semantic_oml.Server.Client.Samples.{process_text_message}
use semantic_oml.Server.Client.Samples.Types.{Ends, process_text_message_lem}
use semantic_oml.Server.Client.Samples.Insertion.{with_vectors}
use semantic_oml.Client.TextWriter.{column, row_cols, print_all, finished, outside}
use semantic_oml.Client.TextWriter.Rows.{tabbed, after, row_cols_lem, last_vector_outside}
use semantic_oml.Client.TextWriter.Values.{numerals-IsClean, SentAs, arrives, column-SentAs}
use semantic_oml.Client.Arrival.{Measured, arrived, stream, process_text_message-stream}

abbrev two_values : List (OmlValue ℕ)
two_values = string (some (codes "a\tb")) ∷ int32 (2 ^ 32 - 5) ∷ []

abbrev one_row : Measured test_doubles test_libc
one_row = record { now = 12; index = 1; seq_no = 3; values = two_values; table = load_schema }

abbrev no_values : List (OmlValue ℕ)
no_values = replicate 30 (double 0)

abbrev text_client : ClientHandler ℕ
text_client = record fresh_client {
  tables = none ∷ some load_schema ∷ [];
  values_vectors = no_values ∷ no_values ∷ [];
  values_vector_counts = 30 ∷ 30 ∷ [];
  table_count = 2;
  state = c_text_data;
}

abbrev text_serving : Serving ℕ
text_serving = record { databases = one_table ∷ []; client = text_client }

text_client-HasSlots : HasSlots text_client
text_client-HasSlots = (refl, ((refl, omega arith, tt), ((refl, omega arith, omega arith), tt)))

process_text_message-stream_example :
    (vectors : List (List (OmlValue ℕ))) × (process_text_message test_doubles test_libc 2
        test_backend text_serving
        (stream test_doubles test_libc (one_row ∷ []))
      ≡ done (
        arrived test_doubles test_libc 0 text_serving one_row ∷ [],
        with_vectors test_doubles test_libc text_serving vectors,
        [],
      ))
    × HasSlots (with_vectors test_doubles test_libc text_serving vectors).client
unfolding oml_value_get_type
process_text_message-stream_example =
    process_text_message-stream test_doubles test_libc test_backend text_serving (one_row ∷ []) 2 0
      refl refl text_client-HasSlots
      (
        (
          numerals-IsClean (print_uint 12) (print_uint-IsNumeral 12),
          omega arith,
          omega arith,
          omega arith,
          refl,
          omega arith,
          (refl, (omega arith, (omega arith, (omega arith, tt))), (refl, omega arith, tt)),
        ),
        tt,
      )
      (omega arith)

process_text_message_lem_example : Ends test_doubles test_libc test_backend (
    process_text_message test_doubles test_libc 40 test_backend text_serving
      (codes "1.5\t1\t7\tnode\t12\n2.5\t1"))
process_text_message_lem_example =
    process_text_message_lem test_doubles test_libc test_backend 40 text_serving
      (codes "1.5\t1\t7\tnode\t12\n2.5\t1") (omega arith)

column-SentAs_example :
    SentAs test_doubles test_libc (long (2 ^ 63)) (arrives test_doubles test_libc (long (2 ^ 63)))
column-SentAs_example = column-SentAs test_doubles test_libc (long (2 ^ 63)) (omega arith)

abbrev two_texts : List (List ℕ)
two_texts = codes "a\\tb" ∷ codes "-5" ∷ []

row_cols_lem_example :
    row_cols test_doubles two_values (length two_values) 0
    ≡ print_all (tabbed test_doubles two_texts) finished
unfolding column
row_cols_lem_example = row_cols_lem test_doubles two_values two_texts (refl, (refl, tt))

-- A vector of one element behind two values
last_vector_outside_example :
    row_cols test_doubles (two_values ++ (vector_int32 (7 ∷ []) ∷ [])) 3 0
    ≡ after test_doubles two_texts (codes " 7" ∷ []) outside
unfolding column
last_vector_outside_example =
    last_vector_outside test_doubles two_values two_texts (vector_int32 (7 ∷ [])) (codes " 7" ∷ [])
      (refl, (refl, tt)) refl (omega arith)
