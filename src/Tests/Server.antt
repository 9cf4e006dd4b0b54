-- ===== src/Tests/Server.antt =====
-- A client of the server (soml/server) with one database.
use semantic_oml.Base.{
  All, ◌≤◌, Bool, ℕ, ◌≡◌, inr, List, [], ◌∷◌, none, some, true, false, length, refl, arith,
}
use semantic_oml.Base.Int.{pos}
use semantic_oml.Base.Text.{codes, same}
use semantic_oml.Mbuf.{ok}
use semantic_oml.Schema.{SchemaOf, schema_from_meta}
use semantic_oml.Tests.{test_doubles}
use semantic_oml.Tests.Text.{cpu_schema, other_schema}
use semantic_oml.Server.Database.{Database, database_find_or_create_table}
use semantic_oml.Server.Database.Tables.{Given, database_find_or_create_table_lem}
use semantic_oml.Server.Lines.{split_line, def_num_values}
use semantic_oml.Server.Lines.Columns.{columns, limited, split_line-columns}
use semantic_oml.Server.Client.{
  ClientHandler, Serving, c_header, c_binary_data, c_text_data, client_realloc_tables,
  process_schema,
}
use semantic_oml.Server.Client.Slots.{HasSlots, KeepsAll, client_realloc_tables_lem}
use semantic_oml.Server.Client.Declares.{IsServing, Result, process_schema_lem}
use semantic_oml.Server.Client.Meta.{Backend, key_of, process_meta}
use semantic_oml.Server.Client.Meta.Keys.{Answers}
use semantic_oml.Server.Client.Headers.{process_headers, end_headers, is_error, done}
use semantic_oml.Server.Client.Headers.Ends.{Ends, process_headers-Ends}
use semantic_oml.Server.Client.Headers.Lines.{
  IsHeader, headers_text, accepted, process_headers-accepted,
}
use semantic_oml.Server.Client.Meta.States.{process_meta_lem}

abbrev pub one_table : Database
one_table = record {
  name = codes "test";
  start_time = pos 0;
  metadata = [];
  tables = other_schema ∷ [];
  semantic = false;
}

abbrev always : SchemaOf → Bool
always schema = true

database_find_or_create_table_lem_example :
    Given one_table cpu_schema (database_find_or_create_table always one_table cpu_schema)
database_find_or_create_table_lem_example =
    database_find_or_create_table_lem always one_table cpu_schema

split_line-columns_example :
    (split_line [] ≡ some [])
    × (split_line (97 ∷ 9 ∷ []) ≡ limited def_num_values (columns (97 ∷ 9 ∷ [])))
split_line-columns_example = split_line-columns 97 (9 ∷ [])

-- The place behind a final tab is an empty parameter.
cut_line : split_line (97 ∷ 9 ∷ []) ≡ some ((97 ∷ []) ∷ [] ∷ [])
unfolding split_line
cut_line = refl

abbrev pub fresh_client : ClientHandler ℕ
fresh_client = record {
  database = some 0;
  tables = [];
  values_vectors = [];
  values_vector_counts = [];
  table_count = 0;
  sender_id = pos 0;
  sender_name = none;
  app_name = none;
  state = c_header;
  content = c_text_data;
  time_offset = pos 0;
}

client_realloc_tables_lem_example :
    (after : ClientHandler ℕ) × (client_realloc_tables test_doubles fresh_client (pos 2)
      ≡ (ok, after))
    × HasSlots after
    × (2 ≤ length after.tables)
    × KeepsAll test_doubles fresh_client after
client_realloc_tables_lem_example =
    client_realloc_tables_lem test_doubles fresh_client 2 (refl, tt) (omega arith)

abbrev pub fresh_serving : Serving ℕ
fresh_serving = record { databases = one_table ∷ []; client = fresh_client }

fresh_serving-IsServing : IsServing test_doubles fresh_serving
fresh_serving-IsServing = ((refl, tt), inr (0, one_table, refl, refl))

abbrev load_text : List ℕ
load_text = codes "1 cpu node:string load:int32"

abbrev pub load_schema : SchemaOf
load_schema = record other_schema { index = pos 1 }

load_parsed : schema_from_meta load_text ≡ some (some load_schema)
unfolding schema_from_meta same
load_parsed = refl

process_schema_lem_example :
    Result test_doubles always fresh_serving
      (some load_schema)
      (process_schema test_doubles always fresh_serving load_text)
process_schema_lem_example =
    process_schema_lem test_doubles always fresh_serving load_text (some load_schema)
      fresh_serving-IsServing load_parsed

abbrev pub test_backend : Backend
test_backend = record {
  opened = λ name. some one_table;
  creates = always;
  add_sender_id = λ name. pos 7;
}

process_meta_lem_example :
    Answers test_doubles fresh_serving
      (key_of (codes "start-time"))
      (process_meta test_doubles test_backend fresh_serving (codes "start-time") (codes "1400"))
unfolding key_of
process_meta_lem_example =
    process_meta_lem test_doubles test_backend fresh_serving (codes "start-time") (codes "1400")
      fresh_serving-IsServing (λ e. ground (arith, e))

process_headers-Ends_example :
    Ends test_doubles test_backend
      (codes "protocol: 5")
      (process_headers test_doubles test_backend 20 fresh_serving (codes "protocol: 5"))
process_headers-Ends_example =
    process_headers-Ends test_doubles test_backend 20 fresh_serving (codes "protocol: 5")
      (omega arith)

abbrev two_headers : List (List ℕ × List ℕ)
two_headers = (codes "protocol", codes "5") ∷ (codes "content", codes "binary") ∷ []

two_headers-IsHeader : All IsHeader two_headers
two_headers-IsHeader = ground arith

abbrev binary_serving : Serving ℕ
binary_serving = record fresh_serving { client = record fresh_client { content = c_binary_data } }

two_accepted : accepted test_doubles test_backend fresh_serving two_headers ≡ some binary_serving
unfolding process_meta is_error
two_accepted = refl

process_headers-accepted_example :
    process_headers test_doubles test_backend 3 fresh_serving
      (headers_text two_headers (170 ∷ 170 ∷ []))
    ≡ done (end_headers test_doubles test_backend binary_serving, 170 ∷ 170 ∷ [])
process_headers-accepted_example =
    process_headers-accepted test_doubles test_backend two_headers fresh_serving binary_serving
      (170 ∷ 170 ∷ []) two_headers-IsHeader two_accepted
