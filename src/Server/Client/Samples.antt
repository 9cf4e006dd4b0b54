-- ===== src/Server/Client/Samples.antt =====
-- process_text_data_message() and process_text_message() of soml/server/client_handler.c: the rows that
-- a client sends as text, and what is inserted into the database for them. The MBuffer is the bytes of
-- it that are not read yet. Memory is found, and `none` is an access outside the memory.
pub mod Types
pub mod Rows
pub mod Insertion
use mathlib.Core.Option
use semantic_oml.Base.{
  ◌||◌, ◌&&◌, ℕ, zero, suc, ◌+◌, ◌-◌, List, [], ◌∷◌, Option, none, some, Bool, true, false, not,
  ◌==◌, ltb, length, take, get_elem?, if◌then◌else◌,
}
use semantic_oml.Base.Int.{ℤ, pos, negsuc}
use semantic_oml.Base.Text.{codes, same}
use semantic_oml.Mem.{Libc}
use semantic_oml.Mbuf.{Status, ok, fail}
use semantic_oml.Strings.{chomp}
use semantic_oml.Numbers.{atoi}
use semantic_oml.Value.{Doubles, OmlValue, oml_value_init}
use semantic_oml.Value.Text.{oml_value_from_s, oml_value_set_type}
use semantic_oml.Schema.{SchemaField, SchemaOf}
use semantic_oml.Server.Database.{Database, database_find_table}
use semantic_oml.Server.Lines.{split_line, is_empty}
use semantic_oml.Server.Client.{
  ClientHandler, CState, c_header, c_binary_data, c_text_data, c_protocol_error, c_binary_skip,
  Serving, ◌>>=◌, set_elem, client_realloc_tables, client_realloc_values,
}
use semantic_oml.Server.Client.Meta.{
  Backend, Meta, processed, ignored, refused, not_recognised, process_meta,
}
use semantic_oml.Server.Client.Headers.{Run, done, fault, out_of_fuel, read_line, until_zero}

-- What database->insert() is called with: the place of the database, and the rest.
pub record Sample (Double : Type 0) : Type 0 where
  pub database : ℕ
  pub table : SchemaOf
  pub sender_id : ℤ
  pub seqno : ℤ
  pub ts : Double
  pub values : List (OmlValue Double)

-- The columns in front of the values
abbrev pub before_values : ℕ
before_values = 3

abbrev pub experiment_metadata : List ℕ
experiment_metadata = codes "_experiment_metadata"

or_else : Option ℕ → Option ℕ → Option ℕ
or_else none other = other
or_else (some i) other = some i

-- The place of the last field that has a name.
pub last_named : List SchemaField → List ℕ → Option ℕ
unfolding or_else
last_named [] name = none
last_named (f ∷ fs) name =
    let rest = last_named fs name in
    or_else (Option.map suc rest) (if same f.name name then some 0 else none)

wipe_first : List (List ℕ) → List (List ℕ)
wipe_first [] = []
wipe_first (a ∷ msg) = [] ∷ msg

-- The texts after chomp() of the one at a place.
pub chomped : List (List ℕ) → ℕ → List (List ℕ)
unfolding wipe_first
chomped [] i = []
chomped (a ∷ msg) zero = if is_empty a then a ∷ wipe_first msg else take (chomp a) a ∷ msg
chomped (a ∷ msg) (suc i) = a ∷ chomped msg i

-- The bytes behind a line, with a zero over the first of them.
pub wiped_rest : Bool → List ℕ → List ℕ
wiped_rest false rest = rest
wiped_rest true [] = []
wiped_rest true (b ∷ rest) = 0 ∷ rest

unfoldable pub is_text : CState → Bool
is_text c_text_data = true
is_text c_header = false
is_text c_binary_data = false
is_text c_protocol_error = false
is_text c_binary_skip = false

module _ (dbl : Doubles) (libc : Libc) where
  abbrev Value : Type 0
  Value = OmlValue dbl.Double

  -- oml_value_array_reset()
  pub array_reset : ℕ → List Value → Option (List Value)
  array_reset zero vs = some vs
  array_reset (suc n) [] = none
  array_reset (suc n) (v ∷ vs) = do rest ← array_reset n vs; some (oml_value_init dbl ∷ rest)

  -- What is read for the first of the values, and the loop behind it.
  pub then_values :
      Status × Value → List Value → Option (Status × List Value) → Option (Status × List Value)
  then_values (fail, v) vs next = some (fail, v ∷ vs)
  then_values (ok, v) vs none = none
  then_values (ok, v) vs (some (s, ws)) = some (s, v ∷ ws)

  -- The loop that sets the values from the texts, up to the first error.
  pub set_values : List SchemaField → List Value → List (List ℕ) → Option (Status × List Value)
  unfolding then_values
  set_values [] vs msg = some (ok, vs)
  set_values (f ∷ fs) [] msg = none
  set_values (f ∷ fs) (v ∷ vs) [] = none
  set_values (f ∷ fs) (v ∷ vs) (t ∷ msg) = do
    r ← oml_value_from_s dbl libc (oml_value_set_type dbl libc v f.type) t
    then_values r vs (set_values fs vs msg)

  abbrev pub Inserted : Type 0
  Inserted = Option (Option (Sample dbl.Double) × Bool × Serving dbl.Double)

  -- A row that is not inserted
  pub discard : Serving dbl.Double → Inserted
  discard s = some (none, false, s)

  pub insert :
      Serving dbl.Double → ℕ → SchemaOf → dbl.Double → ℤ → ℕ → Status × List Value → Inserted
  insert s index table ts seqno count (fail, ws) = do
    vectors ← set_elem s.client.values_vectors index ws
    discard (record s { client = record s.client { values_vectors = vectors } })
  insert s index table ts seqno count (ok, ws) = do
    vectors ← set_elem s.client.values_vectors index ws
    d ← s.client.database
    some (
      some (record {
        database = d;
        table = table;
        sender_id = s.client.sender_id;
        seqno = seqno;
        ts = ts;
        values = take (count - before_values) ws;
      }),
      false,
      record s { client = record s.client { values_vectors = vectors } },
    )

  pub store_values :
      Serving dbl.Double → ℕ → SchemaOf → dbl.Double → ℤ → List (List ℕ) → ℕ → Inserted
  unfolding insert array_reset set_values
  store_values s index table ts seqno msg count = do
    v ← get_elem? s.client.values_vectors index
    vs ← array_reset count v
    r ← set_values table.fields vs msg
    insert s index table ts seqno count r

  -- From the test of the values' number on. `msg` is the texts of the values.
  pub insert_values :
      Serving dbl.Double → ℕ → SchemaOf → dbl.Double → ℤ → List (List ℕ) → ℕ → Inserted
  unfolding store_values
  insert_values s index table ts seqno msg count = do
    held ← get_elem? s.client.values_vector_counts index
    let stored = store_values s index table ts seqno msg count in
        if ltb held (length table.fields) then discard s else stored

  pub flagged : Bool → Inserted → Inserted
  flagged wiped none = none
  flagged wiped (some (x, w, s)) = some (x, wiped || w, s)

  -- What process_meta() gives for the key and the value of a row: only what it does not know goes on.
  pub after_meta : Option (Meta × Serving dbl.Double) → (Serving dbl.Double → Inserted) → Inserted
  after_meta none go_on = none
  after_meta (some (processed, s)) go_on = discard s
  after_meta (some (ignored, s)) go_on = discard s
  after_meta (some (refused, s)) go_on = discard s
  after_meta (some (not_recognised, s)) go_on = go_on s

  -- A row for the root, from its key and value on. chomp(), in process_meta(), puts its zero over the
  -- first byte of the next text where the value is empty, and behind the line if it is the last.
  pub root_row :
      Backend
      → Serving dbl.Double
      → ℕ
      → ℕ
      → List ℕ
      → List (List ℕ)
      → (Serving dbl.Double → List (List ℕ) → Inserted)
      → Inserted
  unfolding after_meta flagged chomped
  root_row backend s ki vi value msg go_on = do
    key ← get_elem? (chomped msg vi) ki
    flagged (is_empty value && (length msg == vi + 1))
        (after_meta (process_meta dbl backend s key value) (λ after. go_on after (chomped msg vi)))

  -- A row of stream 0, from the places of its fields "key", "value" and "subject" on.
  pub metadata_row :
      Backend
      → Serving dbl.Double
      → Option ℕ
      → Option ℕ
      → Option ℕ
      → List (List ℕ)
      → (Serving dbl.Double → List (List ℕ) → Inserted)
      → Inserted
  unfolding root_row
  metadata_row backend s none vi si msg go_on = discard s
  metadata_row backend s (some ki) none si msg go_on = discard s
  metadata_row backend s (some ki) (some vi) none msg go_on = discard s
  metadata_row backend s (some ki) (some vi) (some si) msg go_on = do
    subject ← get_elem? msg si
    value ← get_elem? msg vi
    let root = root_row backend s ki vi value msg go_on in
        if same (codes ".") subject then root else go_on s msg

  -- A row whose number of values is the table's number of fields.
  pub table_row :
      Backend → Serving dbl.Double → ℕ → SchemaOf → dbl.Double → ℤ → List (List ℕ) → Inserted
  unfolding metadata_row insert_values last_named
  table_row backend s index table ts seqno msg =
      let go_on : Serving dbl.Double → List (List ℕ) → Inserted = λ after texts.
        insert_values after index table ts seqno texts (length msg + before_values) in
      let fields = table.fields in
      if index == 0
      then metadata_row backend s (last_named fields (codes "key"))
          (last_named fields (codes "value")) (last_named fields (codes "subject")) msg go_on
      else go_on s msg

  -- The table of the rows of stream 0, when the client has none yet. There is none to look in without a
  -- database, and none found is a fault.
  pub find_metadata_table : Serving dbl.Double → Option (SchemaOf × Serving dbl.Double)
  find_metadata_table s = do
    d ← s.client.database
    db ← get_elem? s.databases d
    table ← database_find_table db experiment_metadata
    (_, big) ←
        client_realloc_values dbl (client_realloc_tables dbl s.client (pos 1)).1 (pos 0)
          (length table.fields)
    tables ← set_elem big.tables 0 (some table)
    some (table, record s { client = record big { tables = tables } })

  pub counted_row :
      Backend → ℕ → dbl.Double → ℤ → List (List ℕ) → SchemaOf × Serving dbl.Double → Inserted
  unfolding table_row
  counted_row backend index ts seqno msg (table, s) =
      let row = table_row backend s index table ts seqno msg in
      if not (length table.fields == length msg) then discard s else row

  -- From the table's entry in the array on.
  pub indexed_row :
      Backend → Serving dbl.Double → ℕ → dbl.Double → ℤ → List (List ℕ) → Option SchemaOf → Inserted
  unfolding counted_row find_metadata_table
  indexed_row backend s index ts seqno msg (some table) =
      counted_row backend index ts seqno msg (table, s)
  indexed_row backend s index ts seqno msg none =
      let first = find_metadata_table s >>= counted_row backend index ts seqno msg in
      if index == 0 then first else discard s

  -- atof()
  pub atof : List ℕ → dbl.Double
  atof s = elim (dbl.strtod s) [ none ↦ dbl.zero | some (d, _, _) ↦ d ]

  pub row_at : Backend → Serving dbl.Double → dbl.Double → ℤ → ℤ → List (List ℕ) → Inserted
  unfolding indexed_row
  row_at backend s ts (negsuc n) seqno msg = discard s
  row_at backend s ts (pos index) seqno msg =
      let row =
        get_elem? s.client.tables index
        >>= indexed_row backend s index (dbl.add_time ts s.client.time_offset) seqno msg in
      if ltb index s.client.table_count then row else discard s

  pub process_text_data_message : Backend → Serving dbl.Double → List (List ℕ) → Inserted
  unfolding row_at atof
  process_text_data_message backend s [] = discard s
  process_text_data_message backend s (a ∷ []) = discard s
  process_text_data_message backend s (a ∷ b ∷ []) = discard s
  process_text_data_message backend s (a ∷ b ∷ c ∷ msg) =
      row_at backend s (atof a) (atoi b) (atoi c) msg

  abbrev pub Left : Type 0
  Left = List (Sample dbl.Double) × Serving dbl.Double × List ℕ

  pub with_sample : Option (Sample dbl.Double) → Run Left → Run Left
  with_sample none r = r
  with_sample (some x) (done (xs, s, rest)) = done (x ∷ xs, s, rest)
  with_sample (some x) fault = fault
  with_sample (some x) out_of_fuel = out_of_fuel

  -- What follows a row.
  pub next_row : Inserted → List ℕ → (Serving dbl.Double → List ℕ → Run Left) → Run Left
  unfolding with_sample wiped_rest
  next_row none rest again = fault
  next_row (some (x, wiped, s)) rest again = with_sample x (again s (wiped_rest wiped rest))

  pub until_zeros : List (List ℕ) → List (List ℕ)
  until_zeros [] = []
  until_zeros (a ∷ msg) = until_zero a ∷ until_zeros msg

  -- The parameters of a line; `none` is too many of them.
  pub text_row :
      Backend
      → Serving dbl.Double
      → Option (List (List ℕ))
      → List ℕ
      → (Serving dbl.Double → List ℕ → Run Left)
      → Run Left
  unfolding next_row until_zeros process_text_data_message
  text_row backend s none rest again = done ([], s, rest)
  text_row backend s (some a) rest again =
      let row = next_row (process_text_data_message backend s (until_zeros a)) rest again in
      if ltb (length a) before_values then done ([], s, rest) else row

  pub text_line :
      Backend
      → Serving dbl.Double
      → List ℕ
      → Option (List ℕ × List ℕ)
      → (Serving dbl.Double → List ℕ → Run Left)
      → Run Left
  unfolding text_row
  text_line backend s bytes none again = done ([], s, bytes)
  text_line backend s bytes (some (line, rest)) again =
      text_row backend s (split_line line) rest again

  -- What is inserted, and what is left. Every round that goes on takes a line.
  pub process_text_message : ℕ → Backend → Serving dbl.Double → List ℕ → Run Left
  unfolding text_line
  process_text_message zero backend s bytes = out_of_fuel
  process_text_message (suc fuel) backend s bytes =
      let round = text_line backend s bytes (read_line bytes) (process_text_message fuel backend) in
      if is_text s.client.state then round else done ([], s, bytes)
