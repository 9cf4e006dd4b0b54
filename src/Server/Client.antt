-- ===== src/Server/Client.antt =====
-- soml/server/client_handler.c and client_handler.h: the handler of a client's connection, the arrays
-- that hold its tables and their values, and the declaration of a schema. Memory is found. `none` is
-- an access outside the memory.
pub mod Slots
pub mod Meta
pub mod Headers
pub mod Tables
pub mod Declares
pub mod Samples
use semantic_oml.Base.{
  ℕ, zero, suc, ◌+◌, ◌-◌, ◌^◌, ◌==◌, ltb, List, [], ◌∷◌, ◌++◌, Option, none, some, Bool, true,
  false, not, ◌||◌, replicate, take, length, get_elem?, if◌then◌else◌,
}
use semantic_oml.Base.Int.{ℤ, pos, negsuc}
use semantic_oml.Mbuf.{Status, ok, fail}
use semantic_oml.Value.{Doubles, OmlValue, oml_value_init}
use semantic_oml.Strings.{validate_name}
use semantic_oml.Schema.{SchemaField, SchemaOf, schema_from_meta}
use semantic_oml.Server.Database.{Database, database_find_or_create_table}
use semantic_oml.Server.Lines.{def_num_values}

pub data CState : Type 0 where
  c_header c_binary_data c_text_data c_protocol_error c_binary_skip : CState

-- `database` is the place of a database among those that are open. The connection, the name for the
-- log and `seqno_offsets`, which nothing reads, are left out.
pub record ClientHandler (Double : Type 0) : Type 0 where
  pub database : Option ℕ
  pub tables : List (Option SchemaOf)
  pub values_vectors : List (List (OmlValue Double))
  pub values_vector_counts : List ℕ
  pub table_count : ℕ
  pub sender_id : ℤ
  pub sender_name : Option (List ℕ)
  pub app_name : Option (List ℕ)
  pub state : CState
  pub content : CState
  pub time_offset : ℤ

-- A client and the open databases, the oldest first.
pub record Serving (Double : Type 0) : Type 0 where
  pub databases : List Database
  pub client : ClientHandler Double

infixl 5 ◌>>=◌
abbrev pub ◌>>=◌ : {A B : Type 0} → Option A → (A → Option B) → Option B
o >>= k = elim o [ none ↦ none | some a ↦ k a ]

-- a[i] = x
pub set_elem : {A : Type 0} → List A → ℕ → A → Option (List A)
set_elem [] i x = none
set_elem (y ∷ l) zero x = some (x ∷ l)
set_elem (y ∷ l) (suc i) x = do rest ← set_elem l i x; some (y ∷ rest)

-- `n + 1` of an int
unfoldable pub int_suc : ℤ → ℤ
int_suc (pos n) = if n == 2 ^ 31 - 1 then negsuc (2 ^ 31 - 1) else pos (n + 1)
int_suc (negsuc zero) = pos 0
int_suc (negsuc (suc n)) = negsuc n

-- The loop of validate_schema_names().
names_valid : List SchemaField → Bool
names_valid [] = true
names_valid (f ∷ fs) =
    let rest = names_valid fs in if not (validate_name f.name) then false else rest

-- Of a schema that is not NULL.
pub validate_schema_names : SchemaOf → Bool
unfolding names_valid
validate_schema_names schema =
    if not (validate_name schema.name) then false else names_valid schema.fields

module _ (dbl : Doubles) where
  abbrev Double : Type 0
  Double = dbl.Double

  abbrev pub oml_value_array_init : ℕ → List (OmlValue Double)
  oml_value_array_init n = replicate n (oml_value_init dbl)

  pub more_tables : ℕ → ClientHandler Double → ClientHandler Double
  more_tables more self = record self {
    tables = self.tables ++ replicate more none;
    values_vectors = self.values_vectors ++ replicate more (oml_value_array_init def_num_values);
    values_vector_counts = self.values_vector_counts ++ replicate more def_num_values;
    table_count = self.table_count + more;
  }

  pub client_realloc_tables : ClientHandler Double → ℤ → Status × ClientHandler Double
  client_realloc_tables self (negsuc n) = (fail, self)
  client_realloc_tables self (pos n) =
      if n == 0
      then (fail, self)
      else if ltb self.table_count n
      then (ok, more_tables (n - self.table_count) self)
      else (ok, self)

  -- A vector of `count` values, grown to `nvalues`.
  pub more_values : ClientHandler Double → ℕ → ℕ → ℕ → Option (Status × ClientHandler Double)
  more_values self idx count nvalues = do
    old ← get_elem? self.values_vectors idx
    vectors ←
        set_elem self.values_vectors idx (take count old ++ oml_value_array_init (nvalues - count))
    counts ← set_elem self.values_vector_counts idx nvalues
    some (ok, record self { values_vectors = vectors; values_vector_counts = counts })

  pub client_realloc_values : ClientHandler Double → ℤ → ℕ → Option (Status × ClientHandler Double)
  client_realloc_values self (negsuc n) nvalues = some (fail, self)
  client_realloc_values self (pos idx) nvalues =
      if ltb self.table_count idx || (nvalues == 0) then some (fail, self) else do
        count ← get_elem? self.values_vector_counts idx
        let grown = more_values self idx count nvalues in
            if ltb count nvalues then grown else some (ok, self)

  -- self->tables[idx] = table, and room for its values. A failure to find room is only logged.
  pub set_table : ClientHandler Double → ℤ → SchemaOf → Option (ClientHandler Double)
  set_table self (negsuc n) table = none
  set_table self (pos idx) table = do
    tables ← set_elem self.tables idx (some table)
    (_, after) ←
        client_realloc_values (record self { tables = tables }) (pos idx) (length table.fields)
    some after

  pub protocol_error : ClientHandler Double → ClientHandler Double
  protocol_error self = record self { state = c_protocol_error }

  -- What client_realloc_tables() gives, on: its failure is only logged.
  pub with_room : SchemaOf → ℤ → Status × ClientHandler Double → Option (ClientHandler Double)
  with_room table idx (fail, self) = some self
  with_room table idx (ok, self) = set_table self idx table

  -- From the table that is found or created on.
  pub with_table : ClientHandler Double → ℤ → Option SchemaOf → Option (ClientHandler Double)
  with_table self idx none = some (protocol_error self)
  with_table self idx (some table) = with_room table idx (client_realloc_tables self (int_suc idx))

  pub failed : Serving Double → Serving Double
  failed s = record s { client = protocol_error s.client }

  -- What database_find_or_create_table() gives for a database.
  pub stored_schema : Serving Double → ℤ → ℕ → Option SchemaOf × Database → Option (Serving Double)
  stored_schema s idx i (table, db) = do
    databases ← set_elem s.databases i db
    client ← with_table s.client idx table
    some (record { databases = databases; client = client })

  module _ (creates : SchemaOf → Bool) where
    -- A database that is NULL has no tables.
    pub define_schema : Serving Double → SchemaOf → Option ℕ → Option (Serving Double)
    define_schema s schema none = some (failed s)
    define_schema s schema (some i) = do
      db ← get_elem? s.databases i
      stored_schema s schema.index i (database_find_or_create_table creates db schema)

    pub parsed_schema : Serving Double → Option (Option SchemaOf) → Option (Serving Double)
    parsed_schema s none = none
    parsed_schema s (some none) = some (failed s)
    parsed_schema s (some (some schema)) =
        let defined = define_schema s schema s.client.database in
        if not (validate_schema_names schema) then some (failed s) else defined

    pub process_schema : Serving Double → List ℕ → Option (Serving Double)
    process_schema s value = parsed_schema s (schema_from_meta value)
