-- ===== src/Server/Database.antt =====
-- soml/server/database.c: the tables of a database, and the table for a client's schema. Whether the
-- backend creates a table is a parameter, and memory is found.
pub mod Tables
use semantic_oml.Base.Int.{ℤ}
use semantic_oml.Base.{
  ℕ, zero, suc, ◌+◌, List, [], ◌∷◌, ◌++◌, Option, none, some, Bool, true, false, ◌==◌,
  if◌then◌else◌,
}
use semantic_oml.Base.Text.{same}
use semantic_oml.Schema.{SchemaOf, schema_diff}

-- `tables` is `first_table` and its successors; a table is its schema. `metadata` is what
-- set_metadata() has been given, the newest first. The number of clients, `ref_count`, is left out.
pub record Database : Type 0 where
  pub name : List ℕ
  pub start_time : ℤ
  pub metadata : List (List ℕ × List ℕ)
  pub tables : List SchemaOf
  pub semantic : Bool

abbrev pub max_table_rename : ℕ
max_table_rename = 10

table_named : List SchemaOf → List ℕ → Option SchemaOf
table_named [] name = none
table_named (t ∷ ts) name = if same t.name name then some t else table_named ts name

pub database_find_table : Database → List ℕ → Option SchemaOf
unfolding table_named
database_find_table db name = table_named db.tables name

-- schema_copy() keeps all that is compared and stored.
pub database_create_table : Database → SchemaOf → Database
database_create_table db schema = record db { tables = schema ∷ db.tables }

-- The names that are tried: the schema's own, and the same with "_2" to "_9".
unfoldable pub renamed : SchemaOf → ℕ → SchemaOf
renamed schema i =
    if i == 1 then schema else record schema { name = schema.name ++ (b'_' ∷ (b'0' + i) ∷ []) }

pub data Search : Type 0 where
  existing : SchemaOf → Search
  free : ℕ → Search
  too_many : Search

-- What a round makes of the table that has the name, by how it differs.
pub compared : Option ℕ → SchemaOf → Search → Search
compared none t next = next
compared (some n) t next = if n == 0 then existing t else next

pub searched : Option SchemaOf → SchemaOf → ℕ → Search → Search
searched none s i next = free i
searched (some t) s i next = compared (schema_diff s t) t next

-- The loop over the names, from name `i` on.
pub find_rounds : Database → SchemaOf → ℕ → ℕ → Search
find_rounds db schema zero i = too_many
find_rounds db schema (suc rounds) i =
    let next = find_rounds db schema rounds (i + 1) in
    searched (database_find_table db (renamed schema i).name) (renamed schema i) i next

module _ (creates : SchemaOf → Bool) where
  -- A table that the backend does not create is unlinked again.
  pub create : Database → SchemaOf → Option SchemaOf × Database
  create db schema =
      if creates schema then (some schema, database_create_table db schema) else (none, db)

  pub of_search : Database → SchemaOf → Search → Option SchemaOf × Database
  unfolding create
  of_search db schema (existing t) = (some t, db)
  of_search db schema (free i) = create db (renamed schema i)
  of_search db schema too_many = (none, db)

  -- For a database and a schema that are not NULL. `none` is NULL.
  pub database_find_or_create_table : Database → SchemaOf → Option SchemaOf × Database
  database_find_or_create_table db schema = of_search db schema (find_rounds db schema 9 1)
