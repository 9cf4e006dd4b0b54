-- ===== src/Server/Client/Meta.antt =====
-- process_meta() of soml/server/client_handler.c: what the server does with a key and a value of a
-- client's headers. What the backend opens, creates and numbers is a parameter.
pub mod Opened
pub mod Keys
pub mod States
use mathlib.Core.Option
use semantic_oml.Base.{
  ◌&&◌, ℕ, zero, suc, List, [], ◌∷◌, ◌++◌, Option, none, some, Bool, true, false, ◌||◌, length,
  get_elem?, take, if◌then◌else◌, leb,
}
use semantic_oml.Base.Int.{ℤ, pos, negsuc, sub_ℤ}
use semantic_oml.Base.Text.{codes, same}
use semantic_oml.Strings.{chomp}
use semantic_oml.Numbers.{atoi, print_unsigned}
use semantic_oml.Value.{Doubles}
use semantic_oml.Schema.{SchemaOf}
use semantic_oml.Server.Database.{Database}
use semantic_oml.Server.Client.{
  CState, c_header, c_binary_data, c_text_data, c_protocol_error, c_binary_skip, Serving, ◌>>=◌,
  set_elem, failed, process_schema,
}

-- A database as create(), database_init() and get_metadata() leave it, or an error of one of them;
-- whether a table is created; and the number of a sender.
pub record Backend : Type 0 where
  pub opened : List ℕ → Option Database
  pub creates : SchemaOf → Bool
  pub add_sender_id : List ℕ → ℤ

-- 0, -1, -2 and 1
pub data Meta : Type 0 where
  processed ignored refused not_recognised : Meta

pub data Key : Type 0 where
  protocol_key domain_key start_time_key sender_id_key app_name_key schema_key content_key
        other_key :
      Key

unfoldable pub key_of : List ℕ → Key
unfolding same
key_of key =
    if same key (codes "protocol")
    then protocol_key
    else if same key (codes "domain") || same key (codes "experiment-id")
    then domain_key
    else if same key (codes "start-time") || same key (codes "start_time")
    then start_time_key
    else if same key (codes "sender-id")
    then sender_id_key
    else if same key (codes "app-name")
    then app_name_key
    else if same key (codes "schema")
    then schema_key
    else if same key (codes "content")
    then content_key
    else other_key

pub is_header : CState → Bool
is_header c_header = true
is_header c_binary_data = false
is_header c_text_data = false
is_header c_protocol_error = false
is_header c_binary_skip = false

abbrev min_protocol_version : ℕ
min_protocol_version = 1

abbrev max_protocol_version : ℕ
max_protocol_version = 5

pub known_version : ℤ → Bool
known_version (pos n) = leb min_protocol_version n && leb n max_protocol_version
known_version (negsuc n) = false

-- The place of the first database that has a name.
database_named : List Database → List ℕ → Option ℕ
database_named [] name = none
database_named (db ∷ dbs) name =
    let rest = database_named dbs name in if same name db.name then some 0 else Option.map suc rest

-- The database that is open, or the one that is opened. For a name shorter than MAX_DB_NAME_SIZE,
-- which is copied whole.
known_or_opened : List Database → List ℕ → Option ℕ → Option Database → Option ℕ × List Database
known_or_opened dbs name (some i) new = (some i, dbs)
known_or_opened dbs name none none = (none, dbs)
known_or_opened dbs name none (some db) =
    (some (length dbs), dbs ++ (record db { name = name } ∷ []))

pub database_find : (List ℕ → Option Database) → List Database → List ℕ → Option ℕ × List Database
unfolding database_named known_or_opened
database_find opened dbs name = known_or_opened dbs name (database_named dbs name) (opened name)

is_zero : ℤ → Bool
is_zero (pos zero) = true
is_zero (pos (suc n)) = false
is_zero (negsuc n) = false

-- What a start time makes of a database: its own, if it has none or is semantic.
pub seeded : ℤ → Database → Database
unfolding is_zero
seeded start db =
    if is_zero db.start_time || db.semantic
    then record db {
      start_time = start;
      metadata = (codes "start_time", print_unsigned start) ∷ db.metadata;
    }
    else db

module _ (dbl : Doubles) where
  abbrev Answer : Type 0
  Answer = Option (Meta × Serving dbl.Double)

  pub refuse : Serving dbl.Double → Answer
  refuse s = some (refused, failed dbl s)

  pub meta_protocol : Serving dbl.Double → List ℕ → Answer
  meta_protocol s value = if known_version (atoi value) then some (processed, s) else refuse s

  pub with_database : Serving dbl.Double → Option ℕ × List Database → Serving dbl.Double
  with_database s (d, dbs) = record { databases = dbs; client = record s.client { database = d } }

  pub found : Serving dbl.Double → Option ℕ × List Database → Answer
  found s (none, dbs) = refuse (with_database s (none, dbs))
  found s (some i, dbs) = some (processed, with_database s (some i, dbs))

  pub meta_start_time : Serving dbl.Double → List ℕ → Option ℕ → Answer
  meta_start_time s value none = refuse s
  meta_start_time s value (some i) = do
    db ← get_elem? s.databases i
    databases ← set_elem s.databases i (seeded (atoi value) db)
    some (
      processed,
      record {
        databases = databases;
        client = record s.client {
          time_offset = sub_ℤ (atoi value) (seeded (atoi value) db).start_time;
        };
      },
    )

  pub meta_sender_id : (List ℕ → ℤ) → Serving dbl.Double → List ℕ → Option ℕ → Answer
  meta_sender_id add s value none = refuse s
  meta_sender_id add s value (some i) = some (
    processed,
    record s { client = record s.client { sender_id = add value; sender_name = some value } },
  )

  pub meta_app_name : Serving dbl.Double → List ℕ → Answer
  meta_app_name s value =
      some (processed, record s { client = record s.client { app_name = some value } })

  pub meta_content : Serving dbl.Double → List ℕ → Answer
  meta_content s value =
      if same value (codes "binary")
      then some (processed, record s { client = record s.client { content = c_binary_data } })
      else if same value (codes "text")
      then some (processed, record s { client = record s.client { content = c_text_data } })
      else refuse s

  pub meta_schema : (SchemaOf → Bool) → Serving dbl.Double → List ℕ → Answer
  meta_schema creates s value = do
    after ← process_schema dbl creates s value
    some (processed, after)

  -- What is only valid in the headers.
  pub in_header : Serving dbl.Double → Answer → Answer
  in_header s act = if is_header s.client.state then act else some (ignored, s)

  pub by_key : Backend → Serving dbl.Double → List ℕ → Key → Answer
  by_key backend s value protocol_key = in_header s (meta_protocol s value)
  by_key backend s value domain_key =
      in_header s (found s (database_find backend.opened s.databases value))
  by_key backend s value start_time_key = in_header s (meta_start_time s value s.client.database)
  by_key backend s value sender_id_key =
      in_header s (meta_sender_id backend.add_sender_id s value s.client.database)
  by_key backend s value app_name_key = in_header s (meta_app_name s value)
  by_key backend s value schema_key = meta_schema backend.creates s value
  by_key backend s value content_key = in_header s (meta_content s value)
  by_key backend s value other_key = some (not_recognised, s)

  -- The value is cut at its final spaces first.
  unfoldable pub process_meta : Backend → Serving dbl.Double → List ℕ → List ℕ → Answer
  unfolding by_key in_header is_header meta_protocol known_version meta_content key_of chomp atoi
      same
  process_meta backend s key value = by_key backend s (take (chomp value) value) (key_of key)
