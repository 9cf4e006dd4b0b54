-- ===== src/Server/Client/Declares.antt =====
-- process_schema() of soml/server/client_handler.c: what a schema that a client declares does to its
-- handler and to the databases.
use semantic_oml.Server.Database.Tables.{database_find_or_create_table_lem, Given, Serves}
use semantic_oml.Server.Database.{database_find_or_create_table, Database}
use semantic_oml.Base.{
  ap, subst, Bool, true, ◌⊎◌, none, Option, inr, ◌∙◌, inl, Bool-cases, ℕ, ◌≡◌, List, some,
  get_elem?, arith, refl,
}
use semantic_oml.Value.{Doubles}
use semantic_oml.Schema.{schema_from_meta, SchemaOf}
use semantic_oml.Server.Client.{
  c_protocol_error, database_find_or_create_table, process_schema, parsed_schema, define_schema,
  stored_schema, validate_schema_names, protocol_error, failed, with_table, Serving,
}
use semantic_oml.Server.Client.Tables.{Declared, Declared-database, with_table_lem}
use semantic_oml.Server.Client.Slots.{set_elem_lem, HasSlots}

module _ (dbl : Doubles) where
  -- A client whose handler has a place for each table, and whose database is NULL or open.
  abbrev pub IsServing : Serving dbl.Double → Type 0
  IsServing s =
      HasSlots s.client
      × ((s.client.database ≡ none)
          ⊎ ((i : ℕ) × (db : Database) × (s.client.database ≡ some i)
              × (get_elem? s.databases i ≡ some db)))

  -- What process_schema() does with a schema: the protocol error, for a wrong name, no database or no
  -- table, or the table in its place.
  abbrev pub Outcome : Serving dbl.Double → Option SchemaOf → Serving dbl.Double → Type 0
  Outcome s none after = after ≡ failed dbl s
  Outcome s (some schema) after =
      (after.client ≡ protocol_error dbl s.client)
      ⊎ ((t : SchemaOf) × (validate_schema_names schema ≡ true)
          × Serves schema 1 t
          × Declared dbl s.client schema.index t after.client)

  pub Outcome-state :
      (s : Serving dbl.Double) (r : Option SchemaOf) (after : Serving dbl.Double)
      → Outcome s r after
      → (after.client.state ≡ s.client.state) ⊎ (after.client.state ≡ c_protocol_error)
  unfolding failed protocol_error
  Outcome-state s none after e = inr (ap (λ x. x.client.state) e)
  Outcome-state s (some schema) after (inl e) = inr (ap (λ x. x.state) e)
  Outcome-state s (some schema) after (inr (_, _, _, inl e)) = inl (ap (λ x. x.state) e)
  Outcome-state s (some schema) after (inr (_, _, _, inr (_, _, _, _, e))) = inl e

  module _ (creates : SchemaOf → Bool) where
    abbrev pub Result : Serving dbl.Double → Option SchemaOf → Option (Serving dbl.Double) → Type 0
    Result s r result =
        (after : Serving dbl.Double) × (result ≡ some after) × IsServing after × Outcome s r after

    stored_schema_lem :
        (s : Serving dbl.Double) (schema : SchemaOf) (i : ℕ) (db : Database)
        (r : Option SchemaOf × Database)
        → IsServing s
        → s.client.database ≡ some i
        → get_elem? s.databases i ≡ some db
        → validate_schema_names schema ≡ true
        → Given db schema r
        → Result s (some schema) (stored_schema dbl s schema.index i r)
    unfolding stored_schema with_table protocol_error
    stored_schema_lem s schema i db (none, new) (h, _) e at v given =
        let (dbs', p, g) = set_elem_lem s.databases i db new at in
        (
          record { databases = dbs'; client = protocol_error dbl s.client },
          rw p refl,
          (h, inr (i, new, e, g)),
          inl refl,
        )
    stored_schema_lem s schema i db (some t, new) (h, _) e at v (_, serves, _) =
        let (dbs', p, g) = set_elem_lem s.databases i db new at in
        let (after, q, k, d) = with_table_lem dbl s.client schema.index t h in
        (
          record { databases = dbs'; client = after },
          rw (p, q) refl,
          (k, inr (i, new, Declared-database dbl s.client after schema.index t d ∙ e, g)),
          inr (t, v, serves, d),
        )

    define_schema_lem :
        (s : Serving dbl.Double) (schema : SchemaOf) (d : Option ℕ)
        → IsServing s
        → s.client.database ≡ d
        → validate_schema_names schema ≡ true
        → Result s (some schema) (define_schema dbl creates s schema d)
    unfolding define_schema failed protocol_error
    define_schema_lem s schema none h e v = (failed dbl s, refl, h, inl refl)
    define_schema_lem s schema (some i) (h, inl z) e v = absurd (ground (arith, z, e))
    define_schema_lem s schema (some i) (h, inr (j, db, at, found)) e v =
        let same : j ≡ i = ground (arith, at, e) in
        let at' : get_elem? s.databases i ≡ some db =
          subst (λ k. get_elem? s.databases k ≡ some db) same found in
        let (after, p, k, rest) =
          stored_schema_lem s schema i db (database_find_or_create_table creates db schema)
            (h, inr (j, db, at, found)) e at' v
            (database_find_or_create_table_lem creates db schema) in
        (after, rw at' p, k, rest)

    parsed_schema_lem :
        (s : Serving dbl.Double) (r : Option SchemaOf)
        → IsServing s
        → Result s r (parsed_schema dbl creates s (some r))
    unfolding parsed_schema failed protocol_error
    parsed_schema_lem s none h = (failed dbl s, refl, h, refl)
    parsed_schema_lem s (some schema) h = elim (Bool-cases (validate_schema_names schema)) [
      | inl v ↦
          let (after, p, k, rest) = define_schema_lem s schema s.client.database h refl v in
          (after, rw v p, k, rest)
      | inr v ↦ (failed dbl s, rw v refl, h, inl refl)
    ]

    -- process_schema() of a text that schema_from_meta() reads stays within the client's arrays and
    -- keeps a place with enough room for each of its tables. If the text is no schema, the client is
    -- left in the state of a protocol error. Otherwise it is left in that state, or the schema's names
    -- are valid and the handler either is as it was or has, at the schema's index, a table of the
    -- schema's fields.
    pub process_schema_lem :
        (s : Serving dbl.Double) (value : List ℕ) (r : Option SchemaOf)
        → IsServing s
        → schema_from_meta value ≡ some r
        → Result s r (process_schema dbl creates s value)
    unfolding process_schema
    process_schema_lem s value r h e = rw e (parsed_schema_lem s r h)
