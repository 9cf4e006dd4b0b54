-- ===== src/Server/Client/Meta/States.antt =====
-- The states of a client's handler under process_meta() of soml/server/client_handler.c.
use semantic_oml.Base.{ℕ, ◌≡◌, ◌≢◌, inl, inr, List, none, Bool, take, refl, Option-cases}
use semantic_oml.Strings.{chomp}
use semantic_oml.Value.{Doubles}
use semantic_oml.Schema.{SchemaOf, schema_from_meta}
use semantic_oml.Server.Client.{Serving}
use semantic_oml.Server.Client.Declares.{Outcome-state, IsServing, process_schema_lem}
use semantic_oml.Server.Client.Meta.Opened.{database_find-IsOpen}
use semantic_oml.Server.Client.Meta.Keys.{
  Answers, in_header_lem, protocol_lem, found_lem, start_time_lem, sender_id_lem, app_name_lem,
  content_lem,
}
use semantic_oml.Server.Client.Meta.{
  protocol_key, domain_key, start_time_key, sender_id_key, app_name_key, content_key, database_find,
  by_key, meta_schema, meta_start_time, meta_sender_id, meta_protocol, meta_content, meta_app_name,
  found, Backend, processed, not_recognised, Key, schema_key, other_key, key_of, process_meta,
}

module _ (dbl : Doubles) where
  schema_lem :
      (creates : SchemaOf → Bool) (s : Serving dbl.Double) (value : List ℕ)
      → IsServing dbl s
      → schema_from_meta value ≢ none
      → Answers dbl s schema_key (meta_schema dbl creates s value)
  unfolding meta_schema
  schema_lem creates s value h ne = elim (Option-cases (schema_from_meta value)) [
    | inl e ↦ absurd (ne e)
    | inr (r, e) ↦
        let (after, p, k, o) = process_schema_lem dbl creates s value r h e in
        (processed, after, rw p refl, (k, inr refl, Outcome-state dbl s r after o))
  ]

  by_key_lem :
      (backend : Backend) (s : Serving dbl.Double) (value : List ℕ) (key : Key)
      → IsServing dbl s
      → (key ≡ schema_key → schema_from_meta value ≢ none)
      → Answers dbl s key (by_key dbl backend s value key)
  unfolding by_key
  by_key_lem backend s value protocol_key h ne =
      in_header_lem dbl s protocol_key (meta_protocol dbl s value)
        (protocol_lem dbl s value protocol_key h)
  by_key_lem backend s value domain_key h ne =
      in_header_lem dbl s domain_key (found dbl s (database_find backend.opened s.databases value))
        (λ e.
          found_lem dbl s (database_find backend.opened s.databases value) domain_key h e
            (database_find-IsOpen backend.opened s.databases value))
  by_key_lem backend s value start_time_key h ne =
      in_header_lem dbl s start_time_key (meta_start_time dbl s value s.client.database)
        (λ e. start_time_lem dbl s value start_time_key s.client.database h e refl)
  by_key_lem backend s value sender_id_key h ne =
      in_header_lem dbl s sender_id_key
        (meta_sender_id dbl backend.add_sender_id s value s.client.database)
        (sender_id_lem dbl backend.add_sender_id s value sender_id_key s.client.database h)
  by_key_lem backend s value app_name_key h ne =
      in_header_lem dbl s app_name_key (meta_app_name dbl s value)
        (app_name_lem dbl s value app_name_key h)
  by_key_lem backend s value schema_key h ne = schema_lem backend.creates s value h (ne refl)
  by_key_lem backend s value content_key h ne =
      in_header_lem dbl s content_key (meta_content dbl s value)
        (content_lem dbl s value content_key h)
  by_key_lem backend s value other_key h ne = (not_recognised, s, refl, (refl, refl))

  -- process_meta() of a key and a value, where the value of a schema is one that schema_from_meta()
  -- reads, stays within the client's arrays and the open databases. A key it accepts keeps the client
  -- well-formed, and its state, unless the protocol error is set. It refuses a key only in the
  -- headers, and sets the protocol error. Outside of the headers, no key but a schema changes
  -- anything. Only a key that it does not know is given back as one.
  pub process_meta_lem :
      (backend : Backend) (s : Serving dbl.Double) (key value : List ℕ)
      → IsServing dbl s
      → (key_of key ≡ schema_key → schema_from_meta (take (chomp value) value) ≢ none)
      → Answers dbl s (key_of key) (process_meta dbl backend s key value)
  unfolding process_meta
  process_meta_lem backend s key value =
      by_key_lem backend s (take (chomp value) value) (key_of key)
