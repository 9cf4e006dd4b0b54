-- ===== src/Server/Client/Samples/Types.antt =====
-- What process_text_message() of soml/server/client_handler.c inserts for the bytes of a client.
use semantic_oml.Server.Lines.{is_empty, split_line}
use semantic_oml.Numbers.{atoi}
use semantic_oml.Base.Text.{codes, same}
use semantic_oml.Base.{
  true, false, ◌≤◌, arith, All, ◌+◌, ◌==◌, ◌<◌, suc, zero, ltb, ◌&&◌, Bool, Bool-cases, get_elem?,
  ◌-◌, subst, ℕ, ◌≡◌, List, [], ◌∷◌, Option, none, some, Option-cases, inl, inr, length, take,
}
use semantic_oml.Base.Int.{ℤ, pos, negsuc}
use semantic_oml.Mem.{Libc}
use semantic_oml.Mbuf.{Status, ok, fail}
use semantic_oml.Value.{Doubles, OmlValue, oml_value_get_type}
use semantic_oml.Value.Text.{oml_value_from_s, oml_value_set_type}
use semantic_oml.Value.Text.Types.{HasType, typed_from_lem}
use semantic_oml.Schema.{SchemaOf, SchemaField}
use semantic_oml.Server.Client.{set_elem, Serving}
use semantic_oml.Server.Client.Meta.{
  process_meta, Meta, Backend, processed, ignored, refused, not_recognised,
}
use semantic_oml.Server.Client.Headers.{done, fault, out_of_fuel, Run, read_line}
use semantic_oml.Server.Client.Headers.Cuts.{read_line-Shorter, Shorter}
use semantic_oml.Server.Client.Samples.{
  find_metadata_table, table_row, chomped, atof, Left, with_sample, row_at, is_text, root_row,
  process_text_data_message, metadata_row, indexed_row, counted_row, insert_values, flagged,
  after_meta, array_reset, discard, store_values, insert, Inserted, last_named, Sample, then_values,
  set_values, next_row, wiped_rest, text_row, text_line, process_text_message, until_zeros,
}

length-wiped_rest : (wiped : Bool) (rest : List ℕ) → length (wiped_rest wiped rest) ≤ length rest
unfolding wiped_rest
length-wiped_rest false rest = omega arith
length-wiped_rest true [] = omega arith
length-wiped_rest true (b ∷ rest) = omega arith

module _ (dbl : Doubles) (libc : Libc) where
  abbrev Value : Type 0
  Value = OmlValue dbl.Double

  -- One value for each field, of its type.
  abbrev pub Typed : List SchemaField → List Value → Type 0
  Typed [] [] = Unit {0}
  Typed [] (v ∷ vs) = ⊥
  Typed (f ∷ fs) [] = ⊥
  Typed (f ∷ fs) (v ∷ vs) = (oml_value_get_type v ≡ f.type) × Typed fs vs

  abbrev pub IsTyped : Sample dbl.Double → Type 0
  IsTyped x = Typed x.table.fields x.values

  -- What the loop over the fields leaves, where it has set them all.
  abbrev Sets : List SchemaField → Option (Status × List Value) → Type 0
  Sets fs none = Unit {0}
  Sets fs (some (fail, ws)) = Unit {0}
  Sets fs (some (ok, ws)) = Typed fs (take (length fs) ws)

  then_values_lem :
      (f : SchemaField) (fs : List SchemaField) (st : Status) (v : Value) (vs : List Value)
      (next : Option (Status × List Value))
      → oml_value_get_type v ≡ f.type
      → Sets fs next
      → Sets (f ∷ fs) (then_values dbl libc (st, v) vs next)
  unfolding then_values
  then_values_lem f fs fail v vs next e h = tt
  then_values_lem f fs ok v vs none e h = tt
  then_values_lem f fs ok v vs (some (fail, ws)) e h = tt
  then_values_lem f fs ok v vs (some (ok, ws)) e h = (e, h)

  set_values_lem :
      (fs : List SchemaField) (vs : List Value) (msg : List (List ℕ))
      → Sets fs (set_values dbl libc fs vs msg)
  unfolding set_values
  set_values_lem [] vs msg = tt
  set_values_lem (f ∷ fs) [] msg = tt
  set_values_lem (f ∷ fs) (v ∷ vs) [] = tt
  set_values_lem (f ∷ fs) (v ∷ vs) (t ∷ msg) =
      let r = oml_value_from_s dbl libc (oml_value_set_type dbl libc v f.type) t in
      let h = typed_from_lem dbl libc v f.type t in
      elim (Option-cases r) [
        | inl e ↦ rw e tt
        | inr ((st, w), e) ↦ rw e (
            then_values_lem f fs st w vs (set_values dbl libc fs vs msg)
              (subst (HasType dbl libc f.type) e h) (set_values_lem fs vs msg))
      ]

  abbrev Inserts : Inserted dbl libc → Type 0
  Inserts none = Unit {0}
  Inserts (some (none, wiped, s)) = Unit {0}
  Inserts (some (some x, wiped, s)) = IsTyped x

  flagged_lem :
      (wiped : Bool) (r : Inserted dbl libc) → Inserts r → Inserts (flagged dbl libc wiped r)
  unfolding flagged
  flagged_lem wiped none h = tt
  flagged_lem wiped (some (none, w, s)) h = tt
  flagged_lem wiped (some (some x, w, s)) h = h

  insert_lem :
      (s : Serving dbl.Double) (index : ℕ) (table : SchemaOf) (ts : dbl.Double) (seqno : ℤ)
      (count : ℕ) (r : Status × List Value)
      → count - 3 ≡ length table.fields
      → Sets table.fields (some r)
      → Inserts (insert dbl libc s index table ts seqno count r)
  unfolding insert discard
  insert_lem s index table ts seqno count (fail, ws) n h =
      elim (Option-cases (set_elem s.client.values_vectors index ws)) [
        | inl e ↦ rw e tt
        | inr (vectors, e) ↦ rw e tt
      ]
  insert_lem s index table ts seqno count (ok, ws) n h =
      elim (Option-cases (set_elem s.client.values_vectors index ws)) [
        | inl e ↦ rw e tt
        | inr (vectors, e) ↦ elim (Option-cases s.client.database) [
          | inl d ↦ rw (e, d) tt
          | inr (db, d) ↦ rw (e, d) (rw n h)
        ]
      ]

  store_values_lem :
      (s : Serving dbl.Double) (index : ℕ) (table : SchemaOf) (ts : dbl.Double) (seqno : ℤ)
      (msg : List (List ℕ)) (count : ℕ)
      → count - 3 ≡ length table.fields
      → Inserts (store_values dbl libc s index table ts seqno msg count)
  unfolding store_values
  store_values_lem s index table ts seqno msg count n =
      elim (Option-cases (get_elem? s.client.values_vectors index)) [
        | inl e ↦ rw e tt
        | inr (v, e) ↦ elim (Option-cases (array_reset dbl libc count v)) [
          | inl e' ↦ rw (e, e') tt
          | inr (vs, e') ↦ elim (Option-cases (set_values dbl libc table.fields vs msg)) [
            | inl e'' ↦ rw (e, e', e'') tt
            | inr (r, e'') ↦
                rw (e, e', e'')
                  (insert_lem s index table ts seqno count r n
                    (subst (Sets table.fields) e'' (set_values_lem table.fields vs msg)))
          ]
        ]
      ]

  insert_values_lem :
      (s : Serving dbl.Double) (index : ℕ) (table : SchemaOf) (ts : dbl.Double) (seqno : ℤ)
      (msg : List (List ℕ)) (count : ℕ)
      → count - 3 ≡ length table.fields
      → Inserts (insert_values dbl libc s index table ts seqno msg count)
  unfolding insert_values discard
  insert_values_lem s index table ts seqno msg count n =
      elim (Option-cases (get_elem? s.client.values_vector_counts index)) [
        | inl e ↦ rw e tt
        | inr (held, e) ↦ elim (Bool-cases (ltb held (length table.fields))) [
          | inl l ↦ rw (e, l) tt
          | inr l ↦ rw (e, l) (store_values_lem s index table ts seqno msg count n)
        ]
      ]

  -- What goes on with a row inserts well, whatever the client and the texts are.
  abbrev Goes : (Serving dbl.Double → List (List ℕ) → Inserted dbl libc) → Type 0
  Goes go_on = (s : Serving dbl.Double) (msg : List (List ℕ)) → Inserts (go_on s msg)

  after_meta_lem :
      (r : Option (Meta × Serving dbl.Double)) (go_on : Serving dbl.Double → Inserted dbl libc)
      → ((s : Serving dbl.Double) → Inserts (go_on s))
      → Inserts (after_meta dbl libc r go_on)
  unfolding after_meta discard
  after_meta_lem none go_on h = tt
  after_meta_lem (some (processed, s)) go_on h = tt
  after_meta_lem (some (ignored, s)) go_on h = tt
  after_meta_lem (some (refused, s)) go_on h = tt
  after_meta_lem (some (not_recognised, s)) go_on h = h s

  module _ (backend : Backend) where
    root_row_lem :
        (s : Serving dbl.Double) (ki vi : ℕ) (value : List ℕ) (msg : List (List ℕ))
        (go_on : Serving dbl.Double → List (List ℕ) → Inserted dbl libc)
        → Goes go_on
        → Inserts (root_row dbl libc backend s ki vi value msg go_on)
    unfolding root_row
    root_row_lem s ki vi value msg go_on h = elim (Option-cases (get_elem? (chomped msg vi) ki)) [
      | inl e ↦ rw e tt
      | inr (key, e) ↦
          let act = process_meta dbl backend s key value in
          let go : Serving dbl.Double → Inserted dbl libc = λ after. go_on after (chomped msg vi) in
          rw e (
            flagged_lem (is_empty value && (length msg == vi + 1)) (after_meta dbl libc act go)
              (after_meta_lem act go (λ after. h after (chomped msg vi))))
    ]

    metadata_row_lem :
        (s : Serving dbl.Double) (ki vi si : Option ℕ) (msg : List (List ℕ))
        (go_on : Serving dbl.Double → List (List ℕ) → Inserted dbl libc)
        → Goes go_on
        → Inserts (metadata_row dbl libc backend s ki vi si msg go_on)
    unfolding metadata_row discard
    metadata_row_lem s none vi si msg go_on h = tt
    metadata_row_lem s (some ki) none si msg go_on h = tt
    metadata_row_lem s (some ki) (some vi) none msg go_on h = tt
    metadata_row_lem s (some ki) (some vi) (some si) msg go_on h =
        elim (Option-cases (get_elem? msg si)) [
          | inl e ↦ rw e tt
          | inr (subject, e) ↦ elim (Option-cases (get_elem? msg vi)) [
            | inl e' ↦ rw (e, e') tt
            | inr (value, e') ↦ elim (Bool-cases (same (codes ".") subject)) [
              | inl c ↦ rw (e, e', c) (root_row_lem s ki vi value msg go_on h)
              | inr c ↦ rw (e, e', c) (h s msg)
            ]
          ]
        ]

    counted_row_lem :
        (index : ℕ) (ts : dbl.Double) (seqno : ℤ) (msg : List (List ℕ))
        (t : SchemaOf × Serving dbl.Double)
        → Inserts (counted_row dbl libc backend index ts seqno msg t)
    unfolding counted_row table_row discard
    counted_row_lem index ts seqno msg (table, s) =
        let count = length msg + 3 in
        elim (Bool-cases (length table.fields == length msg)) [
          | inr e ↦ rw e tt
          | inl e ↦
              let n : count - 3 ≡ length table.fields = ground (arith, e) in
              elim (Bool-cases (index == 0)) [
                | inl z ↦
                    rw (e, z)
                      (metadata_row_lem s (last_named table.fields (codes "key"))
                        (last_named table.fields (codes "value"))
                        (last_named table.fields (codes "subject")) msg
                        (λ after texts.
                          insert_values dbl libc after index table ts seqno texts count)
                        (λ after texts. insert_values_lem after index table ts seqno texts count n))
                | inr z ↦ rw (e, z) (insert_values_lem s index table ts seqno msg count n)
              ]
        ]

    indexed_row_lem :
        (s : Serving dbl.Double) (index : ℕ) (ts : dbl.Double) (seqno : ℤ) (msg : List (List ℕ))
        (t : Option SchemaOf)
        → Inserts (indexed_row dbl libc backend s index ts seqno msg t)
    unfolding indexed_row discard
    indexed_row_lem s index ts seqno msg (some table) =
        counted_row_lem index ts seqno msg (table, s)
    indexed_row_lem s index ts seqno msg none = elim (Bool-cases (index == 0)) [
      | inr z ↦ rw z tt
      | inl z ↦ elim (Option-cases (find_metadata_table dbl libc s)) [
        | inl e ↦ rw (z, e) tt
        | inr (t, e) ↦ rw (z, e) (counted_row_lem index ts seqno msg t)
      ]
    ]

    row_at_lem :
        (s : Serving dbl.Double) (ts : dbl.Double) (index seqno : ℤ) (msg : List (List ℕ))
        → Inserts (row_at dbl libc backend s ts index seqno msg)
    unfolding row_at discard
    row_at_lem s ts (negsuc n) seqno msg = tt
    row_at_lem s ts (pos index) seqno msg = elim (Bool-cases (ltb index s.client.table_count)) [
      | inr l ↦ rw l tt
      | inl l ↦ elim (Option-cases (get_elem? s.client.tables index)) [
        | inl e ↦ rw (l, e) tt
        | inr (t, e) ↦
            rw (l, e) (indexed_row_lem s index (dbl.add_time ts s.client.time_offset) seqno msg t)
      ]
    ]

    process_text_data_message_lem :
        (s : Serving dbl.Double) (msg : List (List ℕ))
        → Inserts (process_text_data_message dbl libc backend s msg)
    unfolding process_text_data_message discard
    process_text_data_message_lem s [] = tt
    process_text_data_message_lem s (a ∷ []) = tt
    process_text_data_message_lem s (a ∷ b ∷ []) = tt
    process_text_data_message_lem s (a ∷ b ∷ c ∷ msg) =
        row_at_lem s (atof dbl libc a) (atoi b) (atoi c) msg

    -- A loop that ends, or accesses memory that is not there, and inserts well until then.
    abbrev pub Ends : Run (Left dbl libc) → Type 0
    Ends (done (xs, s, rest)) = All IsTyped xs
    Ends fault = Unit {0}
    Ends out_of_fuel = ⊥

    with_sample_lem :
        (x : Option (Sample dbl.Double)) (s : Serving dbl.Double) (wiped : Bool)
        (r : Run (Left dbl libc))
        → Inserts (some (x, wiped, s))
        → Ends r
        → Ends (with_sample dbl libc x r)
    unfolding with_sample
    with_sample_lem none s wiped r h k = k
    with_sample_lem (some x) s wiped (done (xs, s', rest)) h k = (h, k)
    with_sample_lem (some x) s wiped fault h k = tt
    with_sample_lem (some x) s wiped out_of_fuel h k = k

    next_row_lem :
        (r : Inserted dbl libc) (rest : List ℕ)
        (again : Serving dbl.Double → List ℕ → Run (Left dbl libc))
        → Inserts r
        → ((s : Serving dbl.Double) (bytes : List ℕ)
            → length bytes ≤ length rest
            → Ends (again s bytes))
        → Ends (next_row dbl libc r rest again)
    unfolding next_row
    next_row_lem none rest again h k = tt
    next_row_lem (some (x, wiped, s)) rest again h k =
        with_sample_lem x s wiped (again s (wiped_rest wiped rest)) h
          (k s (wiped_rest wiped rest) (length-wiped_rest wiped rest))

    text_row_lem :
        (s : Serving dbl.Double) (a : Option (List (List ℕ))) (rest : List ℕ)
        (again : Serving dbl.Double → List ℕ → Run (Left dbl libc))
        → ((s : Serving dbl.Double) (bytes : List ℕ)
            → length bytes ≤ length rest
            → Ends (again s bytes))
        → Ends (text_row dbl libc backend s a rest again)
    unfolding text_row
    text_row_lem s none rest again k = tt
    text_row_lem s (some a) rest again k = elim (Bool-cases (ltb (length a) 3)) [
      | inl l ↦ rw l tt
      | inr l ↦
          let msg = until_zeros dbl libc a in
          rw l (
            next_row_lem (process_text_data_message dbl libc backend s msg) rest again
              (process_text_data_message_lem s msg) k)
    ]

    text_line_lem :
        (s : Serving dbl.Double) (bytes : List ℕ) (line : Option (List ℕ × List ℕ))
        (again : Serving dbl.Double → List ℕ → Run (Left dbl libc))
        → Shorter bytes line
        → ((s : Serving dbl.Double) (rest : List ℕ)
            → length rest < length bytes
            → Ends (again s rest))
        → Ends (text_line dbl libc backend s bytes line again)
    unfolding text_line
    text_line_lem s bytes none again h k = tt
    text_line_lem s bytes (some (line, rest)) again h k =
        text_row_lem s (split_line line) rest again
          (λ s' bytes' l. k s' bytes' (omega (arith, l, h)))

    -- process_text_message(), for any bytes, any client and open databases: with more fuel than bytes
    -- it ends or accesses memory that is not there. Where it ends, each sample that it has inserted has
    -- exactly one value for each field of its table, of the field's type.
    pub process_text_message_lem :
        (fuel : ℕ) (s : Serving dbl.Double) (bytes : List ℕ)
        → length bytes < fuel
        → Ends (process_text_message dbl libc fuel backend s bytes)
    unfolding process_text_message
    process_text_message_lem zero s bytes l = absurd (omega (arith, l))
    process_text_message_lem (suc fuel) s bytes l = elim (Bool-cases (is_text s.client.state)) [
      | inr e ↦ rw e tt
      | inl e ↦ rw e (
          text_line_lem s bytes (read_line bytes) (process_text_message dbl libc fuel backend)
            (read_line-Shorter bytes)
            (λ s' rest less. process_text_message_lem fuel s' rest (omega arith)))
    ]
