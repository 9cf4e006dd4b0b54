-- ===== src/Server/Client/Samples/Insertion.antt =====
-- process_text_message() of soml/server/client_handler.c, for the rows of tables that the client has
-- declared.
use semantic_oml.Base.{
  get_elem?-length, ◌-◌, ap₂, ℕ, zero, suc, ◌≡◌, List, [], ◌∷◌, ◌++◌, Option, some, All, true,
  false, refl, length, arith, ap, ◌+◌, ◌≤◌, ◌<◌, ◌∙◌, ◌==◌, ltb, map, take, get_elem?,
}
use semantic_oml.Base.Int.{ℤ, pos}
use semantic_oml.Mem.{Libc}
use semantic_oml.Mbuf.{ok}
use semantic_oml.Numbers.{atoi}
use semantic_oml.Value.{oml_value_init, Doubles, OmlValue}
use semantic_oml.Value.Text.{oml_value_from_s, oml_value_ut_from_s, oml_value_set_type}
use semantic_oml.Value.Text.Types.{oml_value_set_type_lem}
use semantic_oml.Schema.{SchemaField, SchemaOf}
use semantic_oml.Server.Client.{oml_value_init, Serving, c_text_data}
use semantic_oml.Server.Client.Slots.{Slots-Storable, HasSlots}
use semantic_oml.Server.Client.Meta.{Backend}
use semantic_oml.Server.Client.Headers.{read_line, newline, Run, done}
use semantic_oml.Server.Client.Headers.Lines.{read_line-nil, until_zero-all, read_line-append}
use semantic_oml.Server.Lines.{def_num_values}
use semantic_oml.Server.Client.Samples.{
  Left, wiped_rest, next_row, is_text, with_sample, text_row, text_line, table_row, counted_row,
  insert, indexed_row, store_values, row_at, process_text_data_message, insert_values, Inserted,
  Sample, array_reset, set_values, then_values, until_zeros, atof, process_text_message,
}
use semantic_oml.Server.Client.Samples.Rows.{IsColumn, joined, split_line-joined, newline-joined}

module _ (dbl : Doubles) (libc : Libc) where
  abbrev Value : Type 0
  Value = OmlValue dbl.Double

  -- A row: its columns, and what they stand for.
  pub record Row : Type 0 where
    pub time : List ℕ
    pub index_text : List ℕ
    pub seqno_text : List ℕ
    pub texts : List (List ℕ)
    pub index : ℕ
    pub seqno : ℤ
    pub table : SchemaOf
    pub values : List Value

  -- Each text is read as a value of its field's type, without an error.
  abbrev pub Reads : List SchemaField → List (List ℕ) → List Value → Type 0
  Reads [] [] [] = Unit {0}
  Reads (f ∷ fs) (t ∷ ts) (w ∷ ws) =
      (oml_value_ut_from_s dbl libc f.type t ≡ some (ok, w)) × Reads fs ts ws
  Reads fs ts ws = ⊥

  -- A row for a table that the client has, but for the one of stream 0, with less than 30 columns.
  abbrev pub IsRow : List (Option SchemaOf) → Row → Type 0
  IsRow tables r =
      All IsColumn (r.time ∷ r.index_text ∷ r.seqno_text ∷ r.texts)
      × (length r.texts + 3 < def_num_values)
      × (atoi r.index_text ≡ pos r.index)
      × (atoi r.seqno_text ≡ r.seqno)
      × (get_elem? tables r.index ≡ some (some r.table))
      × ((r.index == 0) ≡ false)
      × Reads r.table.fields r.texts r.values

  abbrev pub lines : List Row → List ℕ → List ℕ
  lines [] rest = rest
  lines (r ∷ rs) rest =
      joined r.time (r.index_text ∷ r.seqno_text ∷ r.texts) ++ (newline ∷ lines rs rest)

  -- What is inserted for a row.
  abbrev pub sample_of : ℕ → Serving dbl.Double → Row → Sample dbl.Double
  sample_of d s r = record {
    database = d;
    table = r.table;
    sender_id = s.client.sender_id;
    seqno = r.seqno;
    ts = dbl.add_time (atof dbl libc r.time) s.client.time_offset;
    values = r.values;
  }

  abbrev pub with_vectors : Serving dbl.Double → List (List Value) → Serving dbl.Double
  with_vectors s vectors = record s { client = record s.client { values_vectors = vectors } }

  until_zeros_lem : (l : List (List ℕ)) → All IsColumn l → until_zeros dbl libc l ≡ l
  unfolding until_zeros
  until_zeros_lem [] h = refl
  until_zeros_lem (a ∷ l) ((_, _, z), h) =
      ap₂ (λ x y. x ∷ y) (until_zero-all a z) (until_zeros_lem l h)

  length-Reads :
      (fs : List SchemaField) (ts : List (List ℕ)) (ws : List Value)
      → Reads fs ts ws
      → (length fs ≡ length ts) × (length ws ≡ length ts)
  length-Reads [] [] [] h = (refl, refl)
  length-Reads [] [] (w ∷ ws) h = absurd h
  length-Reads [] (t ∷ ts) ws h = absurd h
  length-Reads (f ∷ fs) [] ws h = absurd h
  length-Reads (f ∷ fs) (t ∷ ts) [] h = absurd h
  length-Reads (f ∷ fs) (t ∷ ts) (w ∷ ws) (_, h) =
      let (a, b) = length-Reads fs ts ws h in (omega (arith, a), omega (arith, b))

  array_reset_lem :
      (n : ℕ) (vs : List Value)
      → n ≤ length vs
      → (ws : List Value) × (array_reset dbl libc n vs ≡ some ws) × (length ws ≡ length vs)
  unfolding array_reset
  array_reset_lem zero vs l = (vs, refl, refl)
  array_reset_lem (suc n) [] l = absurd (omega (arith, l))
  array_reset_lem (suc n) (v ∷ vs) l =
      let (ws, e, k) = array_reset_lem n vs (omega (arith, l)) in
      (oml_value_init dbl ∷ ws, rw e refl, omega (arith, k))

  from_set_type :
      (v w : Value) (f : SchemaField) (t : List ℕ)
      → oml_value_ut_from_s dbl libc f.type t ≡ some (ok, w)
      → oml_value_from_s dbl libc (oml_value_set_type dbl libc v f.type) t ≡ some (ok, w)
  unfolding oml_value_from_s
  from_set_type v w f t e =
      ap (λ type. oml_value_ut_from_s dbl libc type t) (oml_value_set_type_lem dbl libc v f.type)
      ∙ e

  abbrev Set : List SchemaField → List Value → List (List ℕ) → List Value → Type 0
  Set fs vs ts ws =
      (us : List Value) × (set_values dbl libc fs vs ts ≡ some (ok, us))
      × (length us ≡ length vs)
      × (take (length fs) us ≡ ws)

  set_values_lem :
      (fs : List SchemaField) (vs : List Value) (ts : List (List ℕ)) (ws : List Value)
      → Reads fs ts ws
      → length fs ≤ length vs
      → Set fs vs ts ws
  unfolding set_values then_values
  set_values_lem [] vs [] [] h l = (vs, refl, refl, refl)
  set_values_lem [] vs [] (w ∷ ws) h l = absurd h
  set_values_lem [] vs (t ∷ ts) ws h l = absurd h
  set_values_lem (f ∷ fs) [] ts ws h l = absurd (omega (arith, l))
  set_values_lem (f ∷ fs) (v ∷ vs) [] ws h l = absurd h
  set_values_lem (f ∷ fs) (v ∷ vs) (t ∷ ts) [] h l = absurd h
  set_values_lem (f ∷ fs) (v ∷ vs) (t ∷ ts) (w ∷ ws) (e, h) l =
      let (us, p, len, same) = set_values_lem fs vs ts ws h (omega (arith, l)) in
      (w ∷ us, rw (from_set_type v w f t e, p) refl, omega (arith, len), ap (λ x. w ∷ x) same)

  -- One row is stored in the vector of its table.
  abbrev Stored : ℕ → Serving dbl.Double → Row → Inserted dbl libc → Type 0
  Stored d s r result =
      (vectors : List (List Value)) × (result
        ≡ some (some (sample_of d s r), false, with_vectors s vectors))
      × HasSlots (with_vectors s vectors).client

  module _ (d : ℕ) (s : Serving dbl.Double) (r : Row) where
    insert_values_lem :
        s.client.database ≡ some d
        → HasSlots s.client
        → IsRow s.client.tables r
        → Stored d s r (
            insert_values dbl libc s r.index r.table
              (dbl.add_time (atof dbl libc r.time) s.client.time_offset)
              r.seqno
              r.texts
              (length r.texts + 3))
    unfolding insert_values store_values insert
    insert_values_lem open_db (n, h) (_, short, _, _, at, _, reads) =
        let (v, c, ev, ec, a, b, f, other) =
          Slots-Storable s.client.tables s.client.values_vectors s.client.values_vector_counts
            r.index (some r.table) h at in
        let (lf, lw) = length-Reads r.table.fields r.texts r.values reads in
        let (clean, er, lr) = array_reset_lem (length r.texts + 3) v (omega (arith, a, b, short)) in
        let (us, es, lu, same) =
          set_values_lem r.table.fields clean r.texts r.values reads (omega (arith, a, f, lr)) in
        let (vectors, p, k) = other us (omega (arith, lu, lr)) in
        let room : ltb c (length r.table.fields) ≡ false = ground (arith, f) in
        let count : length r.texts + 3 - 3 ≡ length r.table.fields = omega (arith, lf) in
        (vectors, rw (ec, room, ev, er, es, p, open_db, count, same) refl, (n, k))

    process_text_data_message_lem :
        (backend : Backend)
        → s.client.database ≡ some d
        → HasSlots s.client
        → IsRow s.client.tables r
        → Stored d s r (
            process_text_data_message dbl libc backend s
              (r.time ∷ r.index_text ∷ r.seqno_text ∷ r.texts))
    unfolding process_text_data_message row_at indexed_row counted_row table_row
    process_text_data_message_lem backend open_db (n, h) row =
        let (_, short, index, seqno, at, high, reads) = row in
        let (vectors, p, k) = insert_values_lem open_db (n, h) row in
        let lf = (length-Reads r.table.fields r.texts r.values reads).0 in
        let counts : (length r.table.fields == length r.texts) ≡ true = ground (arith, lf) in
        let known : ltb r.index s.client.table_count ≡ true =
          ground (arith, n, get_elem?-length s.client.tables r.index (some r.table) at) in
        (vectors, rw (index, seqno, known, at, counts, high) p, k)

  module _ (backend : Backend) where
    round_lem :
        (fuel : ℕ) (s : Serving dbl.Double) (bytes : List ℕ)
        → is_text s.client.state ≡ true
        → process_text_message dbl libc (suc fuel) backend s bytes
          ≡ text_line dbl libc backend s bytes
              (read_line bytes)
              (process_text_message dbl libc fuel backend)
    unfolding process_text_message
    round_lem fuel s bytes e = rw e refl

    enough_columns :
        (s : Serving dbl.Double) (a b c : List ℕ) (l : List (List ℕ)) (rest : List ℕ)
        (again : Serving dbl.Double → List ℕ → Run (Left dbl libc))
        → text_row dbl libc backend s (some (a ∷ b ∷ c ∷ l)) rest again
          ≡ next_row dbl libc
              (process_text_data_message dbl libc backend s (until_zeros dbl libc (a ∷ b ∷ c ∷ l)))
              rest
              again
    unfolding text_row
    enough_columns s a b c l rest again =
        let enough : ltb (length (a ∷ b ∷ c ∷ l)) 3 ≡ false = ground arith in rw enough refl

    -- One round of the loop.
    one_row :
        (fuel d : ℕ) (s : Serving dbl.Double) (r : Row) (rest : List ℕ)
        → s.client.state ≡ c_text_data
        → s.client.database ≡ some d
        → HasSlots s.client
        → IsRow s.client.tables r
        → (vectors : List (List Value)) × (process_text_message dbl libc
              (suc fuel)
              backend
              s
              (lines (r ∷ []) rest)
            ≡ with_sample dbl libc
                (some (sample_of d s r))
                (process_text_message dbl libc fuel backend (with_vectors s vectors) rest))
          × HasSlots (with_vectors s vectors).client
    unfolding text_line next_row wiped_rest is_text
    one_row fuel d s r rest state open_db h row =
        let (vectors, p, k) = process_text_data_message_lem d s r backend open_db h row in
        let columns = r.time ∷ r.index_text ∷ r.seqno_text ∷ r.texts in
        let line = joined r.time (r.index_text ∷ r.seqno_text ∷ r.texts) in
        let again = process_text_message dbl libc fuel backend in
        (
          vectors,
          round_lem fuel s (lines (r ∷ []) rest) (ap is_text state)
              ∙ ap (λ o. text_line dbl libc backend s (lines (r ∷ []) rest) o again)
                  (read_line-append line rest
                    (newline-joined r.time (r.index_text ∷ r.seqno_text ∷ r.texts) row.0.0 row.0.1))
              ∙ ap (λ o. text_row dbl libc backend s o rest again)
                  (split_line-joined r.time r.index_text (r.seqno_text ∷ r.texts) row.0
                    (omega (arith, row.1)))
              ∙ enough_columns s r.time r.index_text r.seqno_text r.texts rest again
              ∙ ap
                  (λ l.
                    next_row dbl libc (process_text_data_message dbl libc backend s l) rest again)
                  (until_zeros_lem columns row.0)
              ∙ ap (λ x. next_row dbl libc x rest again) p,
          k,
        )

    -- A client in the state of text data, with a database and a place for each of its tables, sends
    -- rows, each with a text for every field of its table, which is read without an error, and fewer
    -- than 30 columns. With more fuel than rows, process_text_message() inserts a sample for each of them, in their
    -- order: the values that are read, under the client's sender, the table and the sequence number that the row names, and the row's
    -- time moved by the client's offset. It ends with nothing left, and changes only the vectors, which still have room for each table.
    pub process_text_message-samples :
        (rows : List Row) (fuel d : ℕ) (s : Serving dbl.Double)
        → s.client.state ≡ c_text_data
        → s.client.database ≡ some d
        → HasSlots s.client
        → All (IsRow s.client.tables) rows
        → length rows < fuel
        → (vectors : List (List Value)) × (process_text_message dbl libc fuel backend s
              (lines rows [])
            ≡ done (map (sample_of d s) rows, with_vectors s vectors, []))
          × HasSlots (with_vectors s vectors).client
    unfolding text_line with_sample is_text
    process_text_message-samples rows zero d s state open_db h all l = absurd (omega (arith, l))
    process_text_message-samples [] (suc fuel) d s state open_db h all l = (
      s.client.values_vectors,
      round_lem fuel s [] (ap is_text state)
          ∙ ap (λ o. text_line dbl libc backend s [] o (process_text_message dbl libc fuel backend))
              read_line-nil,
      h,
    )
    process_text_message-samples (r ∷ rows) (suc fuel) d s state open_db h (row, all) l =
        let (vectors, p, k) = one_row fuel d s r (lines rows []) state open_db h row in
        let (last, q, k') =
          process_text_message-samples rows fuel d (with_vectors s vectors) state open_db k all
            (omega (arith, l)) in
        (last, p ∙ ap (with_sample dbl libc (some (sample_of d s r))) q, k')
