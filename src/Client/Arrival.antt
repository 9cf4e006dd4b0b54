-- ===== src/Client/Arrival.antt =====
-- A row that soml/lib/client/text_writer.c writes, at the server (soml/server/client_handler.c).
use semantic_oml.Base.{
  ℕ, ◌≡◌, List, [], ◌∷◌, ◌++◌, Option, some, All, All-weaken, false, refl, length, map, concat,
  arith, ap, ap₂, ◌+◌, ◌<◌, ◌^◌, ◌∙◌, ◌==◌, sym, get_elem?, append_assoc,
}
use semantic_oml.Base.Int.{ℤ, pos}
use semantic_oml.Mem.{Libc}
use semantic_oml.Numbers.{print_int, print_sint}
use semantic_oml.Numbers.RoundTrip.{atoi-print_int}
use semantic_oml.Numbers.Bits.{atoi-print_sint, print_int-IsNumeral, print_sint-IsNumeral}
use semantic_oml.Value.{Doubles, OmlValue, oml_value_get_type}
use semantic_oml.Value.Text.{oml_value_from_s, oml_value_ut_from_s}
use semantic_oml.Schema.{SchemaField, SchemaOf}
use semantic_oml.Server.Client.{Serving, c_text_data}
use semantic_oml.Server.Client.Slots.{HasSlots}
use semantic_oml.Server.Client.Meta.{Backend}
use semantic_oml.Server.Client.Headers.{newline, done}
use semantic_oml.Server.Client.Samples.{process_text_message}
use semantic_oml.Server.Client.Samples.Rows.{IsColumn, joined}
use semantic_oml.Server.Client.Samples.Insertion.{
  Row, Reads, IsRow, lines, sample_of, with_vectors, process_text_message-samples,
}
use semantic_oml.Client.TextWriter as W
use semantic_oml.Client.TextWriter.{
  column, plain, row_cols, print_all, finished, unsupported, outside, print, row_start_text,
}
use semantic_oml.Server.Client.Samples.{Sample, atof}
use semantic_oml.Client.TextWriter.Rows.{Texts, tabbed, row_cols_lem}
use semantic_oml.Client.TextWriter.Values.{
  IsClean, IsTextual, arrives, column-SentAs, numerals-IsClean,
}

clean-IsColumn : (a : List ℕ) → All IsClean a → IsColumn a
clean-IsColumn a h = (
  All-weaken IsClean (λ c. (c == 9) ≡ false) (λ c k. ground (arith, k.0)) a h,
  All-weaken IsClean (λ c. (c == 10) ≡ false) (λ c k. ground (arith, k.1)) a h,
  All-weaken IsClean (λ c. (c == 0) ≡ false) (λ c k. ground (arith, k.2)) a h,
)

-- Tabs in front of the texts are tabs between the columns.
joined-tabbed :
    (a : List ℕ) (ts : List (List ℕ)) (rest : List ℕ)
    → a ++ (concat (map (λ t. 9 ∷ t) ts) ++ rest) ≡ joined a ts ++ rest
joined-tabbed a [] rest = refl
joined-tabbed a (t ∷ ts) rest =
    ap (λ p. a ++ (9 ∷ p))
      (append_assoc t (concat (map (λ t. 9 ∷ t) ts)) rest ∙ joined-tabbed t ts rest)
    ∙ sym (append_assoc a (9 ∷ joined t ts) rest)

module _ (dbl : Doubles) (libc : Libc) where
  abbrev Value : Type 0
  Value = OmlValue dbl.Double

  -- A value of each field's type, which is sent as text.
  abbrev pub IsSendable : List SchemaField → List Value → Type 0
  IsSendable [] [] = Unit {0}
  IsSendable [] (v ∷ vs) = ⊥
  IsSendable (f ∷ fs) [] = ⊥
  IsSendable (f ∷ fs) (v ∷ vs) =
      (oml_value_get_type v ≡ f.type) × IsTextual dbl libc v × IsSendable fs vs

  abbrev Printed : List SchemaField → List Value → Type 0
  Printed fs vs =
      (ts : List (List ℕ)) × Texts dbl vs ts
      × All IsColumn ts
      × (length ts ≡ length vs)
      × Reads dbl libc fs ts (map (λ v. arrives dbl libc v) vs)

  printed_lem : (fs : List SchemaField) (vs : List Value) → IsSendable fs vs → Printed fs vs
  unfolding oml_value_from_s
  printed_lem [] [] h = ([], tt, tt, refl, tt)
  printed_lem [] (v ∷ vs) h = absurd h
  printed_lem (f ∷ fs) [] h = absurd h
  printed_lem (f ∷ fs) (v ∷ vs) (type, textual, h) =
      let sent = column-SentAs dbl libc v textual in
      let (ts, texts, clean, len, reads) = printed_lem fs vs h in
      (
        sent.text ∷ ts,
        (sent.printed, texts),
        (clean-IsColumn sent.text sent.clean, clean),
        omega (arith, len),
        (ap (λ t. oml_value_ut_from_s dbl libc t sent.text) (sym type) ∙ sent.read, reads),
      )

  -- The rows of a client: what owt_row_start() and owt_row_cols() are given, and the table that the
  -- client has declared with that index.
  pub record Measured : Type 0 where
    pub now : dbl.Double
    pub index : ℕ
    pub seq_no : ℕ
    pub values : List Value
    pub table : SchemaOf

  abbrev pub IsMeasured : List (Option SchemaOf) → Measured → Type 0
  IsMeasured tables m =
      All IsClean (dbl.print_f m.now)
      × (0 < m.index)
      × (m.index < 2 ^ 31)
      × (m.seq_no < 2 ^ 31)
      × (get_elem? tables m.index ≡ some (some m.table))
      × (length m.values + 3 < 30)
      × IsSendable m.table.fields m.values

  -- What is printed of a row's values.
  abbrev pub printed_bytes : W.Row → List ℕ
  printed_bytes finished = []
  printed_bytes unsupported = []
  printed_bytes outside = []
  printed_bytes (print t next) = t ++ printed_bytes next

  -- The texts of owt_row_start(), owt_row_cols() and owt_row_end().
  abbrev pub row_bytes : Measured → List ℕ → List ℕ
  row_bytes m rest =
      row_start_text dbl libc m.now (pos m.index) m.seq_no
      ++ (printed_bytes (row_cols dbl m.values (length m.values) 0) ++ (newline ∷ rest))

  abbrev pub stream : List Measured → List ℕ
  stream [] = []
  stream (m ∷ ms) = row_bytes m (stream ms)

  abbrev pub arrived : ℕ → Serving dbl.Double → Measured → Sample dbl.Double
  arrived d s m = record {
    database = d;
    table = m.table;
    sender_id = s.client.sender_id;
    seqno = pos m.seq_no;
    ts = dbl.add_time (atof dbl libc (dbl.print_f m.now)) s.client.time_offset;
    values = map (λ v. arrives dbl libc v) m.values;
  }

  printed_bytes-all :
      (ts : List (List ℕ))
      → printed_bytes (print_all (tabbed dbl ts) finished) ≡ concat (tabbed dbl ts)
  unfolding print_all
  printed_bytes-all [] = refl
  printed_bytes-all (t ∷ ts) = ap (λ p. 9 ∷ (t ++ p)) (printed_bytes-all ts)

  row_start_text_lem :
      (now : dbl.Double) (index : ℤ) (seq_no : ℕ) (rest : List ℕ)
      → row_start_text dbl libc now index seq_no ++ rest
        ≡ dbl.print_f now ++ (9 ∷ (print_int index ++ (9 ∷ (print_sint 64 seq_no ++ rest))))
  unfolding row_start_text
  row_start_text_lem now index seq_no rest =
      append_assoc (dbl.print_f now) (9 ∷ (print_int index ++ (9 ∷ print_sint 64 seq_no))) rest
      ∙ ap (λ p. dbl.print_f now ++ (9 ∷ p))
          (append_assoc (print_int index) (9 ∷ print_sint 64 seq_no) rest)

  row_lem :
      (tables : List (Option SchemaOf)) (m : Measured)
      → IsMeasured tables m
      → (r : Row dbl libc) × IsRow dbl libc tables r
        × ((d : ℕ) (s : Serving dbl.Double) → sample_of dbl libc d s r ≡ arrived d s m)
        × ((rest : List ℕ) → lines dbl libc (r ∷ []) rest ≡ row_bytes m rest)
  row_lem tables m (clean, positive, index, seqno, at, short, sendable) =
      let (ts, texts, columns, len, reads) = printed_lem m.table.fields m.values sendable in
      let time = dbl.print_f m.now in
      let i = print_int (pos m.index) in
      let n = print_sint 64 m.seq_no in
      (
        record {
          time = time;
          index_text = i;
          seqno_text = n;
          texts = ts;
          index = m.index;
          seqno = pos m.seq_no;
          table = m.table;
          values = map (λ v. arrives dbl libc v) m.values;
        },
        (
          (
            clean-IsColumn time clean,
            (
              clean-IsColumn i (numerals-IsClean i (print_int-IsNumeral m.index)),
              (clean-IsColumn n (numerals-IsClean n (print_sint-IsNumeral 64 m.seq_no)), columns),
            ),
          ),
          omega (arith, len, short),
          atoi-print_int m.index index,
          atoi-print_sint m.seq_no seqno,
          at,
          ground (arith, positive),
          reads,
        ),
        (λ d s. refl),
        λ rest. sym (
            row_start_text_lem m.now (pos m.index) m.seq_no
              (printed_bytes (row_cols dbl m.values (length m.values) 0) ++ (newline ∷ rest))
            ∙ ap (λ p. time ++ (9 ∷ (i ++ (9 ∷ (n ++ (p ++ (newline ∷ rest)))))))
                (ap printed_bytes (row_cols_lem dbl m.values ts texts) ∙ printed_bytes-all ts)
            ∙ ap (λ p. time ++ (9 ∷ (i ++ (9 ∷ p)))) (joined-tabbed n ts (newline ∷ rest))
            ∙ sym (
                append_assoc time (9 ∷ (i ++ (9 ∷ joined n ts))) (newline ∷ rest)
                ∙ ap (λ p. time ++ (9 ∷ p)) (append_assoc i (9 ∷ joined n ts) (newline ∷ rest)))),
      )

  rows_lem :
      (tables : List (Option SchemaOf)) (ms : List Measured)
      → All (IsMeasured tables) ms
      → (rs : List (Row dbl libc)) × All (IsRow dbl libc tables) rs
        × (length rs ≡ length ms)
        × ((d : ℕ) (s : Serving dbl.Double)
            → map (λ r. sample_of dbl libc d s r) rs ≡ map (λ m. arrived d s m) ms)
        × (lines dbl libc rs [] ≡ stream ms)
  rows_lem tables [] h = ([], tt, refl, (λ d s. refl), refl)
  rows_lem tables (m ∷ ms) (h, hs) =
      let (r, row, same, bytes) = row_lem tables m h in
      let (rs, rows, len, all_same, all_bytes) = rows_lem tables ms hs in
      (
        r ∷ rs,
        (row, rows),
        omega (arith, len),
        (λ d s. ap₂ (λ x xs. x ∷ xs) (same d s) (all_same d s)),
        bytes (lines dbl libc rs []) ∙ ap (row_bytes m) all_bytes,
      )

  -- Rows of streams but 0, whose values are no doubles, vectors, dates or unknown ones, are of the
  -- types of their tables' fields and less than 27 each, whose indices and sequence numbers an int
  -- can hold, and the text of whose time has no tab, newline or zero. The texts that
  -- owt_row_start(), owt_row_cols() and owt_row_end() print for them reach a client's handler in the
  -- state of text data, with a database, these tables, and a place in its arrays for each table. With
  -- more fuel than rows, process_text_message() then inserts a sample for each row, in their order,
  -- with the table and the sequence number of the row and its values as they arrive: the same, but
  -- for NULL strings and blobs, which are empty, and longs, which are clamped to 32 bits. Nothing is
  -- left over, and the arrays still have their places.
  pub process_text_message-stream :
      (backend : Backend) (s : Serving dbl.Double) (ms : List Measured) (fuel d : ℕ)
      → s.client.state ≡ c_text_data
      → s.client.database ≡ some d
      → HasSlots s.client
      → All (IsMeasured s.client.tables) ms
      → length ms < fuel
      → (vectors : List (List Value)) × (process_text_message dbl libc fuel backend s (stream ms)
          ≡ done (map (λ m. arrived d s m) ms, with_vectors dbl libc s vectors, []))
        × HasSlots (with_vectors dbl libc s vectors).client
  process_text_message-stream backend s ms fuel d state open_db h hs l =
      let (rs, rows, len, same, bytes) = rows_lem s.client.tables ms hs in
      let (vectors, p, k) =
        process_text_message-samples dbl libc backend rs fuel d s state open_db h rows
          (omega (arith, len, l)) in
      (
        vectors,
        ap (process_text_message dbl libc fuel backend s) (sym bytes)
            ∙ p
            ∙ ap (λ xs. done (xs, with_vectors dbl libc s vectors, [])) (same d s),
        k,
      )
