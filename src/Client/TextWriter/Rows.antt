-- ===== src/Client/TextWriter/Rows.antt =====
-- The columns that owt_row_cols() of soml/lib/client/text_writer.c prints for the values of a row.
use semantic_oml.Base.{
  append-nil, sym, length-append, ℕ, ◌+◌, ◌<◌, ◌≤◌, ◌≡◌, List, [], ◌∷◌, ◌++◌, length, map, arith,
  refl, ap, ◌∙◌, ltb, true,
}
use semantic_oml.Value.{Doubles, OmlValue}
use semantic_oml.Numbers.{print_uint}
use semantic_oml.Client.TextWriter.{
  tab, Row, print, finished, outside, print_all, column, plain, vector, print_column, row_cols,
}

module _ (dbl : Doubles) where
  abbrev Value : Type 0
  Value = OmlValue dbl.Double

  -- Each value is printed as one text.
  abbrev pub Texts : List Value → List (List ℕ) → Type 0
  Texts [] [] = Unit {0}
  Texts [] (t ∷ ts) = ⊥
  Texts (v ∷ vs) [] = ⊥
  Texts (v ∷ vs) (t ∷ ts) = (column dbl v ≡ plain t) × Texts vs ts

  abbrev pub tabbed : List (List ℕ) → List (List ℕ)
  tabbed ts = map (λ t. tab ∷ t) ts

  -- Up to a place, the loop counts the values.
  row_cols-append :
      (vs ws : List Value) (ts : List (List ℕ)) (n i : ℕ)
      → Texts vs ts
      → i + length vs ≤ n
      → row_cols dbl (vs ++ ws) n i ≡ print_all (tabbed ts) (row_cols dbl ws n (i + length vs))
  unfolding row_cols print_all print_column
  row_cols-append [] ws [] n i h l = ap (row_cols dbl ws n) (omega arith)
  row_cols-append [] ws (t ∷ ts) n i h l = absurd h
  row_cols-append (v ∷ vs) ws [] n i h l = absurd h
  row_cols-append (v ∷ vs) ws (t ∷ ts) n i (e, h) l =
      let room : ltb i n ≡ true = ground (arith, l) in
      let rest = row_cols-append vs ws ts n (i + 1) h (omega arith) in
      rw room (
        rw e (
          ap (print (tab ∷ t))
            (rest ∙ ap (λ k. print_all (tabbed ts) (row_cols dbl ws n k)) (omega arith))))

  row_cols_end :
      (n i : ℕ) → (i < n → row_cols dbl [] n i ≡ outside) × (n ≤ i → row_cols dbl [] n i ≡ finished)
  unfolding row_cols
  row_cols_end n i = ((λ l. ground (arith, l)), λ l. ground (arith, l))

  row_cols_stops : (ws : List Value) (n i : ℕ) → n ≤ i → row_cols dbl ws n i ≡ finished
  unfolding row_cols
  row_cols_stops [] n i l = ground (arith, l)
  row_cols_stops (w ∷ ws) n i l = ground (arith, l)

  row_cols-vector :
      (v : Value) (us : List Value) (ts : List (List ℕ)) (n i : ℕ)
      → column dbl v ≡ vector ts
      → i < n
      → row_cols dbl (v ∷ us) n i
        ≡ print (tab ∷ print_uint (length ts)) (print_all ts (row_cols dbl us n (length ts + 1)))
  unfolding row_cols print_column
  row_cols-vector v us ts n i e l =
      let room : ltb i n ≡ true = ground (arith, l) in rw room (rw e refl)

  -- Values that are each printed as one text, none of them a vector: owt_row_cols() prints the text of
  -- each behind a tab, in their order, and ends after the last.
  pub row_cols_lem :
      (vs : List Value) (ts : List (List ℕ))
      → Texts vs ts
      → row_cols dbl vs (length vs) 0 ≡ print_all (tabbed ts) finished
  row_cols_lem vs ts h =
      ap (λ l. row_cols dbl l (length vs) 0) (sym (append-nil vs))
      ∙ row_cols-append vs [] ts (length vs) 0 h (omega arith)
      ∙ ap (print_all (tabbed ts)) ((row_cols_end (length vs) (0 + length vs)).1 (omega arith))

  -- From a vector behind such values on.
  abbrev pub after : List (List ℕ) → List (List ℕ) → Row → Row
  after ts es next =
      print_all (tabbed ts) (print (tab ∷ print_uint (length es)) (print_all es next))

  row_cols-after :
      (vs : List Value) (ts : List (List ℕ)) (v : Value) (es : List (List ℕ)) (us : List Value)
      → Texts vs ts
      → column dbl v ≡ vector es
      → row_cols dbl (vs ++ (v ∷ us)) (length (vs ++ (v ∷ us))) 0
        ≡ after ts es (row_cols dbl us (length (vs ++ (v ∷ us))) (length es + 1))
  row_cols-after vs ts v es us h e =
      let n = length (vs ++ (v ∷ us)) in
      let len = length-append vs (v ∷ us) in
      row_cols-append vs (v ∷ us) ts n 0 h (omega (arith, len))
      ∙ ap (print_all (tabbed ts))
          (row_cols-vector v us es n (0 + length vs) e (omega (arith, len)))

  -- The last value is a vector with fewer elements than there are values in front of it, which are
  -- each printed as one text: after the vector, owt_row_cols() goes on to a value outside of the array.
  pub last_vector_outside :
      (vs : List Value) (ts : List (List ℕ)) (v : Value) (es : List (List ℕ))
      → Texts vs ts
      → column dbl v ≡ vector es
      → length es < length vs
      → row_cols dbl (vs ++ (v ∷ [])) (length (vs ++ (v ∷ []))) 0 ≡ after ts es outside
  last_vector_outside vs ts v es h e l =
      let n = length (vs ++ (v ∷ [])) in
      row_cols-after vs ts v es [] h e
      ∙ ap (after ts es)
          ((row_cols_end n (length es + 1)).0 (omega (arith, length-append vs (v ∷ []), l)))

  -- A vector with at least as many elements as there are other values, behind values that are each
  -- printed as one text: owt_row_cols() ends after the vector, and prints nothing of the values `us`
  -- behind it.
  pub vector_drops_rest :
      (vs : List Value) (ts : List (List ℕ)) (v : Value) (es : List (List ℕ)) (us : List Value)
      → Texts vs ts
      → column dbl v ≡ vector es
      → length vs + length us ≤ length es
      → row_cols dbl (vs ++ (v ∷ us)) (length (vs ++ (v ∷ us))) 0 ≡ after ts es finished
  vector_drops_rest vs ts v es us h e l =
      let n = length (vs ++ (v ∷ us)) in
      row_cols-after vs ts v es us h e
      ∙ ap (after ts es)
          (row_cols_stops us n (length es + 1) (omega (arith, length-append vs (v ∷ us), l)))
