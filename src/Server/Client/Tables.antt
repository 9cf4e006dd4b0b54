-- ===== src/Server/Client/Tables.antt =====
-- The table that process_schema() of soml/server/client_handler.c puts in its place, with room for its
-- values.
use semantic_oml.Base.Int.{negsuc, pos, ℤ}
use semantic_oml.Base.{
  ap, zero, ◌+◌, ◌^◌, suc, ◌⊎◌, Option, length-replicate, length-take, length-append, inr, sym, ◌∙◌,
  inl, ◌==◌, Bool-cases, false, ltb, ℕ, ◌-◌, ◌<◌, ◌≡◌, List, ◌++◌, some, length, get_elem?, take,
  arith, refl,
}
use semantic_oml.Value.{oml_value_init, Doubles, OmlValue}
use semantic_oml.Schema.{SchemaOf}
use semantic_oml.Server.Client.{
  int_suc, client_realloc_tables, with_room, with_table, oml_value_array_init, more_values,
  client_realloc_values, ClientHandler, set_table,
}
use semantic_oml.Server.Client.Slots.{client_realloc_tables_lem, Slots-set_elem, HasSlots}

module _ (dbl : Doubles) where
  -- The table is at its place, and all else of the connection is as it was.
  abbrev HasTable : ClientHandler dbl.Double → ℕ → SchemaOf → ClientHandler dbl.Double → Type 0
  HasTable self idx t after =
      HasSlots after
      × (get_elem? after.tables idx ≡ some (some t))
      × (length after.tables ≡ length self.tables)
      × (after.database ≡ self.database)
      × (after.state ≡ self.state)

  length-grown :
      (c : ℕ) (v : List (OmlValue dbl.Double)) (t : SchemaOf)
      → c ≡ length v
      → c < length t.fields
      → length t.fields ≡ length (take c v ++ oml_value_array_init dbl (length t.fields - c))
  length-grown c v t a l = omega (
    arith,
    length-append (take c v) (oml_value_array_init dbl (length t.fields - c)),
    length-take c v,
    length-replicate (length t.fields - c) (oml_value_init dbl),
  )

  -- set_table() from the vector that is there.
  set_table_lem :
      (self : ClientHandler dbl.Double) (idx : ℕ) (t : SchemaOf)
      → HasSlots self
      → idx < length self.tables
      → (after : ClientHandler dbl.Double) × (set_table dbl self (pos idx) t ≡ some after)
        × HasTable self idx t after
  unfolding set_table client_realloc_values more_values
  set_table_lem self idx t (n, h) l =
      let (v, c, ev, ec, a, b, ts', et, len, at, same, other) =
        Slots-set_elem self.tables self.values_vectors self.values_vector_counts idx (some t) h l in
      let o : ltb self.table_count idx ≡ false = ground (arith, n, l) in
      elim (Bool-cases (length t.fields == 0)) [
        | inl z ↦ (
          record self { tables = ts' },
          rw (et, o, z) refl,
          ((n ∙ sym len, same (ground (arith, z))), at, len, refl, refl),
        )
        | inr z ↦ elim (Bool-cases (ltb c (length t.fields))) [
          | inl g ↦
              let less : c < length t.fields = ground (arith, g) in
              let w = take c v ++ oml_value_array_init dbl (length t.fields - c) in
              let (vs', cs', ew, ed, k) =
                other w (length t.fields) (length-grown c v t a less, omega arith, omega arith) in
              (
                record self { tables = ts'; values_vectors = vs'; values_vector_counts = cs' },
                rw (et, o, z, ec, ev, ew, ed, g) refl,
                ((n ∙ sym len, k), at, len, refl, refl),
              )
          | inr g ↦ (
            record self { tables = ts' },
            rw (et, o, z, ec, g) refl,
            ((n ∙ sym len, same (ground (arith, g))), at, len, refl, refl),
          )
        ]
      ]

  -- The handler is as it was, or has the table at the place `idx`.
  abbrev pub Declared : ClientHandler dbl.Double → ℤ → SchemaOf → ClientHandler dbl.Double → Type 0
  Declared self idx t after =
      (after ≡ self)
      ⊎ ((k : ℕ) × (idx ≡ pos k)
          × (get_elem? after.tables k ≡ some (some t))
          × (after.database ≡ self.database)
          × (after.state ≡ self.state))

  pub Declared-database :
      (self after : ClientHandler dbl.Double) (idx : ℤ) (t : SchemaOf)
      → Declared self idx t after
      → after.database ≡ self.database
  Declared-database self after idx t (inl e) = ap (λ c. c.database) e
  Declared-database self after idx t (inr (_, _, _, d, _)) = d

  abbrev pub Room :
      ClientHandler dbl.Double → ℤ → SchemaOf → Option (ClientHandler dbl.Double) → Type 0
  Room self idx t result =
      (after : ClientHandler dbl.Double) × (result ≡ some after)
      × HasSlots after
      × Declared self idx t after

  pub with_table_lem :
      (self : ClientHandler dbl.Double) (idx : ℤ) (t : SchemaOf)
      → HasSlots self
      → Room self idx t (with_table dbl self idx (some t))
  unfolding with_table with_room client_realloc_tables int_suc
  with_table_lem self (negsuc zero) t h = (self, refl, h, inl refl)
  with_table_lem self (negsuc (suc n)) t h = (self, refl, h, inl refl)
  with_table_lem self (pos k) t h = elim (Bool-cases (k == 2 ^ 31 - 1)) [
    | inl e ↦ (self, rw e refl, h, inl refl)
    | inr e ↦
        let (big, eb, hb, lb, (_, _, _, db, st, _, _, _, _, _)) =
          client_realloc_tables_lem dbl self (k + 1) h (omega arith) in
        let (after, ea, (ha, at, _, da, sa)) = set_table_lem big k t hb (omega (arith, lb)) in
        (after, rw (e, eb) ea, ha, inr (k, refl, at, da ∙ db, sa ∙ st))
  ]
