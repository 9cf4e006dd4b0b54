-- ===== src/Server/Client/Slots.antt =====
-- The arrays of a client's handler (soml/server/client_handler.c): one place for each table, with room
-- for the values of its schema.
use semantic_oml.Value.{oml_value_init, Doubles}
use semantic_oml.Base.{
  sym, some_eq, subst, ap, ◌∙◌, ◌+◌, take-append_left, take-all, inr, ◌-◌, inl, ltb, Bool-cases,
  take, length-replicate, length-append, ℕ, zero, suc, ◌≤◌, ◌<◌, ◌≡◌, List, [], ◌∷◌, ◌++◌, Option,
  none, some, length, get_elem?, replicate, arith, refl,
}
use semantic_oml.Schema.{SchemaOf}
use semantic_oml.Server.Database.{Database}
use semantic_oml.Server.Lines.{def_num_values}
use semantic_oml.Server.Client.{
  oml_value_init, oml_value_array_init, ok, pos, more_tables, client_realloc_tables, Doubles,
  ClientHandler, set_elem,
}

abbrev pub Fits : Option SchemaOf → ℕ → Type 0
Fits none n = Unit {0}
Fits (some t) n = length t.fields ≤ n

module _ {A : Type 0} where
  -- One place of the three arrays: room for as many values as a line of text may have, and for the
  -- fields of the table that is there.
  abbrev pub Slot : Option SchemaOf → List A → ℕ → Type 0
  Slot t v c = (c ≡ length v) × (def_num_values ≤ c) × Fits t c

  abbrev pub Slots : List (Option SchemaOf) → List (List A) → List ℕ → Type 0
  Slots [] [] [] = Unit {0}
  Slots [] [] (c ∷ cs) = ⊥
  Slots [] (v ∷ vs) cs = ⊥
  Slots (t ∷ ts) [] cs = ⊥
  Slots (t ∷ ts) (v ∷ vs) [] = ⊥
  Slots (t ∷ ts) (v ∷ vs) (c ∷ cs) = Slot t v c × Slots ts vs cs

  pub Slots-append :
      (ts us : List (Option SchemaOf)) (vs ws : List (List A)) (cs ds : List ℕ)
      → Slots ts vs cs
      → Slots us ws ds
      → Slots (ts ++ us) (vs ++ ws) (cs ++ ds)
  Slots-append [] us [] ws [] ds h k = k
  Slots-append [] us [] ws (c ∷ cs) ds h k = absurd h
  Slots-append [] us (v ∷ vs) ws cs ds h k = absurd h
  Slots-append (t ∷ ts) us [] ws cs ds h k = absurd h
  Slots-append (t ∷ ts) us (v ∷ vs) ws [] ds h k = absurd h
  Slots-append (t ∷ ts) us (v ∷ vs) ws (c ∷ cs) ds (s, h) k =
      (s, Slots-append ts us vs ws cs ds h k)

  pub Slots-replicate :
      (n : ℕ) (a : A)
      → Slots
          (replicate n none)
          (replicate n (replicate def_num_values a))
          (replicate n def_num_values)
  Slots-replicate zero a = tt
  Slots-replicate (suc n) a = ((refl, omega arith, tt), Slots-replicate n a)

  -- What is at a place, and that another slot may take it.
  abbrev pub Replaceable :
      List (Option SchemaOf) → List (List A) → List ℕ → ℕ → Option SchemaOf → Type 0
  Replaceable ts vs cs i t =
      (v : List A) × (c : ℕ) × (get_elem? vs i ≡ some v)
      × (get_elem? cs i ≡ some c)
      × (c ≡ length v)
      × (def_num_values ≤ c)
      × (ts' : List (Option SchemaOf)) × (set_elem ts i t ≡ some ts')
      × (length ts' ≡ length ts)
      × (get_elem? ts' i ≡ some t)
      × (Fits t c → Slots ts' vs cs)
      × ((w : List A) (d : ℕ)
          → Slot t w d
          → (vs' : List (List A)) × (cs' : List ℕ) × (set_elem vs i w ≡ some vs')
            × (set_elem cs i d ≡ some cs')
            × Slots ts' vs' cs')

  pub Slots-set_elem :
      (ts : List (Option SchemaOf)) (vs : List (List A)) (cs : List ℕ) (i : ℕ) (t : Option SchemaOf)
      → Slots ts vs cs
      → i < length ts
      → Replaceable ts vs cs i t
  unfolding set_elem
  Slots-set_elem [] vs cs i t h l = absurd (omega arith)
  Slots-set_elem (u ∷ ts) [] cs i t h l = absurd h
  Slots-set_elem (u ∷ ts) (v ∷ vs) [] i t h l = absurd h
  Slots-set_elem (u ∷ ts) (v ∷ vs) (c ∷ cs) zero t ((a, b, f), h) l = (
    v,
    c,
    refl,
    refl,
    a,
    b,
    t ∷ ts,
    refl,
    refl,
    refl,
    (λ f'. ((a, b, f'), h)),
    λ w d s. (w ∷ vs, d ∷ cs, refl, refl, (s, h)),
  )
  Slots-set_elem (u ∷ ts) (v ∷ vs) (c ∷ cs) (suc i) t (s, h) l =
      let (v', c', ev, ec, a, b, ts', et, len, at, same, other) =
        Slots-set_elem ts vs cs i t h (omega arith) in
      (
        v',
        c',
        ev,
        ec,
        a,
        b,
        u ∷ ts',
        rw et refl,
        omega (arith, len),
        at,
        (λ f. (s, same f)),
        λ w d slot.
            let (vs', cs', ew, ed, k) = other w d slot in
            (v ∷ vs', c ∷ cs', rw ew refl, rw ed refl, (s, k)),
      )

  -- The vector at the place of a table: room for the values of a line and of the table's fields. Another
  -- of the same length may take its place.
  abbrev pub Storable :
      List (Option SchemaOf) → List (List A) → List ℕ → ℕ → Option SchemaOf → Type 0
  Storable ts vs cs i t =
      (v : List A) × (c : ℕ) × (get_elem? vs i ≡ some v)
      × (get_elem? cs i ≡ some c)
      × (c ≡ length v)
      × (def_num_values ≤ c)
      × Fits t c
      × ((w : List A)
          → length w ≡ length v
          → (vs' : List (List A)) × (set_elem vs i w ≡ some vs') × Slots ts vs' cs)

  pub Slots-Storable :
      (ts : List (Option SchemaOf)) (vs : List (List A)) (cs : List ℕ) (i : ℕ) (t : Option SchemaOf)
      → Slots ts vs cs
      → get_elem? ts i ≡ some t
      → Storable ts vs cs i t
  unfolding set_elem
  Slots-Storable [] vs cs i t h e = absurd (ground (arith, e))
  Slots-Storable (u ∷ ts) [] cs i t h e = absurd h
  Slots-Storable (u ∷ ts) (v ∷ vs) [] i t h e = absurd h
  Slots-Storable (u ∷ ts) (v ∷ vs) (c ∷ cs) zero t ((a, b, f), h) e = (
    v,
    c,
    refl,
    refl,
    a,
    b,
    subst (λ o. Fits o c) (some_eq e) f,
    λ w l. (w ∷ vs, refl, ((a ∙ sym l, b, f), h)),
  )
  Slots-Storable (u ∷ ts) (v ∷ vs) (c ∷ cs) (suc i) t (s, h) e =
      let (v', c', ev, ec, a, b, f, other) = Slots-Storable ts vs cs i t h e in
      (v', c', ev, ec, a, b, f, λ w l. let (vs', p, k) = other w l in (v ∷ vs', rw p refl, (s, k)))

-- A handler whose arrays have a place for each of its tables.
abbrev pub HasSlots : {Double : Type 0} → ClientHandler Double → Type 0
HasSlots self =
    (self.table_count ≡ length self.tables)
    × Slots self.tables self.values_vectors self.values_vector_counts

abbrev free_tables : ℕ → List (Option SchemaOf)
free_tables n = replicate n none

length-more : (ts : List (Option SchemaOf)) (n : ℕ) → length (ts ++ free_tables n) ≡ length ts + n
length-more ts n =
    length-append ts (free_tables n) ∙ ap (λ k. length ts + k) (length-replicate n none)

module _ (dbl : Doubles) where
  pub more_tables-HasSlots :
      (n : ℕ) (self : ClientHandler dbl.Double) → HasSlots self → HasSlots (more_tables dbl n self)
  unfolding more_tables
  more_tables-HasSlots n self (len, h) = (
    ground (arith, len, length-more self.tables n),
    Slots-append self.tables (free_tables n) self.values_vectors
        (replicate n (oml_value_array_init dbl def_num_values)) self.values_vector_counts
        (replicate n def_num_values) h (Slots-replicate n (oml_value_init dbl)),
  )

  -- What the arrays of a handler held stands at their beginning, and all else is as it was.
  abbrev pub KeepsAll : ClientHandler dbl.Double → ClientHandler dbl.Double → Type 0
  KeepsAll self after =
      (take (length self.tables) after.tables ≡ self.tables)
      × (take (length self.values_vectors) after.values_vectors ≡ self.values_vectors)
      × (take (length self.values_vector_counts) after.values_vector_counts
          ≡ self.values_vector_counts)
      × (after.database ≡ self.database)
      × (after.state ≡ self.state)
      × (after.content ≡ self.content)
      × (after.sender_id ≡ self.sender_id)
      × (after.sender_name ≡ self.sender_name)
      × (after.app_name ≡ self.app_name)
      × (after.time_offset ≡ self.time_offset)

  KeepsAll-more : (n : ℕ) (self : ClientHandler dbl.Double) → KeepsAll self (more_tables dbl n self)
  unfolding more_tables
  KeepsAll-more n self = (
    take-append_left (length self.tables) self.tables (free_tables n) refl,
    take-append_left (length self.values_vectors) self.values_vectors
        (replicate n (oml_value_array_init dbl def_num_values)) refl,
    take-append_left (length self.values_vector_counts) self.values_vector_counts
        (replicate n def_num_values) refl,
    refl,
    refl,
    refl,
    refl,
    refl,
    refl,
    refl,
  )

  KeepsAll-same : (self : ClientHandler dbl.Double) → KeepsAll self self
  KeepsAll-same self = (
    take-all (length self.tables) self.tables (omega arith),
    take-all (length self.values_vectors) self.values_vectors (omega arith),
    take-all (length self.values_vector_counts) self.values_vector_counts (omega arith),
    refl,
    refl,
    refl,
    refl,
    refl,
    refl,
    refl,
  )

  -- Where memory is found, what client_realloc_tables() of a positive number leaves: its arrays have a
  -- place for each table, and at least that many, and begin with all the tables, vectors of values and
  -- counts that they held. The rest of the handler is as it was.
  pub client_realloc_tables_lem :
      (self : ClientHandler dbl.Double) (n : ℕ)
      → HasSlots self
      → 0 < n
      → (after : ClientHandler dbl.Double) × (client_realloc_tables dbl self (pos n) ≡ (ok, after))
        × HasSlots after
        × (n ≤ length after.tables)
        × KeepsAll self after
  unfolding client_realloc_tables more_tables
  client_realloc_tables_lem self n h l = elim (Bool-cases (ltb self.table_count n)) [
    | inl e ↦ (
      more_tables dbl (n - self.table_count) self,
      ground (arith, e, l),
      more_tables-HasSlots (n - self.table_count) self h,
      ground (arith, h.0, e, length-more self.tables (n - self.table_count)),
      KeepsAll-more (n - self.table_count) self,
    )
    | inr e ↦ (self, ground (arith, e, l), h, ground (arith, h.0, e), KeepsAll-same self)
  ]

-- The databases that are open, with one of them changed.
pub set_elem_lem :
    (dbs : List Database) (i : ℕ) (db : Database) (new : Database)
    → get_elem? dbs i ≡ some db
    → (dbs' : List Database) × (set_elem dbs i new ≡ some dbs') × (get_elem? dbs' i ≡ some new)
unfolding set_elem
set_elem_lem [] i db new e = absurd (ground (arith, e))
set_elem_lem (d ∷ dbs) zero db new e = (new ∷ dbs, refl, refl)
set_elem_lem (d ∷ dbs) (suc i) db new e =
    let (dbs', p, g) = set_elem_lem dbs i db new e in (d ∷ dbs', rw p refl, g)
