-- ===== src/Server/Database/Tables.antt =====
-- The table that database_find_or_create_table() of soml/server/database.c finds or creates.
use semantic_oml.Base.{
  false, ◌==◌, Bool, Option, zero, suc, Option-cases, ◌+◌, ℕ, ◌≤◌, ◌<◌, ◌≡◌, ◌⊎◌, inl, inr, List,
  [], ◌∷◌, none, some, true, arith, sym, ap, refl, ◌∙◌, subst, Bool-cases,
}
use semantic_oml.Base.Text.{same, same_refl, same_eq}
use semantic_oml.Schema.{schema_diff, SchemaOf}
use semantic_oml.Schema.Diff.{schema_diff_lem, keys}
use semantic_oml.Server.Database.{
  database_create_table, create, of_search, database_find_or_create_table, compared, find_rounds,
  database_find_table, searched, Database, table_named, renamed, Search, existing, free, too_many,
}

-- The tables that have a name.
abbrev pub Named : List ℕ → List SchemaOf → Type 0
Named name [] = ⊥
Named name (t ∷ ts) = (t.name ≡ name) ⊎ Named name ts

abbrev pub Member : SchemaOf → List SchemaOf → Type 0
Member t [] = ⊥
Member t (u ∷ us) = (u ≡ t) ⊎ Member t us

-- No two tables have the same name.
abbrev pub Distinct : List SchemaOf → Type 0
Distinct [] = Unit {0}
Distinct (t ∷ ts) = (¬ Named t.name ts) × Distinct ts

table_named-none :
    (ts : List SchemaOf) (name : List ℕ) → table_named ts name ≡ none → ¬ Named name ts
unfolding table_named
table_named-none [] name e h = h
table_named-none (t ∷ ts) name e (inl h) =
    let s : same t.name name ≡ true = subst (λ n. same t.name n ≡ true) h (same_refl t.name) in
    ground (arith, e, s)
table_named-none (t ∷ ts) name e (inr h) = elim (Bool-cases (same t.name name)) [
  | inl s ↦ ground (arith, e, s)
  | inr d ↦ table_named-none ts name (ground (arith, e, d)) h
]

table_named-some :
    (ts : List SchemaOf) (name : List ℕ) (t : SchemaOf)
    → table_named ts name ≡ some t
    → Member t ts × (t.name ≡ name)
unfolding table_named
table_named-some [] name t e = absurd (ground (arith, e))
table_named-some (u ∷ us) name t e = elim (Bool-cases (same u.name name)) [
  | inl s ↦
      let p : u ≡ t = ground (arith, e, s) in
      (inl p, ap (λ x. x.name) (sym p) ∙ same_eq u.name name s)
  | inr d ↦ let r = table_named-some us name t (ground (arith, e, d)) in (inr r.0, r.1)
]

-- The table has the fields of the schema, under one of the names, from `i` on.
abbrev pub Serves : SchemaOf → ℕ → SchemaOf → Type 0
Serves schema i t =
    (k : ℕ) × (i ≤ k)
    × (k < 10)
    × (t.name ≡ (renamed schema k).name)
    × (keys t.fields ≡ keys schema.fields)

abbrev Found : Database → SchemaOf → ℕ → Search → Type 0
Found db schema i (existing t) = Member t db.tables × Serves schema i t
Found db schema i (free k) = (i ≤ k) × (k < 10) × (¬ Named (renamed schema k).name db.tables)
Found db schema i too_many = Unit {0}

renamed-keys : (schema : SchemaOf) (i : ℕ) → keys (renamed schema i).fields ≡ keys schema.fields
unfolding renamed
renamed-keys schema i = ground arith

Found-before :
    (db : Database) (schema : SchemaOf) (i : ℕ) (s : Search)
    → Found db schema (i + 1) s
    → Found db schema i s
Found-before db schema i (existing t) (m, (k, l, below, n, f)) = (m, (k, omega arith, below, n, f))
Found-before db schema i (free k) (l, below, n) = (omega arith, below, n)
Found-before db schema i too_many h = h

compared-Found :
    (db : Database) (schema : SchemaOf) (i : ℕ) (t : SchemaOf) (next : Search)
    → i < 10
    → Member t db.tables
    → t.name ≡ (renamed schema i).name
    → Found db schema i next
    → Found db schema i (compared (schema_diff (renamed schema i) t) t next)
unfolding compared
compared-Found db schema i t next l m name h = elim (schema_diff_lem (renamed schema i) t) [
  | inl (d, _) ↦ rw d h
  | inr (n, d, _, inl (z, same_keys)) ↦
      rw d (rw z (m, (i, omega arith, l, name, sym same_keys ∙ renamed-keys schema i)))
  | inr (n, d, _, inr (k, z, _, _)) ↦ let o : (n == 0) ≡ false = ground (arith, z) in rw d (rw o h)
]

searched-Found :
    (db : Database) (schema : SchemaOf) (i : ℕ) (next : Search)
    → i < 10
    → Found db schema i next
    → Found db schema i
        (searched (database_find_table db (renamed schema i).name) (renamed schema i) i next)
unfolding searched database_find_table
searched-Found db schema i next l h =
    elim (Option-cases (table_named db.tables (renamed schema i).name)) [
      | inl e ↦ rw e (omega arith, l, table_named-none db.tables (renamed schema i).name e)
      | inr (t, e) ↦
          let m = table_named-some db.tables (renamed schema i).name t e in
          rw e (compared-Found db schema i t next l m.0 m.1 h)
    ]

find_rounds-Found :
    (db : Database) (schema : SchemaOf) (rounds i : ℕ)
    → rounds + i ≤ 10
    → Found db schema i (find_rounds db schema rounds i)
unfolding find_rounds
find_rounds-Found db schema zero i l = tt
find_rounds-Found db schema (suc rounds) i l =
    searched-Found db schema i (find_rounds db schema rounds (i + 1)) (omega arith) (
      Found-before db schema i (find_rounds db schema rounds (i + 1))
        (find_rounds-Found db schema rounds (i + 1) (omega arith)))

-- What the call returns and leaves.
abbrev pub Given : Database → SchemaOf → Option SchemaOf × Database → Type 0
Given db schema (none, after) = after ≡ db
Given db schema (some t, after) =
    Member t after.tables
    × Serves schema 1 t
    × ((after ≡ db) ⊎ ((after ≡ record db { tables = t ∷ db.tables }) × (¬ Named t.name db.tables)))

of_search-Given :
    (creates : SchemaOf → Bool) (db : Database) (schema : SchemaOf) (s : Search)
    → Found db schema 1 s
    → Given db schema (of_search creates db schema s)
unfolding of_search create database_create_table
of_search-Given creates db schema (existing t) (m, serves) = (m, serves, inl refl)
of_search-Given creates db schema (free k) (l, below, new) =
    elim (Bool-cases (creates (renamed schema k))) [
      | inl c ↦ rw c (inl refl, (k, l, below, refl, renamed-keys schema k), inr (refl, new))
      | inr c ↦ rw c refl
    ]
of_search-Given creates db schema too_many h = refl

-- database_find_or_create_table() either returns NULL and leaves the tables as they were, or returns
-- one of the tables that the database then has. That table has the schema's name, or it with "_2" to
-- "_9" behind, and fields of the names and types of the schema's; the tables are those from before,
-- or one more whose name none of them had.
pub database_find_or_create_table_lem :
    (creates : SchemaOf → Bool) (db : Database) (schema : SchemaOf)
    → Given db schema (database_find_or_create_table creates db schema)
unfolding database_find_or_create_table
database_find_or_create_table_lem creates db schema =
    of_search-Given creates db schema (find_rounds db schema 9 1)
      (find_rounds-Found db schema 9 1 (omega arith))

Given-Distinct :
    (db : Database) (schema : SchemaOf) (r : Option SchemaOf × Database)
    → Given db schema r
    → Distinct db.tables
    → Distinct r.1.tables
Given-Distinct db schema (none, after) e d = subst (λ x. Distinct x.tables) (sym e) d
Given-Distinct db schema (some t, after) (_, _, inl e) d = subst (λ x. Distinct x.tables) (sym e) d
Given-Distinct db schema (some t, after) (_, _, inr (e, new)) d =
    subst (λ x. Distinct x.tables) (sym e) (new, d)

-- The names of a database's tables, once distinct, stay so under database_find_or_create_table():
-- database_find_table() can find each of them.
pub database_find_or_create_table-Distinct :
    (creates : SchemaOf → Bool) (db : Database) (schema : SchemaOf)
    → Distinct db.tables
    → Distinct (database_find_or_create_table creates db schema).1.tables
database_find_or_create_table-Distinct creates db schema =
    Given-Distinct db schema (database_find_or_create_table creates db schema)
      (database_find_or_create_table_lem creates db schema)
