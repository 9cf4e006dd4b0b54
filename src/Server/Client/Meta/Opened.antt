-- ===== src/Server/Client/Meta/Opened.antt =====
-- database_find() of soml/server/database.c: what it returns is open.
use semantic_oml.Base.Text.{same}
use semantic_oml.Base.{
  subst, ℕ, suc, ◌≡◌, inl, inr, List, [], ◌∷◌, ◌++◌, Option, none, some, get_elem?, length, refl,
  arith, Bool-cases, Option-cases,
}
use semantic_oml.Server.Database.{Database}
use semantic_oml.Server.Client.Meta.{known_or_opened, database_find, database_named}

database_named-Open :
    (dbs : List Database) (name : List ℕ) (i : ℕ)
    → database_named dbs name ≡ some i
    → (db : Database) × (get_elem? dbs i ≡ some db)
unfolding database_named
database_named-Open [] name i e = absurd (ground (arith, e))
database_named-Open (d ∷ dbs) name i e = elim (Bool-cases (same name d.name)) [
  | inl s ↦
      let z : 0 ≡ i = ground (arith, e, s) in
      (d, subst (λ k. get_elem? (d ∷ dbs) k ≡ some d) z refl)
  | inr s ↦ elim (Option-cases (database_named dbs name)) [
    | inl n ↦ absurd (ground (arith, e, s, n))
    | inr (k, n) ↦
        let (db, g) = database_named-Open dbs name k n in
        let z : suc k ≡ i = ground (arith, e, s, n) in
        (db, subst (λ k. get_elem? (d ∷ dbs) k ≡ some db) z g)
  ]
]

get_elem?-last :
    (dbs : List Database) (db : Database) → get_elem? (dbs ++ (db ∷ [])) (length dbs) ≡ some db
get_elem?-last [] db = refl
get_elem?-last (d ∷ dbs) db = get_elem?-last dbs db

-- A database that database_find() returns is open.
abbrev pub IsOpen : Option ℕ × List Database → Type 0
IsOpen (none, dbs) = Unit {0}
IsOpen (some i, dbs) = (db : Database) × (get_elem? dbs i ≡ some db)

known_or_opened-IsOpen :
    (dbs : List Database) (name : List ℕ) (known : Option ℕ) (new : Option Database)
    → ((i : ℕ) → known ≡ some i → (db : Database) × (get_elem? dbs i ≡ some db))
    → IsOpen (known_or_opened dbs name known new)
unfolding known_or_opened
known_or_opened-IsOpen dbs name (some i) new h = h i refl
known_or_opened-IsOpen dbs name none none h = tt
known_or_opened-IsOpen dbs name none (some db) h =
    (record db { name = name }, get_elem?-last dbs (record db { name = name }))

pub database_find-IsOpen :
    (opened : List ℕ → Option Database) (dbs : List Database) (name : List ℕ)
    → IsOpen (database_find opened dbs name)
unfolding database_find
database_find-IsOpen opened dbs name =
    known_or_opened-IsOpen dbs name (database_named dbs name) (opened name)
      (database_named-Open dbs name)
