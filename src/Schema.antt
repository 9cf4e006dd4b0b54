-- ===== src/Schema.antt =====
-- soml/lib/shared/schema.c: the schema of a measurement stream, and its text in a client's headers.
-- Memory for a schema is found. A schema without fields has NULL for them, unless it is a copy.
pub mod Words
pub mod RoundTrip
pub mod Diff
use semantic_oml.Base.{
  ℕ, zero, suc, ◌+◌, ◌-◌, List, [], ◌∷◌, ◌++◌, Option, none, some, Bool, true, false, length, take,
  drop, ltb, ◌==◌, not, ◌||◌, if◌then◌else◌,
}
use semantic_oml.Base.Int.{ℤ, pos, negsuc}
use semantic_oml.Base.Text.{same}
use semantic_oml.Strings.{is_space, find_charn}
use semantic_oml.Numbers.{strtol, print_int}
use semantic_oml.Value.{OmlValueT, unknown_value, long_value, int32_value}
use semantic_oml.Value.Names.{oml_type_from_s, oml_type_to_s, same_type}

-- OMLSemDef
pub record Concept : Type 0 where
  pub subject : List ℕ
  pub predicate : List ℕ
  pub object : List ℕ

pub record SchemaField : Type 0 where
  pub name : List ℕ
  pub type : OmlValueT
  pub concepts : List Concept

-- struct schema. `nfields` is the length of `fields`.
pub record SchemaOf : Type 0 where
  pub name : List ℕ
  pub fields : List SchemaField
  pub index : ℤ

-- add_oml_sem_def(): behind the first.
pub add_oml_sem_def : List Concept → Concept → List Concept
add_oml_sem_def [] e = e ∷ []
add_oml_sem_def (c ∷ cs) e = c ∷ e ∷ cs

-- The text before a character and the text behind it; `none` if it is not there.
pub split_at : List ℕ → ℕ → Option (List ℕ × List ℕ)
split_at s c = elim (find_charn s c (length s)) [
  | none ↦ none
  | some i ↦ some (take i s, drop (suc i) s)
]

-- One concept, behind its brace. A part that does not end is a fault: its end is NULL, and the
-- length up to it makes no sense.
read_concept : List ℕ → Option (Concept × List ℕ)
read_concept s = elim (split_at s b'|') [
  | none ↦ none
  | some (subject, s1) ↦ elim (split_at s1 b'|') [
    | none ↦ none
    | some (predicate, s2) ↦ elim (split_at s2 b'}') [
      | none ↦ none
      | some (object, s3) ↦
          some (record { subject = subject; predicate = predicate; object = object }, s3)
    ]
  ]
]

-- The loop of sem_to_mpdef(), behind a brace that is found, on fuel for each character.
concepts_in : ℕ → List ℕ → List Concept → Option (List Concept)
concepts_in zero s found = none
concepts_in (suc fuel) (c ∷ s) found =
    if c == b'{'
    then elim (read_concept s) [
      | none ↦ none
      | some (concept, rest) ↦ concepts_in fuel rest (add_oml_sem_def found concept)
    ]
    else some found
concepts_in (suc fuel) [] found = some found

pub sem_to_mpdef : List ℕ → Option (List Concept)
unfolding concepts_in read_concept
sem_to_mpdef cs = elim (find_charn cs b'{' (length cs)) [
  | none ↦ some []
  | some i ↦ concepts_in (suc (length cs)) (drop i cs) []
]

-- OML_LONG_VALUE is taken as OML_INT32_VALUE. `some none` is -1.
typed_field : List ℕ → List ℕ → List Concept → Option (Option SchemaField)
typed_field name type_s concepts =
    let t = oml_type_from_s type_s in
    let type = if same_type t long_value then int32_value else t in
    if same_type type unknown_value
    then some none
    else some (some (record { name = name; type = type; concepts = concepts }))

-- Behind the name's colon. The concepts begin with a colon of their own, which is passed over.
field_body : List ℕ → List ℕ → Option (Option SchemaField)
unfolding typed_field
field_body name q = elim (split_at q b':') [
  | none ↦ typed_field name q []
  | some (type_s, concepts) ↦ elim (sem_to_mpdef concepts) [
    | none ↦ none
    | some cs ↦ typed_field name type_s cs
  ]
]

-- `none` is a fault, `some none` is -1.
pub schema_field_from_meta : List ℕ → Option (Option SchemaField)
unfolding field_body
schema_field_from_meta meta = elim (split_at meta b':') [
  | none ↦ some none
  | some (name, q) ↦ field_body name q
]

pub skip_white : List ℕ → List ℕ
skip_white [] = []
skip_white (c ∷ s) = let rest = skip_white s in if is_space c then rest else c ∷ s

-- Up to find_white(), and from there.
pub word : List ℕ → List ℕ × List ℕ
word [] = ([], [])
word (c ∷ s) = let (w, rest) = word s in if is_space c then ([], c ∷ s) else (c ∷ w, rest)

-- The loop over the fields, on fuel for each character of the text that is left.
fields_in : ℕ → List ℕ → List SchemaField → Option (Option (List SchemaField))
fields_in fuel [] fields = some (some fields)
fields_in zero (c ∷ q) fields = none
fields_in (suc fuel) (c ∷ q) fields =
    let (w, rest) = word (skip_white (c ∷ q)) in
    elim w [
      | [] ↦ fields_in fuel rest fields
      | a ∷ b ↦ elim (schema_field_from_meta (a ∷ b)) [
        | none ↦ none
        | some none ↦ some none
        | some (some f) ↦ fields_in fuel rest (fields ++ (f ∷ []))
      ]
    ]

with_fields : List ℕ → ℤ → Option (Option (List SchemaField)) → Option (Option SchemaOf)
with_fields name index none = none
with_fields name index (some none) = some none
with_fields name index (some (some fields)) =
    some (some (record { name = name; fields = fields; index = index }))

-- `none` is a fault, `some none` is NULL.
unfoldable pub schema_from_meta : List ℕ → Option (Option SchemaOf)
unfolding fields_in with_fields strtol skip_white word schema_field_from_meta field_body typed_field
    split_at find_charn is_space oml_type_from_s
schema_from_meta meta = elim (strtol meta) [
  | none ↦ some none
  | some (index, p) ↦
      let (name, q) = word (skip_white p) in with_fields name index (fields_in (length q) q [])
]

pub fields_text : List SchemaField → List ℕ
fields_text [] = []
fields_text (f ∷ fs) = b' ' ∷ (f.name ++ (b':' ∷ (oml_type_to_s f.type ++ fields_text fs)))

-- Of a schema that is no copy. `none` is NULL.
pub schema_to_meta : SchemaOf → Option (List ℕ)
schema_to_meta schema = elim schema.fields [
  | [] ↦ none
  | f ∷ fs ↦ some (print_int schema.index ++ (b' ' ∷ (schema.name ++ fields_text schema.fields)))
]

unfoldable pub schema_new : List ℕ → SchemaOf
schema_new name = record { name = name; fields = []; index = negsuc 0 }

unfoldable pub schema_add_field : SchemaOf → List ℕ → OmlValueT → SchemaOf
schema_add_field schema name type = record schema {
  fields = schema.fields ++ (record { name = name; type = type; concepts = [] } ∷ []);
}

-- The number of the first field that differs, counted from `i`; 0 for none.
pub fields_diff : ℕ → List SchemaField → List SchemaField → ℕ
fields_diff i [] [] = 0
fields_diff i [] (g ∷ gs) = i + 1
fields_diff i (f ∷ fs) [] = i + 1
fields_diff i (f ∷ fs) (g ∷ gs) =
    let rest = fields_diff (i + 1) fs gs in
    if not (same f.name g.name) || not (same_type f.type g.type) then i + 1 else rest

-- Of two schemas that are not the same object and whose arrays of fields are not NULL, as those of
-- copies are. `none` is -1.
unfoldable pub schema_diff : SchemaOf → SchemaOf → Option ℕ
unfolding fields_diff
schema_diff s1 s2 =
    if not (same s1.name s2.name) then none else some (fields_diff 0 s1.fields s2.fields)
