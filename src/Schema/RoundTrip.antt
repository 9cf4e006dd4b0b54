-- ===== src/Schema/RoundTrip.antt =====
-- schema_from_meta() of soml/lib/shared/schema.c reads what schema_to_meta() writes.
use semantic_oml.Numbers.RoundTrip.{strtol-print_int, IsInt}
use semantic_oml.Base.Int.{ℤ}
use semantic_oml.Numbers.{strtol, print_int, digit_value}
use semantic_oml.Base.{
  length-append, append-nil, inr, inl, subst, Bool-cases, ℕ, zero, suc, ◌≤◌, ◌≡◌, ◌≢◌, List, [],
  ◌∷◌, ◌++◌, some, false, length, map, All, arith, refl, sym, ap, ◌∙◌, append_assoc, if◌then◌else◌,
}
use semantic_oml.Strings.{is_space}
use semantic_oml.Strings.Names.{IsName}
use semantic_oml.Value.{OmlValueT, unknown_value, long_value, int32_value}
use semantic_oml.Value.Names.{oml_type_to_s, same_type, from_s-to_s, same_type_eq}
use semantic_oml.Schema.{
  ℤ, with_fields, SchemaOf, schema_to_meta, schema_from_meta, SchemaField, typed_field, field_body,
  schema_field_from_meta, fields_text, fields_in, word,
}
use semantic_oml.Schema.Words.{
  Ends, name-Solid, Solid-word, word-append, skip_white-word, split_at-Solid, split_at-none,
  type-Solid,
}

-- What of a field is left: OML_LONG_VALUE has become OML_INT32_VALUE, and concepts are not written.
abbrev pub read_back : SchemaField → SchemaField
read_back f = record {
  name = f.name;
  type = if same_type f.type long_value then int32_value else f.type;
  concepts = [];
}

-- A field with a name and a type.
abbrev pub IsField : SchemaField → Type 0
IsField f = IsName f.name × (f.type ≢ unknown_value)

known :
    (t : OmlValueT)
    → t ≢ unknown_value
    → same_type (if same_type t long_value then int32_value else t) unknown_value ≡ false
known t h = elim (Bool-cases (same_type t long_value)) [
  | inl long ↦ rw long refl
  | inr other ↦ rw other (elim (Bool-cases (same_type t unknown_value)) [
    | inl e ↦ absurd (h (same_type_eq t unknown_value e))
    | inr e ↦ e
  ])
]

typed_field_lem :
    (f : SchemaField)
    → f.type ≢ unknown_value
    → typed_field f.name (oml_type_to_s f.type) [] ≡ some (some (read_back f))
unfolding typed_field
typed_field_lem f h = rw (from_s-to_s f.type) (ground (arith, known f.type h))

abbrev field_text : SchemaField → List ℕ
field_text f = f.name ++ (b':' ∷ oml_type_to_s f.type)

field_from_meta_lem :
    (f : SchemaField)
    → IsField f
    → schema_field_from_meta (field_text f) ≡ some (some (read_back f))
unfolding schema_field_from_meta field_body
field_from_meta_lem f h = ground (
  arith,
  split_at-Solid f.name (oml_type_to_s f.type) (name-Solid f.name h.0),
  split_at-none (oml_type_to_s f.type) (type-Solid f.type h.1),
  typed_field_lem f h.1,
)

-- A word of a text is read as one field.
fields_in_step :
    (fuel c : ℕ) (t rest : List ℕ) (fields : List SchemaField) (g : SchemaField)
    → All (λ b. is_space b ≡ false) (c ∷ t)
    → Ends rest
    → schema_field_from_meta (c ∷ t) ≡ some (some g)
    → fields_in (suc fuel) (b' ' ∷ (c ∷ (t ++ rest))) fields
      ≡ fields_in fuel rest (fields ++ (g ∷ []))
unfolding fields_in
fields_in_step fuel c t rest fields g h e p =
    let skipped = skip_white-word c (t ++ rest) h.0 in
    ground (arith, skipped, ap word skipped ∙ word-append (c ∷ t) rest h e, p)

fields_text-Ends : (fs : List SchemaField) → Ends (fields_text fs)
unfolding fields_text is_space
fields_text-Ends [] = tt
fields_text-Ends (f ∷ fs) = refl

fields_text_cons :
    (f : SchemaField) (fs : List SchemaField)
    → fields_text (f ∷ fs) ≡ b' ' ∷ (field_text f ++ fields_text fs)
unfolding fields_text
fields_text_cons f fs =
    ap (λ l. b' ' ∷ l) (sym (append_assoc f.name (b':' ∷ oml_type_to_s f.type) (fields_text fs)))

field_text_cons : (s t : List ℕ) → IsName s → (c : ℕ) × (r : List ℕ) × (s ++ t ≡ c ∷ r)
field_text_cons [] t h = absurd h
field_text_cons (c ∷ s) t h = (c, s ++ t, refl)

colon-Solid :
    (t : List ℕ) → All (λ c. is_space c ≡ false) t → All (λ c. is_space c ≡ false) (b':' ∷ t)
unfolding is_space
colon-Solid t h = (refl, h)

All-append : (P : ℕ → Type 0) (xs ys : List ℕ) → All P xs → All P ys → All P (xs ++ ys)
All-append P [] ys h k = k
All-append P (x ∷ xs) ys h k = (h.0, All-append P xs ys h.1 k)

field_text-spaces : (f : SchemaField) → IsField f → All (λ c. is_space c ≡ false) (field_text f)
field_text-spaces f h =
    All-append (λ c. is_space c ≡ false) f.name (b':' ∷ oml_type_to_s f.type)
      (Solid-word f.name (name-Solid f.name h.0))
      (colon-Solid (oml_type_to_s f.type)
        (Solid-word (oml_type_to_s f.type) (type-Solid f.type h.1)))

nothing_left :
    (fuel : ℕ) (fields : List SchemaField)
    → fields_in fuel (fields_text []) fields ≡ some (some (fields ++ []))
unfolding fields_in fields_text
nothing_left zero fields = ap (λ l. some (some l)) (sym (append-nil fields))
nothing_left (suc fuel) fields = ap (λ l. some (some l)) (sym (append-nil fields))

fields_in_lem :
    (fuel : ℕ) (fs fields : List SchemaField)
    → All IsField fs
    → length fs ≤ fuel
    → fields_in fuel (fields_text fs) fields ≡ some (some (fields ++ map read_back fs))
fields_in_lem fuel [] fields h le = nothing_left fuel fields
fields_in_lem zero (f ∷ fs) fields h le = absurd (ground arith)
fields_in_lem (suc fuel) (f ∷ fs) fields h le =
    let (c, t, e) = field_text_cons f.name (b':' ∷ oml_type_to_s f.type) h.0.0 in
    let rest = fields_text fs in
    ap (λ s. fields_in (suc fuel) s fields) (fields_text_cons f fs ∙ ap (λ l. b' ' ∷ (l ++ rest)) e)
    ∙ fields_in_step fuel c t rest fields (read_back f)
        (subst (All (λ b. is_space b ≡ false)) e (field_text-spaces f h.0)) (fields_text-Ends fs)
        (ap schema_field_from_meta (sym e) ∙ field_from_meta_lem f h.0)
    ∙ fields_in_lem fuel fs (fields ++ (read_back f ∷ [])) h.1 (omega (arith, le))
    ∙ ap (λ l. some (some l)) (append_assoc fields (read_back f ∷ []) (map read_back fs))

length-fields_text : (fs : List SchemaField) → length fs ≤ length (fields_text fs)
unfolding fields_text
length-fields_text [] = omega arith
length-fields_text (f ∷ fs) = omega (
  arith,
  length-append f.name (b':' ∷ (oml_type_to_s f.type ++ fields_text fs)),
  length-append (oml_type_to_s f.type) (fields_text fs),
  length-fields_text fs,
)

-- The name and the fields, behind the index.
from_meta_rest :
    (name : List ℕ) (fs : List SchemaField) (z : ℤ) (meta : List ℕ)
    → IsName name
    → All IsField fs
    → strtol meta ≡ some (z, b' ' ∷ (name ++ fields_text fs))
    → schema_from_meta meta
      ≡ some (some (record { name = name; fields = map read_back fs; index = z }))
unfolding schema_from_meta with_fields
from_meta_rest [] fs z meta n h e = absurd n
from_meta_rest (c ∷ s) fs z meta n h e =
    let solid = Solid-word (c ∷ s) (name-Solid (c ∷ s) n) in
    let skipped = skip_white-word c (s ++ fields_text fs) solid.0 in
    ground (
      arith,
      e,
      ap word skipped ∙ word-append (c ∷ s) (fields_text fs) solid (fields_text-Ends fs),
      fields_in_lem (length (fields_text fs)) fs [] h (length-fields_text fs),
    )

space_stops : digit_value b' ' ≡ 36
unfolding digit_value
space_stops = refl

-- Let a schema have a valid name, an int as its index, and at least one field, each with a valid
-- name and a known type. Then schema_to_meta() writes a text, and schema_from_meta() reads from it
-- the schema again, with OML_INT32_VALUE for OML_LONG_VALUE and without concepts.
pub from_meta-to_meta :
    (schema : SchemaOf) (f : SchemaField) (fs : List SchemaField)
    → schema.fields ≡ f ∷ fs
    → IsName schema.name
    → All IsField schema.fields
    → IsInt schema.index
    → (text : List ℕ) × (schema_to_meta schema ≡ some text)
      × (schema_from_meta text
          ≡ some (some (record schema { fields = map read_back schema.fields })))
unfolding schema_to_meta
from_meta-to_meta schema f fs e n h i =
    let rest = b' ' ∷ (schema.name ++ fields_text schema.fields) in
    (
      print_int schema.index ++ rest,
      ground (arith, e),
      from_meta_rest schema.name schema.fields schema.index (print_int schema.index ++ rest) n h
          (strtol-print_int schema.index rest i space_stops),
    )
