-- ===== src/Schema/Diff.antt =====
-- schema_diff() of soml/lib/shared/schema.c tells whether two schemas are equal.
use semantic_oml.Base.{
  get_elem?, take, subst, ◌⊎◌, ◌≢◌, ◌∙◌, ℕ, suc, ◌+◌, ◌≡◌, List, [], ◌∷◌, none, some, true, false,
  map, arith, refl, ap₂, Bool-cases, inl, inr, not, ◌||◌,
}
use semantic_oml.Base.Text.{same, same_refl, same_eq}
use semantic_oml.Value.{OmlValueT}
use semantic_oml.Value.Names.{same_type_refl, same_type_eq, same_type}
use semantic_oml.Schema.{SchemaField, SchemaOf, fields_diff, schema_diff}

-- What of a field is compared.
abbrev pub key : SchemaField → List ℕ × OmlValueT
key f = (f.name, f.type)

abbrev pub keys : List SchemaField → List (List ℕ × OmlValueT)
keys = map key

-- The fields are equal, or `k` of them are and the next are not.
abbrev pub Diff : ℕ → List SchemaField → List SchemaField → ℕ → Type 0
Diff i fs gs n =
    ((n ≡ 0) × (keys fs ≡ keys gs))
    ⊎ ((k : ℕ) × (n ≡ i + k + 1)
        × (take k (keys fs) ≡ take k (keys gs))
        × (get_elem? (keys fs) k ≢ get_elem? (keys gs) k))

equal_keys :
    (f g : SchemaField)
    → (not (same f.name g.name) || not (same_type f.type g.type)) ≡ false
    → key f ≡ key g
equal_keys f g e =
    let n : same f.name g.name ≡ true = ground (arith, e) in
    let t : same_type f.type g.type ≡ true = ground (arith, e) in
    ap₂ (λ a b. (a, b)) (same_eq f.name g.name n) (same_type_eq f.type g.type t)

unequal_keys :
    (f g : SchemaField)
    → (not (same f.name g.name) || not (same_type f.type g.type)) ≡ true
    → key f ≢ key g
unequal_keys f g e p =
    let n : same f.name g.name ≡ true = subst (λ k. same f.name k.0 ≡ true) p (same_refl f.name) in
    let t : same_type f.type g.type ≡ true =
      subst (λ k. same_type f.type k.1 ≡ true) p (same_type_refl f.type) in
    ground (arith, e, n, t)

some_inj : {A : Type 0} {a b : A} → some a ≡ some b → a ≡ b
some_inj e = ground (arith, e)

fields_diff_lem : (i : ℕ) (fs gs : List SchemaField) → Diff i fs gs (fields_diff i fs gs)
unfolding fields_diff
fields_diff_lem i [] [] = inl (refl, refl)
fields_diff_lem i [] (g ∷ gs) = inr (0, omega arith, refl, λ e. ground (arith, e))
fields_diff_lem i (f ∷ fs) [] = inr (0, omega arith, refl, λ e. ground (arith, e))
fields_diff_lem i (f ∷ fs) (g ∷ gs) =
    elim (Bool-cases (not (same f.name g.name) || not (same_type f.type g.type))) [
      | inl d ↦ inr (0, rw d (omega arith), refl, λ e. unequal_keys f g d (some_inj e))
      | inr s ↦ elim (fields_diff_lem (i + 1) fs gs) [
        | inl (n, e) ↦ inl (rw s n, ap₂ (λ a l. a ∷ l) (equal_keys f g s) e)
        | inr (k, n, e, d) ↦
            inr (suc k, rw s (n ∙ omega arith), ap₂ (λ a l. a ∷ l) (equal_keys f g s) e, d)
      ]
    ]

pub schema_diff_lem :
    (s1 s2 : SchemaOf)
    → ((schema_diff s1 s2 ≡ none) × (s1.name ≢ s2.name))
      ⊎ ((n : ℕ) × (schema_diff s1 s2 ≡ some n)
          × (s1.name ≡ s2.name)
          × Diff 0 s1.fields s2.fields n)
unfolding schema_diff
schema_diff_lem s1 s2 = elim (Bool-cases (same s1.name s2.name)) [
  | inl s ↦ inr (
    fields_diff 0 s1.fields s2.fields,
    ground (arith, s),
    same_eq s1.name s2.name s,
    fields_diff_lem 0 s1.fields s2.fields,
  )
  | inr d ↦ inl (
    ground (arith, d),
    λ p.
        let s : same s1.name s2.name ≡ true =
          subst (λ k. same s1.name k ≡ true) p (same_refl s1.name) in
        ground (arith, d, s),
  )
]
