-- ===== src/Value/Names.antt =====
-- The names of the types (soml/lib/shared/oml_value.c).
use semantic_oml.Base.{
  none, some, get_elem?, ap, ◌∙◌, sym, arith, true, get_elem?, ℕ, ◌≡◌, List, [], ◌∷◌, Bool, ◌==◌,
  if◌then◌else◌, refl,
}
use semantic_oml.Base.Text.{codes, same}
use semantic_oml.Value.{
  OmlValueT, unknown_value, double_value, long_value, string_value, int32_value, uint32_value,
  int64_value, uint64_value, blob_value, guid_value, bool_value, datetime_value,
  vector_double_value, vector_int32_value, vector_uint32_value, vector_int64_value,
  vector_uint64_value, vector_bool_value,
}

-- The number of a type, and one more.
abbrev pub number : OmlValueT → ℕ
number unknown_value = 0
number double_value = 1
number long_value = 2
number string_value = 4
number int32_value = 5
number uint32_value = 6
number int64_value = 7
number uint64_value = 8
number blob_value = 9
number guid_value = 10
number bool_value = 11
number datetime_value = 12
number vector_double_value = 13
number vector_int32_value = 14
number vector_uint32_value = 15
number vector_int64_value = 16
number vector_uint64_value = 17
number vector_bool_value = 18

abbrev pub same_type : OmlValueT → OmlValueT → Bool
same_type a b = number a == number b

abbrev pub type_names : List (OmlValueT × List ℕ)
type_names =
    (int32_value, codes "int32")
    ∷ (uint32_value, codes "uint32")
    ∷ (int64_value, codes "int64")
    ∷ (uint64_value, codes "uint64")
    ∷ (double_value, codes "double")
    ∷ (string_value, codes "string")
    ∷ (blob_value, codes "blob")
    ∷ (guid_value, codes "guid")
    ∷ (bool_value, codes "bool")
    ∷ (datetime_value, codes "datetime")
    ∷ (vector_double_value, codes "[double]")
    ∷ (vector_int32_value, codes "[int32]")
    ∷ (vector_uint32_value, codes "[uint32]")
    ∷ (vector_int64_value, codes "[int64]")
    ∷ (vector_uint64_value, codes "[uint64]")
    ∷ (vector_bool_value, codes "[bool]")
    ∷ (int32_value, codes "integer")
    ∷ (long_value, codes "long")
    ∷ (double_value, codes "real")
    ∷ (double_value, codes "float")
    ∷ []

-- The first entry of a type, and the first of a name.
name_in : List (OmlValueT × List ℕ) → OmlValueT → List ℕ
name_in [] type = codes "unknown OML type"
name_in ((t, n) ∷ names) type = if same_type t type then n else name_in names type

type_in : List (OmlValueT × List ℕ) → List ℕ → OmlValueT
type_in [] s = unknown_value
type_in ((t, n) ∷ names) s = if same s n then t else type_in names s

unfoldable pub oml_type_to_s : OmlValueT → List ℕ
unfolding name_in
oml_type_to_s type = name_in type_names type

-- Of a string that is not NULL.
unfoldable pub oml_type_from_s : List ℕ → OmlValueT
unfolding type_in
oml_type_from_s s = type_in type_names s

-- Every type is read back from its name, the unknown one among them.
pub from_s-to_s : (type : OmlValueT) → oml_type_from_s (oml_type_to_s type) ≡ type
unfolding oml_type_from_s oml_type_to_s same
from_s-to_s unknown_value = refl
from_s-to_s double_value = refl
from_s-to_s long_value = refl
from_s-to_s string_value = refl
from_s-to_s int32_value = refl
from_s-to_s uint32_value = refl
from_s-to_s int64_value = refl
from_s-to_s uint64_value = refl
from_s-to_s blob_value = refl
from_s-to_s guid_value = refl
from_s-to_s bool_value = refl
from_s-to_s datetime_value = refl
from_s-to_s vector_double_value = refl
from_s-to_s vector_int32_value = refl
from_s-to_s vector_uint32_value = refl
from_s-to_s vector_int64_value = refl
from_s-to_s vector_uint64_value = refl
from_s-to_s vector_bool_value = refl

-- The type of a number.
of_number : ℕ → OmlValueT
of_number n =
    elim (get_elem?
      (unknown_value ∷ double_value ∷ long_value ∷ unknown_value ∷ string_value ∷ int32_value
        ∷ uint32_value ∷ int64_value ∷ uint64_value ∷ blob_value ∷ guid_value ∷ bool_value
        ∷ datetime_value ∷ vector_double_value ∷ vector_int32_value ∷ vector_uint32_value
        ∷ vector_int64_value ∷ vector_uint64_value ∷ vector_bool_value ∷ [])
      n) [ none ↦ unknown_value | some t ↦ t ]

of_number-number : (t : OmlValueT) → of_number (number t) ≡ t
unfolding of_number
of_number-number unknown_value = refl
of_number-number double_value = refl
of_number-number long_value = refl
of_number-number string_value = refl
of_number-number int32_value = refl
of_number-number uint32_value = refl
of_number-number int64_value = refl
of_number-number uint64_value = refl
of_number-number blob_value = refl
of_number-number guid_value = refl
of_number-number bool_value = refl
of_number-number datetime_value = refl
of_number-number vector_double_value = refl
of_number-number vector_int32_value = refl
of_number-number vector_uint32_value = refl
of_number-number vector_int64_value = refl
of_number-number vector_uint64_value = refl
of_number-number vector_bool_value = refl

pub same_type_eq : (a b : OmlValueT) → same_type a b ≡ true → a ≡ b
same_type_eq a b e =
    let h : number a ≡ number b = ground (arith, e) in
    sym (of_number-number a) ∙ ap of_number h ∙ of_number-number b

pub same_type_refl : (a : OmlValueT) → same_type a a ≡ true
same_type_refl a = ground arith
