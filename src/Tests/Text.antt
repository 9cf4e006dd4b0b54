-- ===== src/Tests/Text.antt =====
-- Texts of soml/lib/shared: base64.c, string_utils.c, validate.c, oml_value.c and schema.c.
use semantic_oml.Base.{zero, suc, ℕ, ◌≡◌, List, [], ◌∷◌, ◌++◌, some, length, map, arith, refl}
use semantic_oml.Base.Int.{pos, negsuc}
use semantic_oml.Base.Text.{same, codes}
use semantic_oml.Base64.{base64, decode, base64_encode_blob, base64_decode_string, base64_size_blob}
use semantic_oml.Base64.RoundTrip.{DecodesTo, encode-DecodesTo}
use semantic_oml.Base64.Bounds.{length-decode}
use semantic_oml.Strings.{is_digit, valid_name_char, is_alnum}
use semantic_oml.Strings.Names.{IsName}
use semantic_oml.Value.{int32_value, long_value, string_value}
use semantic_oml.Schema.{
  SchemaOf, schema_new, schema_add_field, schema_to_meta, schema_from_meta, schema_diff,
}
use semantic_oml.Schema.RoundTrip.{from_meta-to_meta, read_back}
use semantic_oml.Schema.Diff.{Diff}

encode-DecodesTo_example :
    DecodesTo (77 ∷ 97 ∷ 0 ∷ 255 ∷ []) (base64_encode_blob (77 ∷ 97 ∷ 0 ∷ 255 ∷ []))
encode-DecodesTo_example =
    encode-DecodesTo (77 ∷ 97 ∷ 0 ∷ 255 ∷ [])
      (omega arith, (omega arith, (omega arith, (omega arith, tt))))

abbrev digits_below : ℕ → List ℕ
digits_below zero = []
digits_below (suc n) = digits_below n ++ (n ∷ [])

encode_table :
    map base64 (digits_below 64)
    ≡ codes "ABCDEFGHIJKLMNOPQRSTUVWXYZabcdefghijklmnopqrstuvwxyz0123456789+/"
unfolding base64
encode_table = refl

decode_table : map (λ d. decode (base64 d)) (digits_below 64) ≡ map some (digits_below 64)
unfolding base64 decode
decode_table = refl

encoded : base64_encode_blob (codes "Many hands") ≡ codes "TWFueSBoYW5kcw=="
unfolding base64_encode_blob
encoded = refl

decoded : base64_decode_string (codes "TWFueSBoYW5kcw") ≡ some (codes "Many hands")
unfolding base64_decode_string
decoded = refl

length-decode_example :
    length (codes "Many hands") ≡ base64_size_blob (length (codes "TWFueSBoYW5kcw"))
length-decode_example = length-decode (codes "TWFueSBoYW5kcw") (codes "Many hands") decoded

-- A tab, a backslash and a letter.
abbrev escaped : List ℕ
escaped = 9 ∷ 92 ∷ 97 ∷ []

abbrev pub cpu_schema : SchemaOf
cpu_schema = record {
  name = codes "cpu";
  fields =
      record { name = codes "node"; type = string_value; concepts = [] }
      ∷ record { name = codes "load"; type = long_value; concepts = [] }
      ∷ [];
  index = pos 1;
}

built :
    schema_add_field
      (schema_add_field (schema_new (codes "cpu")) (codes "node") string_value)
      (codes "load")
      long_value
    ≡ record cpu_schema { index = negsuc 0 }
unfolding schema_new schema_add_field
built = refl

abbrev pub other_schema : SchemaOf
other_schema = record {
  name = codes "cpu";
  fields =
      record { name = codes "node"; type = string_value; concepts = [] }
      ∷ record { name = codes "load"; type = int32_value; concepts = [] }
      ∷ [];
  index = pos 2;
}

cpu-IsName : IsName (codes "cpu")
unfolding is_digit valid_name_char is_alnum
cpu-IsName = (refl, (refl, (refl, (refl, tt))))

from_meta-to_meta_example :
    (text : List ℕ) × (schema_to_meta cpu_schema ≡ some text)
    × (schema_from_meta text
        ≡ some (some (record cpu_schema { fields = map read_back cpu_schema.fields })))
unfolding is_digit valid_name_char is_alnum
from_meta-to_meta_example =
    from_meta-to_meta cpu_schema
      (record { name = codes "node"; type = string_value; concepts = [] })
      (record { name = codes "load"; type = long_value; concepts = [] } ∷ []) refl cpu-IsName
      (
        ((refl, (refl, (refl, (refl, (refl, tt))))), λ e. ground (arith, e)),
        (((refl, (refl, (refl, (refl, (refl, tt))))), λ e. ground (arith, e)), tt),
      )
      (omega arith)

second_field : schema_diff cpu_schema other_schema ≡ some 2
unfolding schema_diff same
second_field = refl
