-- ===== src/Schema/Words.antt =====
-- How schema_from_meta() of soml/lib/shared/schema.c finds the words and the colons of a text.
use semantic_oml.Base.{
  ◌≢◌, ℕ, zero, suc, ◌<◌, ◌≡◌, List, [], ◌∷◌, ◌++◌, none, some, true, false, length, drop, All,
  arith, refl, length-append, take-append_left, ◌==◌,
}
use semantic_oml.Strings.{is_space, find_charn, valid_name_char, is_alnum}
use semantic_oml.Strings.Names.{IsName}
use semantic_oml.Value.{
  OmlValueT, unknown_value, double_value, long_value, string_value, int32_value, uint32_value,
  int64_value, uint64_value, blob_value, guid_value, bool_value, datetime_value,
  vector_double_value, vector_int32_value, vector_uint32_value, vector_int64_value,
  vector_uint64_value, vector_bool_value,
}
use semantic_oml.Value.Names.{oml_type_to_s}
use semantic_oml.Schema.{word, skip_white, split_at}

-- Neither a space nor a colon.
abbrev pub Solid : List ℕ → Type 0
Solid = All (λ c. (is_space c ≡ false) × ((c == b':') ≡ false))

-- Nothing, or a space in front.
abbrev pub Ends : List ℕ → Type 0
Ends [] = Unit {0}
Ends (c ∷ s) = is_space c ≡ true

valid_name_char-solid :
    (c : ℕ) → valid_name_char c ≡ true → (is_space c ≡ false) × ((c == b':') ≡ false)
unfolding valid_name_char is_alnum is_space
valid_name_char-solid c h = ground arith

chars-Solid : (s : List ℕ) → All (λ c. valid_name_char c ≡ true) s → Solid s
chars-Solid [] h = tt
chars-Solid (c ∷ s) h = (valid_name_char-solid c h.0, chars-Solid s h.1)

pub name-Solid : (s : List ℕ) → IsName s → Solid s
name-Solid [] h = tt
name-Solid (c ∷ s) h = chars-Solid (c ∷ s) h.1

pub Solid-append : (s t : List ℕ) → Solid s → Solid t → Solid (s ++ t)
Solid-append [] t h k = k
Solid-append (c ∷ s) t h k = (h.0, Solid-append s t h.1 k)

-- A word ends at a space.
pub word-append :
    (s rest : List ℕ) → All (λ c. is_space c ≡ false) s → Ends rest → word (s ++ rest) ≡ (s, rest)
unfolding word
word-append [] [] h e = refl
word-append [] (c ∷ rest) h e = ground (arith, e)
word-append (c ∷ s) rest h e = ground (arith, h.0, word-append s rest h.1 e)

pub Solid-word : (s : List ℕ) → Solid s → All (λ c. is_space c ≡ false) s
Solid-word [] h = tt
Solid-word (c ∷ s) h = (h.0.0, Solid-word s h.1)

pub skip_white-word : (c : ℕ) (s : List ℕ) → is_space c ≡ false → skip_white (b' ' ∷ c ∷ s) ≡ c ∷ s
unfolding skip_white is_space
skip_white-word c s h = ground (arith, h)

find_charn-Solid :
    (s rest : List ℕ) (n : ℕ)
    → Solid s
    → length s < n
    → find_charn (s ++ (b':' ∷ rest)) b':' n ≡ some (length s)
unfolding find_charn
find_charn-Solid s rest zero h lt = absurd (ground arith)
find_charn-Solid [] rest (suc n) h lt = refl
find_charn-Solid (c ∷ s) rest (suc n) h lt =
    ground (arith, h.0.1, find_charn-Solid s rest n h.1 (omega (arith, lt)))

find_charn-none : (s : List ℕ) (n : ℕ) → Solid s → find_charn s b':' n ≡ none
unfolding find_charn
find_charn-none s zero h = refl
find_charn-none [] (suc n) h = refl
find_charn-none (c ∷ s) (suc n) h = ground (arith, h.0.1, find_charn-none s n h.1)

-- A colon is found behind what has none.
pub split_at-Solid :
    (s rest : List ℕ) → Solid s → split_at (s ++ (b':' ∷ rest)) b':' ≡ some (s, rest)
unfolding split_at
split_at-Solid s rest h = ground (
  arith,
  find_charn-Solid s rest (length (s ++ (b':' ∷ rest))) h
      (omega (arith, length-append s (b':' ∷ rest))),
  take-append_left (length s) s (b':' ∷ rest) refl,
  drop-colon s rest,
)
  where
    drop-colon : (s rest : List ℕ) → drop (suc (length s)) (s ++ (b':' ∷ rest)) ≡ rest
    drop-colon [] rest = refl
    drop-colon (c ∷ s) rest = drop-colon s rest

pub split_at-none : (s : List ℕ) → Solid s → split_at s b':' ≡ none
unfolding split_at
split_at-none s h = ground (arith, find_charn-none s (length s) h)

-- The name of a type.
pub type-Solid : (type : OmlValueT) → type ≢ unknown_value → Solid (oml_type_to_s type)
unfolding oml_type_to_s is_space
type-Solid unknown_value h = absurd (h refl)
type-Solid double_value h = ground arith
type-Solid long_value h = ground arith
type-Solid string_value h = ground arith
type-Solid int32_value h = ground arith
type-Solid uint32_value h = ground arith
type-Solid int64_value h = ground arith
type-Solid uint64_value h = ground arith
type-Solid blob_value h = ground arith
type-Solid guid_value h = ground arith
type-Solid bool_value h = ground arith
type-Solid datetime_value h = ground arith
type-Solid vector_double_value h = ground arith
type-Solid vector_int32_value h = ground arith
type-Solid vector_uint32_value h = ground arith
type-Solid vector_int64_value h = ground arith
type-Solid vector_uint64_value h = ground arith
type-Solid vector_bool_value h = ground arith
