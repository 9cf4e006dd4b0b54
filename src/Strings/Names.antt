-- ===== src/Strings/Names.antt =====
-- validate_name() of soml/lib/shared/validate.c and chomp() of oml_util.c against what they mean.
use semantic_oml.Base.{ℕ, ◌+◌, ◌≡◌, ◌↔◌, List, [], ◌∷◌, ◌++◌, true, false, length, All, arith, refl}
use semantic_oml.Strings.{
  validate_name, is_digit, valid_name_char, all_valid, is_space, space_end, chomp,
}

all_valid-All : (s : List ℕ) → (all_valid s ≡ true) ↔ All (λ c. valid_name_char c ≡ true) s
unfolding all_valid
all_valid-All [] = ground arith
all_valid-All (c ∷ s) = ground (arith, all_valid-All s)

-- A letter, a digit or an underscore, but no digit in front.
abbrev pub IsName : List ℕ → Type 0
IsName [] = ⊥
IsName (c ∷ s) = (is_digit c ≡ false) × All (λ c. valid_name_char c ≡ true) (c ∷ s)

-- validate_name() accepts a string that is not NULL exactly if it is not empty, has letters, digits
-- and underscores alone, and no digit in front.
pub validate_name-IsName : (s : List ℕ) → (validate_name s ≡ true) ↔ IsName s
unfolding validate_name
validate_name-IsName [] = ground arith
validate_name-IsName (c ∷ s) = ground (arith, all_valid-All (c ∷ s))

-- Spaces alone.
abbrev pub AreSpaces : List ℕ → Type 0
AreSpaces = All (λ c. is_space c ≡ true)

space_end-spaces : (s : List ℕ) → AreSpaces s → space_end s ≡ 0
unfolding space_end
space_end-spaces [] h = refl
space_end-spaces (c ∷ s) h = ground (arith, h.0, space_end-spaces s h.1)

space_end-text :
    (s : List ℕ) (c : ℕ) (spaces : List ℕ)
    → is_space c ≡ false
    → AreSpaces spaces
    → space_end (s ++ (c ∷ spaces)) ≡ length s + 1
unfolding space_end
space_end-text [] c spaces h k = ground (arith, h, space_end-spaces spaces k)
space_end-text (b ∷ s) c spaces h k = ground (arith, space_end-text s c spaces h k)

-- chomp() writes the final zero behind the last character that is no space.
pub chomp-text :
    (s : List ℕ) (c : ℕ) (spaces : List ℕ)
    → is_space c ≡ false
    → AreSpaces spaces
    → chomp (s ++ (c ∷ spaces)) ≡ length s + 1
unfolding chomp
chomp-text s c spaces h k = ground (arith, space_end-text s c spaces h k)

-- Of spaces alone, chomp() leaves the first; for the empty string it writes behind the final zero.
pub chomp-spaces : (s : List ℕ) → AreSpaces s → chomp s ≡ 1
unfolding chomp
chomp-spaces s h = ground (arith, space_end-spaces s h)
