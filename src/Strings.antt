-- ===== src/Strings.antt =====
-- soml/lib/shared/string_utils.c, validate.c and oml_util.c. A string is its bytes without the final
-- zero; an output string is the bytes that are written before its final zero.
pub mod Escape
pub mod Names
use semantic_oml.Base.{
  ℕ, zero, suc, ◌+◌, ◌*◌, List, [], ◌∷◌, ◌++◌, Option, none, some, Bool, true, false, length, ltb,
  leb, ◌==◌, ◌&&◌, ◌||◌, not, if◌then◌else◌,
}
use mathlib.Core.Option

pub backslash_encode_size : ℕ → ℕ
backslash_encode_size in_sz = 2 * in_sz + 1

abbrev pub tab : ℕ
tab = 9

abbrev pub newline : ℕ
newline = 10

abbrev pub carriage_return : ℕ
carriage_return = 13

abbrev pub backslash : ℕ
backslash = b'\\'

-- What one character is written as.
unfoldable pub encode_char : ℕ → List ℕ
encode_char c =
    if c == tab
    then backslash ∷ b't' ∷ []
    else if c == newline
    then backslash ∷ b'n' ∷ []
    else if c == carriage_return
    then backslash ∷ b'r' ∷ []
    else if c == backslash
    then backslash ∷ backslash ∷ []
    else c ∷ []

unfoldable pub backslash_encode : List ℕ → List ℕ
backslash_encode [] = []
backslash_encode (c ∷ s) = encode_char c ++ backslash_encode s

-- The character that stands behind a backslash.
unfoldable pub decode_char : ℕ → ℕ
decode_char c =
    if c == b't'
    then tab
    else if c == b'n'
    then newline
    else if c == b'r'
    then carriage_return
    else c

-- Whether a backslash has been read. A backslash at the end takes the final zero with it, and
-- reading goes on behind it: `none` is that access outside the string.
pub decode_from : Bool → List ℕ → Option (List ℕ)
decode_from false [] = some []
decode_from true [] = none
decode_from true (c ∷ s) = Option.map (λ l. decode_char c ∷ l) (decode_from false s)
decode_from false (c ∷ s) =
    let rest = decode_from (c == backslash) s in
    if c == backslash then rest else Option.map (λ l. c ∷ l) rest

unfoldable pub backslash_decode : List ℕ → Option (List ℕ)
unfolding decode_from decode_char
backslash_decode s = decode_from false s

-- isdigit(3), isalnum(3) and isspace(3) of the C locale
unfoldable pub is_digit : ℕ → Bool
is_digit c = leb b'0' c && leb c b'9'

unfoldable pub is_alnum : ℕ → Bool
unfolding is_digit
is_alnum c = is_digit c || (leb b'A' c && leb c b'Z') || (leb b'a' c && leb c b'z')

unfoldable pub is_space : ℕ → Bool
is_space c = (c == b' ') || (leb 9 c && leb c 13)

unfoldable pub valid_name_char : ℕ → Bool
valid_name_char c = is_alnum c || (c == b'_')

-- The loop of validate_name().
all_valid : List ℕ → Bool
all_valid [] = true
all_valid (c ∷ s) = let rest = all_valid s in if not (valid_name_char c) then false else rest

-- Of a name that is not NULL.
pub validate_name : List ℕ → Bool
unfolding all_valid
validate_name [] = false
validate_name (c ∷ s) = if is_digit c then false else all_valid (c ∷ s)

-- chomp(): the place where the final zero is written, counted from the string's beginning. It is 1
-- for the empty string, which is outside the string.
space_end : List ℕ → ℕ
space_end [] = 0
space_end (c ∷ s) =
    let rest = space_end s in if rest == 0 then (if is_space c then 0 else 1) else suc rest

unfoldable pub chomp : List ℕ → ℕ
unfolding space_end is_space
chomp s = if space_end s == 0 then 1 else space_end s

-- find_matching() and find_charn(): how far behind `str` the character stands, for a length that is
-- not negative. The memory ends behind the final zero.
unfoldable pub find_charn : List ℕ → ℕ → ℕ → Option ℕ
find_charn str c zero = none
find_charn [] c (suc len) = none
find_charn (b ∷ str) c (suc len) =
    let rest = find_charn str c len in if b == c then some 0 else Option.map suc rest
