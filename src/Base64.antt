-- ===== src/Base64.antt =====
-- soml/lib/shared/base64.c: blobs as text. A string is its bytes without the final zero; the output
-- is what is written at `s`, or at `blob`.
pub mod Digits
pub mod RoundTrip
pub mod Bounds
use semantic_oml.Base.{
  ℕ, zero, suc, ◌+◌, ◌-◌, ◌*◌, ◌/◌, ◌%◌, ◌^◌, List, [], ◌∷◌, ◌++◌, Option, none, some, Bool, true,
  false, length, get_elem?, ltb, leb, ◌==◌, ◌&&◌, ◌||◌, if◌then◌else◌,
}

-- BASE64[n]
unfoldable pub base64 : ℕ → ℕ
base64 n =
    if ltb n 26
    then b'A' + n
    else if ltb n 52
    then b'a' + (n - 26)
    else if ltb n 62
    then b'0' + (n - 52)
    else if n == 62
    then b'+'
    else b'/'

-- DECODE[c], for a `c` within the table; `none` is -1.
unfoldable pub decode : ℕ → Option ℕ
decode c =
    if leb b'A' c && leb c b'Z'
    then some (c - b'A')
    else if leb b'a' c && leb c b'z'
    then some (c - b'a' + 26)
    else if leb b'0' c && leb c b'9'
    then some (c - b'0' + 52)
    else if c == b'+'
    then some 62
    else if c == b'/'
    then some 63
    else none

pub base64_size_string : ℕ → ℕ
base64_size_string blob_sz = 4 * ((blob_sz + 2) / 3) + 1

-- Digit `k` of `x`, counted from the last: x >> 6 * k & 0x3f
unfoldable pub digit : ℕ → ℕ → ℕ
digit k x = base64 (x / 64 ^ k % 64)

unfoldable pub base64_encode_blob : List ℕ → List ℕ
unfolding digit base64
base64_encode_blob [] = []
base64_encode_blob (a ∷ []) = let x = a * 2 ^ 16 in digit 3 x ∷ digit 2 x ∷ b'=' ∷ b'=' ∷ []
base64_encode_blob (a ∷ b ∷ []) =
    let x = a * 2 ^ 16 + b * 2 ^ 8 in digit 3 x ∷ digit 2 x ∷ digit 1 x ∷ b'=' ∷ []
base64_encode_blob (a ∷ b ∷ c ∷ p) =
    let x = a * 2 ^ 16 + b * 2 ^ 8 + c in
    digit 3 x ∷ digit 2 x ∷ digit 1 x ∷ digit 0 x ∷ base64_encode_blob p

-- strspn (s, BASE64)
unfoldable pub in_base64 : ℕ → Bool
in_base64 c =
    (leb b'A' c && leb c b'Z')
    || (leb b'a' c && leb c b'z')
    || (leb b'0' c && leb c b'9')
    || (c == b'+')
    || (c == b'/')

pub span : List ℕ → ℕ
span [] = 0
span (c ∷ s) = let rest = span s in if in_base64 c then suc rest else 0

-- '=' == s[n]
pub pad_at : List ℕ → ℕ → Bool
pad_at s n = elim (get_elem? s n) [ none ↦ false | some c ↦ c == b'=' ]

-- The length without the padding; `none` is -1.
pub base64_validate_string : List ℕ → Option ℕ
base64_validate_string s =
    let s_sz = length s in
    let n = span s in
    if s_sz % 4 == 0
    then if (s_sz == n)
        || ((s_sz == n + 1) && pad_at s n)
        || ((s_sz == n + 2) && pad_at s n && pad_at s (n + 1))
      then some n
      else none
    else none

-- For a size below 2 ^ 62.
pub base64_size_blob : ℕ → ℕ
base64_size_blob s_sz = s_sz * 3 / 4

-- x <<= 6; x |= DECODE[c]
pub join : Option ℕ → ℕ → Option ℕ
join none c = none
join (some x) c = elim (decode c) [ none ↦ none | some d ↦ some (x * 64 + d) ]

-- The last bytes of a group, in front of what follows.
pub bytes_of : Option ℕ → (ℕ → List ℕ) → Option (List ℕ) → Option (List ℕ)
bytes_of none make rest = none
bytes_of (some x) make none = none
bytes_of (some x) make (some bs) = some (make x ++ bs)

-- The bytes written, or `none` for -1.
unfoldable pub base64_decode_string : List ℕ → Option (List ℕ)
unfolding join bytes_of decode
base64_decode_string [] = some []
base64_decode_string (a ∷ []) = none
base64_decode_string (a ∷ b ∷ []) =
    bytes_of (join (join (some 0) a) b) (λ x. (x / 2 ^ 4 % 256) ∷ []) (some [])
base64_decode_string (a ∷ b ∷ c ∷ []) =
    bytes_of (join (join (join (some 0) a) b) c) (λ x. (x / 2 ^ 10 % 256) ∷ (x / 2 ^ 2 % 256) ∷ [])
      (some [])
base64_decode_string (a ∷ b ∷ c ∷ d ∷ s) =
    bytes_of (join (join (join (join (some 0) a) b) c) d)
      (λ x. (x / 2 ^ 16 % 256) ∷ (x / 2 ^ 8 % 256) ∷ (x % 256) ∷ []) (base64_decode_string s)
