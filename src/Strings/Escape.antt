-- ===== src/Strings/Escape.antt =====
-- backslash_encode() and backslash_decode() of soml/lib/shared/string_utils.c.
use semantic_oml.Base.{
  All-append, ℕ, ◌+◌, ◌≤◌, ◌≡◌, ◌≢◌, List, [], ◌∷◌, ◌++◌, none, some, false, length, All, arith,
  refl, length-append,
}
use semantic_oml.Strings.{
  tab, newline, carriage_return, backslash, encode_char, decode_char, backslash_encode, decode_from,
  backslash_decode, backslash_encode_size,
}

decode-encode_char :
    (c : ℕ) (rest out : List ℕ)
    → decode_from false rest ≡ some out
    → decode_from false (encode_char c ++ rest) ≡ some (c ∷ out)
unfolding decode_from encode_char decode_char
decode-encode_char c rest out e = ground (arith, e)

decode-encode : (s : List ℕ) → decode_from false (backslash_encode s) ≡ some s
unfolding backslash_encode decode_from
decode-encode [] = refl
decode-encode (c ∷ s) = decode-encode_char c (backslash_encode s) s (decode-encode s)

-- No byte of a line or of a separator is left.
abbrev pub IsPlain : ℕ → Type 0
IsPlain c = (c ≢ tab) × (c ≢ newline) × (c ≢ carriage_return)

encode_char-IsPlain : (c : ℕ) → All IsPlain (encode_char c)
unfolding encode_char
encode_char-IsPlain c = ground arith

encode-IsPlain : (s : List ℕ) → All IsPlain (backslash_encode s)
unfolding backslash_encode
encode-IsPlain [] = tt
encode-IsPlain (c ∷ s) =
    All-append IsPlain (encode_char c) (backslash_encode s) (encode_char-IsPlain c)
      (encode-IsPlain s)

length-encode_char : (c : ℕ) → length (encode_char c) ≤ 2
unfolding encode_char
length-encode_char c = ground arith

length-encode : (s : List ℕ) → length (backslash_encode s) + 1 ≤ backslash_encode_size (length s)
unfolding backslash_encode backslash_encode_size
length-encode [] = omega arith
length-encode (c ∷ s) = omega (
  arith,
  length-append (encode_char c) (backslash_encode s),
  length-encode_char c,
  length-encode s,
)

pub encode_lem :
    (s : List ℕ)
    → (backslash_decode (backslash_encode s) ≡ some s)
      × All IsPlain (backslash_encode s)
      × (length (backslash_encode s) + 1 ≤ backslash_encode_size (length s))
unfolding backslash_decode
encode_lem s = (decode-encode s, encode-IsPlain s, length-encode s)

decode_append :
    (s : List ℕ) (t : List ℕ)
    → All (λ c. c ≢ backslash) s
    → decode_from false t ≡ none
    → decode_from false (s ++ t) ≡ none
unfolding decode_from
decode_append [] t h e = e
decode_append (c ∷ s) t h e = ground (arith, h.0, decode_append s t h.1 e)

-- A text without a backslash and then a single one: backslash_decode() reads behind the string.
pub trailing_backslash_faults :
    (s : List ℕ) → All (λ c. c ≢ backslash) s → backslash_decode (s ++ (backslash ∷ [])) ≡ none
unfolding backslash_decode decode_from
trailing_backslash_faults s h = decode_append s (backslash ∷ []) h refl
