-- ===== src/Base64/RoundTrip.antt =====
-- What soml/lib/shared/base64.c encodes is valid, has the announced size, and is decoded again.
use semantic_oml.Base.{
  get_elem?-append, ◌∙◌, true, take, ◌⊎◌, take-append_left, inr, get_elem?, ◌%◌, length-append, inl,
  ℕ, ◌<◌, ◌≡◌, ◌+◌, ◌*◌, ◌^◌, List, [], ◌∷◌, ◌++◌, some, All, length, arith, refl, ap,
}
use semantic_oml.Base64.{
  base64_size_string, pad_at, base64_validate_string, base64_size_blob, digit, base64_encode_blob,
  base64_decode_string, span,
}
use semantic_oml.Base64.Digits.{decode-digit, in_base64-digit, in_base64-pad}

abbrev pub Bytes : List ℕ → Type 0
Bytes = All (λ b. b < 256)

-- The digits, and the padding behind them.
digits : List ℕ → List ℕ
digits [] = []
digits (a ∷ []) = let x = a * 2 ^ 16 in digit 3 x ∷ digit 2 x ∷ []
digits (a ∷ b ∷ []) = let x = a * 2 ^ 16 + b * 2 ^ 8 in digit 3 x ∷ digit 2 x ∷ digit 1 x ∷ []
digits (a ∷ b ∷ c ∷ p) =
    let x = a * 2 ^ 16 + b * 2 ^ 8 + c in digit 3 x ∷ digit 2 x ∷ digit 1 x ∷ digit 0 x ∷ digits p

padding : List ℕ → List ℕ
padding [] = []
padding (a ∷ []) = b'=' ∷ b'=' ∷ []
padding (a ∷ b ∷ []) = b'=' ∷ []
padding (a ∷ b ∷ c ∷ p) = padding p

encode-digits : (p : List ℕ) → base64_encode_blob p ≡ digits p ++ padding p
unfolding base64_encode_blob digits padding
encode-digits [] = refl
encode-digits (a ∷ []) = refl
encode-digits (a ∷ b ∷ []) = refl
encode-digits (a ∷ b ∷ c ∷ p) =
    let x = a * 2 ^ 16 + b * 2 ^ 8 + c in
    ap (λ l. digit 3 x ∷ digit 2 x ∷ digit 1 x ∷ digit 0 x ∷ l) (encode-digits p)

decode-digits : (p : List ℕ) → Bytes p → base64_decode_string (digits p) ≡ some p
unfolding base64_decode_string digits
decode-digits [] h = refl
decode-digits (a ∷ []) h =
    let x = a * 2 ^ 16 in ground (arith, h.0, decode-digit 3 x, decode-digit 2 x)
decode-digits (a ∷ b ∷ []) h =
    let x = a * 2 ^ 16 + b * 2 ^ 8 in
    ground (arith, h.0, h.1.0, decode-digit 3 x, decode-digit 2 x, decode-digit 1 x)
decode-digits (a ∷ b ∷ c ∷ p) h =
    let x = a * 2 ^ 16 + b * 2 ^ 8 + c in
    ground (
      arith,
      h.0,
      h.1.0,
      h.1.1.0,
      decode-digit 3 x,
      decode-digit 2 x,
      decode-digit 1 x,
      decode-digit 0 x,
      decode-digits p h.1.1.1,
    )

span-digits : (p : List ℕ) → span (digits p ++ padding p) ≡ length (digits p)
unfolding span digits padding
span-digits [] = refl
span-digits (a ∷ []) =
    let x = a * 2 ^ 16 in ground (arith, in_base64-digit 3 x, in_base64-digit 2 x, in_base64-pad)
span-digits (a ∷ b ∷ []) =
    let x = a * 2 ^ 16 + b * 2 ^ 8 in
    ground (arith, in_base64-digit 3 x, in_base64-digit 2 x, in_base64-digit 1 x, in_base64-pad)
span-digits (a ∷ b ∷ c ∷ p) =
    let x = a * 2 ^ 16 + b * 2 ^ 8 + c in
    ground (
      arith,
      in_base64-digit 3 x,
      in_base64-digit 2 x,
      in_base64-digit 1 x,
      in_base64-digit 0 x,
      span-digits p,
    )

length-digits :
    (p : List ℕ)
    → (base64_size_blob (length (digits p)) ≡ length p)
      × (length (digits p) + length (padding p) + 1 ≡ base64_size_string (length p))
unfolding base64_size_blob base64_size_string digits padding
length-digits [] = (omega arith, omega arith)
length-digits (a ∷ []) = (omega arith, omega arith)
length-digits (a ∷ b ∷ []) = (omega arith, omega arith)
length-digits (a ∷ b ∷ c ∷ p) = let (s, t) = length-digits p in (omega (arith, s), omega (arith, t))

-- The padding makes whole groups of four.
abbrev Shape : List ℕ → List ℕ → Type 0
Shape ds pad =
    ((pad ≡ []) × (length ds % 4 ≡ 0))
    ⊎ (((pad ≡ b'=' ∷ []) × (length ds % 4 ≡ 3)) ⊎ ((pad ≡ b'=' ∷ b'=' ∷ []) × (length ds % 4 ≡ 2)))

shape : (p : List ℕ) → Shape (digits p) (padding p)
unfolding digits padding
shape [] = inl (refl, refl)
shape (a ∷ []) = inr (inr (refl, refl))
shape (a ∷ b ∷ []) = inr (inl (refl, refl))
shape (a ∷ b ∷ c ∷ p) = elim (shape p) [
  | inl (e, n) ↦ inl (e, omega (arith, n))
  | inr (inl (e, n)) ↦ inr (inl (e, omega (arith, n)))
  | inr (inr (e, n)) ↦ inr (inr (e, omega (arith, n)))
]

pad_at-append :
    (ds pad : List ℕ) (n k : ℕ)
    → n ≡ length ds + k
    → get_elem? pad k ≡ some b'='
    → pad_at (ds ++ pad) n ≡ true
unfolding pad_at
pad_at-append ds pad n k e g = ground (arith, get_elem?-append ds pad n k e, g)

validate_lem :
    (ds pad : List ℕ)
    → Shape ds pad
    → span (ds ++ pad) ≡ length ds
    → base64_validate_string (ds ++ pad) ≡ some (length ds)
unfolding base64_validate_string
validate_lem ds pad (inl (e, n)) s =
    ground (arith, s, length-append ds pad, ap (length {A = ℕ}) e, n)
validate_lem ds pad (inr (inl (e, n))) s =
    let at = pad_at-append ds pad (length ds) 0 (omega arith) (ap (λ l. get_elem? l 0) e) in
    ground (arith, s, length-append ds pad, ap (length {A = ℕ}) e, n, at)
validate_lem ds pad (inr (inr (e, n))) s =
    let at = pad_at-append ds pad (length ds) 0 (omega arith) (ap (λ l. get_elem? l 0) e) in
    let at' = pad_at-append ds pad (length ds + 1) 1 (omega arith) (ap (λ l. get_elem? l 1) e) in
    ground (arith, s, length-append ds pad, ap (length {A = ℕ}) e, n, at, at')

-- A blob's text is valid. The text has the size that base64_size_string() announces, its length
-- without the padding gives the blob's size by base64_size_blob(), and decoding that much of it
-- gives the blob again.
pub record DecodesTo (p text : List ℕ) : Type 0 where
  pub size : ℕ
  pub valid : base64_validate_string text ≡ some size
  pub string_size : length text + 1 ≡ base64_size_string (length p)
  pub blob_size : base64_size_blob size ≡ length p
  pub decodes : base64_decode_string (take size text) ≡ some p

-- What base64_encode_blob() makes of bytes is valid, has the size that base64_size_string()
-- announces, shows the blob's size, and is decoded to the bytes again.
pub encode-DecodesTo : (p : List ℕ) → Bytes p → DecodesTo p (base64_encode_blob p)
encode-DecodesTo p h = rw (encode-digits p) (record {
  size = length (digits p);
  valid = validate_lem (digits p) (padding p) (shape p) (span-digits p);
  string_size = omega (arith, length-append (digits p) (padding p), (length-digits p).1);
  blob_size = (length-digits p).0;
  decodes =
      ap base64_decode_string (take-append_left (length (digits p)) (digits p) (padding p) refl)
      ∙ decode-digits p h;
})
