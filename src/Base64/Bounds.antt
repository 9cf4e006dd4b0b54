-- ===== src/Base64/Bounds.antt =====
-- The buffer that the caller of base64_decode_string() (soml/lib/shared/base64.c) provides is full
-- and not overrun.
use semantic_oml.Base.{ℕ, ◌≡◌, List, [], ◌∷◌, ◌++◌, Option, none, some, length, arith, refl}
use semantic_oml.Base64.{base64_decode_string, base64_size_blob, bytes_of}

bytes_of_inv :
    (o : Option ℕ) (make : ℕ → List ℕ) (rest : Option (List ℕ)) (out : List ℕ)
    → bytes_of o make rest ≡ some out
    → (x : ℕ) × (bs : List ℕ) × (rest ≡ some bs) × (out ≡ make x ++ bs)
unfolding bytes_of
bytes_of_inv none make rest out e = absurd (ground (arith, e))
bytes_of_inv (some x) make none out e = absurd (ground (arith, e))
bytes_of_inv (some x) make (some bs) out e = (x, bs, refl, ground (arith, e))

-- If decoding succeeds, as many bytes are written as base64_size_blob() says, no more and no less.
pub length-decode :
    (s out : List ℕ) → base64_decode_string s ≡ some out → length out ≡ base64_size_blob (length s)
unfolding base64_decode_string base64_size_blob
length-decode [] out e = ground (arith, e)
length-decode (a ∷ []) out e = absurd (ground (arith, e))
length-decode (a ∷ b ∷ []) out e =
    let (x, bs, r, o) = bytes_of_inv _ _ _ out e in ground (arith, r, o)
length-decode (a ∷ b ∷ c ∷ []) out e =
    let (x, bs, r, o) = bytes_of_inv _ _ _ out e in ground (arith, r, o)
length-decode (a ∷ b ∷ c ∷ d ∷ s) out e =
    let (x, bs, r, o) = bytes_of_inv _ _ _ out e in ground (arith, o, length-decode s bs r)
