-- ===== src/Client/TextWriter/Values.antt =====
-- What oml_value_from_s() of soml/lib/shared/oml_value.c reads from the text that owt_row_cols() of
-- soml/lib/client/text_writer.c prints for a value.
use semantic_oml.Base.{
  All-weaken, All-append, ◌+◌, ◌*◌, ◌∷◌, ◌%◌, ◌/◌, List, sym, inr, inl, ◌≢◌, ℕ, ◌<◌, ◌^◌, ◌≡◌, [],
  none, some, true, false, All, arith, ap, ◌∙◌, append-nil, refl,
}
use semantic_oml.Mem.{Libc}
use semantic_oml.Mbuf.{ok}
use semantic_oml.Strings.{encode_char, backslash_encode}
use semantic_oml.Strings.Escape.{encode_lem}
use semantic_oml.Base64.{digit, base64_encode_blob, base64}
use semantic_oml.Base64.RoundTrip.{Bytes, encode-DecodesTo}
use semantic_oml.Numbers.{print_uint, print_sint, strtoull_10, strtoull, strtoll}
use semantic_oml.Numbers.Bits.{
  extended, strtoull_10-print_uint, IsNumeral, strtoull-print_uint, strtoll-print_sint,
  print_uint-IsNumeral, print_sint-IsNumeral,
}
use semantic_oml.Value.{
  Doubles, OmlValue, unknown, double, datetime, vector_double, vector_int32, vector_uint32,
  vector_int64, vector_uint64, vector_bool, oml_value_clamp_long, long, int32, uint32, int64,
  uint64, guid, string, blob, bool,
}
use semantic_oml.Value.Text.{low_bits, oml_value_from_s, oml_value_string_to_bool}
use semantic_oml.Value.Text.Cases.{
  long_from, int32_from, uint32_from, int64_from, uint64_from, guid_from, string_from,
  blob_from_lem, bool_from,
}
use semantic_oml.Client.TextWriter.{column, plain, filled}

-- No tab, no newline and no zero: the character of a parameter in a line.
abbrev pub IsClean : ℕ → Type 0
IsClean c = (c ≢ 9) × (c ≢ 10) × (c ≢ 0)

numeral-IsClean : (c : ℕ) → IsNumeral c → IsClean c
numeral-IsClean c (inl e) = (omega (arith, e), omega (arith, e), omega (arith, e))
numeral-IsClean c (inr (low, high)) = (omega (arith, low), omega (arith, low), omega (arith, low))

uint_lem : (n : ℕ) → n < 2 ^ 64 → strtoull (print_uint n) ≡ some (n, false, [])
uint_lem n h = ap strtoull (sym (append-nil (print_uint n))) ∙ strtoull-print_uint n [] h tt

uint_10_lem : (n : ℕ) → n < 2 ^ 64 → strtoull_10 (print_uint n) ≡ some (n, false, [])
uint_10_lem n h =
    ap strtoull_10 (sym (append-nil (print_uint n))) ∙ strtoull_10-print_uint n [] h tt

sint_32_lem :
    (dbl : Doubles) (libc : Libc) (n : ℕ)
    → n < 2 ^ 32
    → low_bits dbl libc (strtoll (print_sint 32 n)) ≡ some (n, false, [])
unfolding low_bits
sint_32_lem dbl libc n h =
    ap (low_bits dbl libc) (
      ap strtoll (sym (append-nil (print_sint 32 n)))
      ∙ strtoll-print_sint 32 n [] (omega arith) (omega arith) h tt)
    ∙ ap (λ k. some (k, false, [])) (ground (arith, h))

sint_long_lem : (n : ℕ) → n < 2 ^ 32 → strtoll (print_sint 32 n) ≡ some (extended 32 n, false, [])
sint_long_lem n h =
    ap strtoll (sym (append-nil (print_sint 32 n)))
    ∙ strtoll-print_sint 32 n [] (omega arith) (omega arith) h tt

uint_32_lem :
    (dbl : Doubles) (libc : Libc) (n : ℕ)
    → n < 2 ^ 32
    → low_bits dbl libc (strtoull (print_uint n)) ≡ some (n, false, [])
unfolding low_bits
uint_32_lem dbl libc n h =
    ap (low_bits dbl libc) (uint_lem n (omega (arith, h)))
    ∙ ap (λ k. some (k, false, [])) (ground (arith, h))

sint_64_lem : (n : ℕ) → n < 2 ^ 64 → strtoll (print_sint 64 n) ≡ some (n, false, [])
sint_64_lem n h =
    ap strtoll (sym (append-nil (print_sint 64 n)))
    ∙ strtoll-print_sint 64 n [] (omega arith) (omega arith) h tt
    ∙ ap (λ k. some (k, false, [])) (ground (arith, h))

pad-IsClean : IsClean b'='
pad-IsClean = ground arith

base64-IsClean : (n : ℕ) → IsClean (base64 n)
unfolding base64
base64-IsClean n = ground arith

encode_char-IsClean : (c : ℕ) → c ≢ 0 → All IsClean (encode_char c)
unfolding encode_char
encode_char-IsClean c h = ground (arith, h)

encode-IsClean : (s : List ℕ) → All (λ c. c ≢ 0) s → All IsClean (backslash_encode s)
unfolding backslash_encode
encode-IsClean [] h = tt
encode-IsClean (c ∷ s) h =
    All-append IsClean (encode_char c) (backslash_encode s) (encode_char-IsClean c h.0)
      (encode-IsClean s h.1)

digit-IsClean : (k x : ℕ) → IsClean (digit k x)
unfolding digit
digit-IsClean k x = base64-IsClean (x / 64 ^ k % 64)

blob-IsClean : (bs : List ℕ) → All IsClean (base64_encode_blob bs)
unfolding base64_encode_blob
blob-IsClean [] = tt
blob-IsClean (a ∷ []) =
    let x = a * 2 ^ 16 in (digit-IsClean 3 x, (digit-IsClean 2 x, (pad-IsClean, (pad-IsClean, tt))))
blob-IsClean (a ∷ b ∷ []) =
    let x = a * 2 ^ 16 + b * 2 ^ 8 in
    (digit-IsClean 3 x, (digit-IsClean 2 x, (digit-IsClean 1 x, (pad-IsClean, tt))))
blob-IsClean (a ∷ b ∷ c ∷ p) =
    let x = a * 2 ^ 16 + b * 2 ^ 8 + c in
    (
      digit-IsClean 3 x,
      (digit-IsClean 2 x, (digit-IsClean 1 x, (digit-IsClean 0 x, blob-IsClean p))),
    )

pub numerals-IsClean : (s : List ℕ) → All IsNumeral s → All IsClean s
numerals-IsClean s h = All-weaken IsNumeral IsClean numeral-IsClean s h

clamp_lem : (n : ℕ) → n < 2 ^ 64 → oml_value_clamp_long n < 2 ^ 32
unfolding oml_value_clamp_long
clamp_lem n h = ground (arith, h)

module _ (dbl : Doubles) (libc : Libc) where
  abbrev Value : Type 0
  Value = OmlValue dbl.Double

  -- What is sent as text, and read back: any integer, string, blob, GUID or Boolean.
  abbrev pub IsTextual : Value → Type 0
  IsTextual (long n) = n < 2 ^ 64
  IsTextual (int32 n) = n < 2 ^ 32
  IsTextual (uint32 n) = n < 2 ^ 32
  IsTextual (int64 n) = n < 2 ^ 64
  IsTextual (uint64 n) = n < 2 ^ 64
  IsTextual (guid n) = n < 2 ^ 64
  IsTextual (string none) = Unit {0}
  IsTextual (string (some s)) = All (λ c. c ≢ 0) s
  IsTextual (blob none) = Unit {0}
  IsTextual (blob (some bs)) = Bytes bs
  IsTextual (bool b) = Unit {0}
  IsTextual v = ⊥

  -- What arrives: a string or blob that is NULL as an empty one, and a long clamped to 32 bits.
  abbrev pub arrives : Value → Value
  arrives (long n) = long (extended 32 (oml_value_clamp_long n))
  arrives (string none) = string (some [])
  arrives (blob none) = blob (some [])
  arrives v = v

  -- The text of `v` has no tab, newline or zero, and is read as `w` into a value of v's type.
  pub record SentAs (v w : Value) : Type 0 where
    pub text : List ℕ
    pub printed : column dbl v ≡ plain text
    pub clean : All IsClean text
    pub read : oml_value_from_s dbl libc v text ≡ some (ok, w)

  number_sent :
      (v w : Value) (text : List ℕ)
      → column dbl v ≡ plain text
      → All IsNumeral text
      → oml_value_from_s dbl libc v text ≡ some (ok, w)
      → SentAs v w
  number_sent v w text e h r = record {
    text = text;
    printed = e;
    clean = numerals-IsClean text h;
    read = r;
  }

  string_sent : (s : List ℕ) → All (λ c. c ≢ 0) s → SentAs (string (some s)) (string (some s))
  unfolding column filled oml_value_from_s backslash_encode base64_encode_blob
  string_sent [] h = record {
    text = [];
    printed = refl;
    clean = tt;
    read = string_from dbl libc [] [] (encode_lem []).0;
  }
  string_sent (c ∷ s) h = record {
    text = backslash_encode (c ∷ s);
    printed = refl;
    clean = encode-IsClean (c ∷ s) h;
    read = string_from dbl libc (backslash_encode (c ∷ s)) (c ∷ s) (encode_lem (c ∷ s)).0;
  }

  blob_sent : (bs : List ℕ) → Bytes bs → SentAs (blob (some bs)) (blob (some bs))
  unfolding column filled oml_value_from_s backslash_encode base64_encode_blob
  blob_sent [] h =
      let d = encode-DecodesTo [] tt in
      record {
        text = [];
        printed = refl;
        clean = tt;
        read = blob_from_lem dbl libc [] d.size [] d.valid d.decodes;
      }
  blob_sent (b ∷ bs) h =
      let d = encode-DecodesTo (b ∷ bs) h in
      record {
        text = base64_encode_blob (b ∷ bs);
        printed = refl;
        clean = blob-IsClean (b ∷ bs);
        read =
            blob_from_lem dbl libc (base64_encode_blob (b ∷ bs)) d.size (b ∷ bs) d.valid d.decodes;
      }

  -- Any value but a double, a vector, a date or an unknown one, whose number fits its type, whose
  -- string has no zero and whose blob is bytes, is printed by owt_row_cols() as one text without a tab,
  -- a newline or a zero, which oml_value_from_s() reads back, without an error, into a value of the
  -- same type: the same value, except that NULL strings and blobs arrive as empty ones and a long is
  -- clamped to 32 bits.
  pub column-SentAs : (v : Value) → IsTextual v → SentAs v (arrives v)
  unfolding column filled oml_value_from_s backslash_encode base64_encode_blob
      oml_value_string_to_bool
  column-SentAs unknown h = elim h [ ]
  column-SentAs (double d) h = elim h [ ]
  column-SentAs (datetime s) h = elim h [ ]
  column-SentAs (vector_double ws) h = elim h [ ]
  column-SentAs (vector_int32 ws) h = elim h [ ]
  column-SentAs (vector_uint32 ws) h = elim h [ ]
  column-SentAs (vector_int64 ws) h = elim h [ ]
  column-SentAs (vector_uint64 ws) h = elim h [ ]
  column-SentAs (vector_bool bs) h = elim h [ ]
  column-SentAs (long n) h =
      let m = oml_value_clamp_long n in
      number_sent (long n) (long (extended 32 m)) (print_sint 32 m) refl (print_sint-IsNumeral 32 m)
        (long_from dbl libc (print_sint 32 m) (extended 32 m) (sint_long_lem m (clamp_lem n h)))
  column-SentAs (int32 n) h =
      number_sent (int32 n) (int32 n) (print_sint 32 n) refl (print_sint-IsNumeral 32 n)
        (int32_from dbl libc (print_sint 32 n) n (sint_32_lem dbl libc n h))
  column-SentAs (uint32 n) h =
      number_sent (uint32 n) (uint32 n) (print_uint n) refl (print_uint-IsNumeral n)
        (uint32_from dbl libc (print_uint n) n (uint_32_lem dbl libc n h))
  column-SentAs (int64 n) h =
      number_sent (int64 n) (int64 n) (print_sint 64 n) refl (print_sint-IsNumeral 64 n)
        (int64_from dbl libc (print_sint 64 n) n (sint_64_lem n h))
  column-SentAs (uint64 n) h =
      number_sent (uint64 n) (uint64 n) (print_uint n) refl (print_uint-IsNumeral n)
        (uint64_from dbl libc (print_uint n) n (uint_lem n h))
  column-SentAs (guid n) h =
      number_sent (guid n) (guid n) (print_uint n) refl (print_uint-IsNumeral n)
        (guid_from dbl libc (print_uint n) n (uint_10_lem n h))
  column-SentAs (string none) h = record {
    text = [];
    printed = refl;
    clean = tt;
    read = string_from dbl libc [] [] (encode_lem []).0;
  }
  column-SentAs (string (some s)) h = string_sent s h
  column-SentAs (blob none) h =
      let d = encode-DecodesTo [] tt in
      record {
        text = [];
        printed = refl;
        clean = tt;
        read = blob_from_lem dbl libc [] d.size [] d.valid d.decodes;
      }
  column-SentAs (blob (some bs)) h = blob_sent bs h
  column-SentAs (bool true) h = record {
    text = b'T' ∷ [];
    printed = refl;
    clean = ((omega arith, omega arith, omega arith), tt);
    read = bool_from dbl libc (b'T' ∷ []) true refl;
  }
  column-SentAs (bool false) h = record {
    text = b'F' ∷ [];
    printed = refl;
    clean = ((omega arith, omega arith, omega arith), tt);
    read = bool_from dbl libc (b'F' ∷ []) false refl;
  }
