-- ===== src/Value/Text/Cases.antt =====
-- oml_value_ut_from_s() of soml/lib/shared/oml_value.c, type by type, for a text that is read whole.
use semantic_oml.Base.{[], ℕ, ◌≡◌, List, some, false, Bool, ap, ◌∙◌, take, Option}
use semantic_oml.Mem.{Libc}
use semantic_oml.Mbuf.{ok}
use semantic_oml.Base64.{base64_validate_string, base64_decode_string}
use semantic_oml.Strings.{backslash_decode}
use semantic_oml.Numbers.{strtoll, strtoull, strtoull_10}
use semantic_oml.Value.{
  string_value, int32_value, long_value, long, uint32_value, int64_value, uint64_value, guid_value,
  bool_value, blob_value, OmlValue, Doubles, int32, uint32, int64, uint64, guid, string, blob, bool,
}
use semantic_oml.Value.Text.{
  oml_value_ut_from_s, number_from, text_from, blob_from, low_bits, oml_value_string_to_bool,
  in_range,
}

module _ (dbl : Doubles) (libc : Libc) (s : List ℕ) where
  number_lem :
      (make : ℕ → OmlValue dbl.Double) (k : Option (ℕ × Bool × List ℕ)) (n : ℕ)
      → k ≡ some (n, false, [])
      → some (number_from dbl libc make k) ≡ some (ok, make n)
  unfolding number_from in_range
  number_lem make k n e = ap (λ x. some (number_from dbl libc make x)) e

  pub long_from :
      (n : ℕ)
      → strtoll s ≡ some (n, false, [])
      → oml_value_ut_from_s dbl libc long_value s ≡ some (ok, long n)
  unfolding oml_value_ut_from_s
  long_from n e = number_lem long (strtoll s) n e

  pub int32_from :
      (n : ℕ)
      → low_bits dbl libc (strtoll s) ≡ some (n, false, [])
      → oml_value_ut_from_s dbl libc int32_value s ≡ some (ok, int32 n)
  unfolding oml_value_ut_from_s
  int32_from n e = number_lem int32 (low_bits dbl libc (strtoll s)) n e

  pub uint32_from :
      (n : ℕ)
      → low_bits dbl libc (strtoull s) ≡ some (n, false, [])
      → oml_value_ut_from_s dbl libc uint32_value s ≡ some (ok, uint32 n)
  unfolding oml_value_ut_from_s
  uint32_from n e = number_lem uint32 (low_bits dbl libc (strtoull s)) n e

  pub int64_from :
      (n : ℕ)
      → strtoll s ≡ some (n, false, [])
      → oml_value_ut_from_s dbl libc int64_value s ≡ some (ok, int64 n)
  unfolding oml_value_ut_from_s
  int64_from n e = number_lem int64 (strtoll s) n e

  pub uint64_from :
      (n : ℕ)
      → strtoull s ≡ some (n, false, [])
      → oml_value_ut_from_s dbl libc uint64_value s ≡ some (ok, uint64 n)
  unfolding oml_value_ut_from_s
  uint64_from n e = number_lem uint64 (strtoull s) n e

  pub guid_from :
      (n : ℕ)
      → strtoull_10 s ≡ some (n, false, [])
      → oml_value_ut_from_s dbl libc guid_value s ≡ some (ok, guid n)
  unfolding oml_value_ut_from_s
  guid_from n e = number_lem guid (strtoull_10 s) n e

  pub string_from :
      (t : List ℕ)
      → backslash_decode s ≡ some t
      → oml_value_ut_from_s dbl libc string_value s ≡ some (ok, string (some t))
  unfolding oml_value_ut_from_s text_from
  string_from t e = ap (λ x. text_from dbl libc string x) e

  pub blob_from_lem :
      (n : ℕ) (bs : List ℕ)
      → base64_validate_string s ≡ some n
      → base64_decode_string (take n s) ≡ some bs
      → oml_value_ut_from_s dbl libc blob_value s ≡ some (ok, blob (some bs))
  unfolding oml_value_ut_from_s blob_from text_from
  blob_from_lem n bs e d =
      ap (λ x. blob_from dbl libc s x) e ∙ ap (λ x. text_from dbl libc blob x) d

  pub bool_from :
      (b : Bool)
      → oml_value_string_to_bool s ≡ b
      → oml_value_ut_from_s dbl libc bool_value s ≡ some (ok, bool b)
  unfolding oml_value_ut_from_s
  bool_from b e = ap (λ x. some (ok, bool x)) e
