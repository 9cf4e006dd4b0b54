-- ===== src/Client/TextWriter.antt =====
-- soml/lib/client/text_writer.c: a row of a measurement stream in the text protocol. The lock, the
-- chain of buffers that the row's MBuffer is taken from, the count of its messages, and the copy of a
-- row of stream 0 that is kept to be sent again are left out.
pub mod Values
pub mod Rows
use semantic_oml.Base.{
  ℕ, ◌+◌, List, [], ◌∷◌, ◌++◌, Option, none, some, Bool, true, false, ltb, map, length,
  if◌then◌else◌,
}
use semantic_oml.Base.Int.{ℤ}
use semantic_oml.Base.Text.{codes}
use semantic_oml.Mem.{Libc}
use semantic_oml.Mbuf.{M, pure, ◌>>=◌, Status, ok, fail}
use semantic_oml.Mbuf.Transfer.{mbuf_print, mbuf_write}
use semantic_oml.Mbuf.Message.{mbuf_begin_write, mbuf_reset_write}
use semantic_oml.Base64.{base64_encode_blob}
use semantic_oml.Strings.{backslash_encode, encode_char}
use semantic_oml.Numbers.{print_uint, print_sint, print_int}
use semantic_oml.Value.{
  Doubles, OmlValue, oml_value_clamp_long, unknown, double, long, int32, uint32, int64, uint64,
  guid, string, datetime, blob, bool, vector_double, vector_int32, vector_uint32, vector_int64,
  vector_uint64, vector_bool,
}

abbrev tab : ℕ
tab = 9

-- What owt_row_cols() prints, in order, and how it ends: after the last value, at a value whose type it
-- does not know, or with a value outside of the array.
pub data Row : Type 0 where
  finished unsupported outside : Row
  print : List ℕ → Row → Row

unfoldable pub print_all : List (List ℕ) → Row → Row
print_all [] next = next
print_all (t ∷ ts) next = print t (print_all ts next)

element : List ℕ → List ℕ
element t = b' ' ∷ t

truth : Bool → List ℕ
truth true = codes "True"
truth false = codes "False"

-- NULL and empty strings and blobs are the empty text.
filled : (List ℕ → List ℕ) → Option (List ℕ) → List ℕ
filled encode none = []
filled encode (some []) = []
filled encode (some (b ∷ s)) = encode (b ∷ s)

module _ (dbl : Doubles) where
  abbrev Value : Type 0
  Value = OmlValue dbl.Double

  pub data Column : Type 0 where
    no_column : Column
    plain : List ℕ → Column
    -- the elements of a vector
    vector : List (List ℕ) → Column

  -- The text of a value, without the tab in front.
  unfoldable pub column : Value → Column
  unfolding element truth filled backslash_encode encode_char print_uint print_sint
  column unknown = no_column
  column (double d) = plain (dbl.print_f d)
  column (long n) = plain (print_sint 32 (oml_value_clamp_long n))
  column (int32 n) = plain (print_sint 32 n)
  column (uint32 n) = plain (print_uint n)
  column (int64 n) = plain (print_sint 64 n)
  column (uint64 n) = plain (print_uint n)
  column (guid n) = plain (print_uint n)
  column (string s) = plain (filled backslash_encode s)
  column (datetime s) = no_column
  column (blob s) = plain (filled base64_encode_blob s)
  column (bool true) = plain (b'T' ∷ [])
  column (bool false) = plain (b'F' ∷ [])
  column (vector_double ws) = vector (map (λ w. element (dbl.print_g w)) ws)
  column (vector_int32 ws) = vector (map (λ w. element (print_sint 32 w)) ws)
  column (vector_uint32 ws) = vector (map (λ w. element (print_uint w)) ws)
  column (vector_int64 ws) = vector (map (λ w. element (print_sint 64 w)) ws)
  column (vector_uint64 ws) = vector (map (λ w. element (print_uint w)) ws)
  column (vector_bool bs) = vector (map (λ b. element (truth b)) bs)

  -- The value at index `i`, and what follows. The loop over a vector counts in the same variable as
  -- the loop over the values does, and leaves the number of its elements there.
  pub print_column : Column → ℕ → (ℕ → Row) → Row
  unfolding print_all
  print_column no_column i next = unsupported
  print_column (plain t) i next = print (tab ∷ t) (next (i + 1))
  print_column (vector ts) i next =
      print (tab ∷ print_uint (length ts)) (print_all ts (next (length ts + 1)))

  -- owt_row_cols(), from the value at the pointer on: the one at index `i`, as the loop counts.
  pub row_cols : List Value → ℕ → ℕ → Row
  row_cols [] value_count i = if ltb i value_count then outside else finished
  row_cols (v ∷ vs) value_count i =
      let here = print_column (column v) i (row_cols vs value_count) in
      if ltb i value_count then here else finished

module _ (libc : Libc) where
  on_print : M Bool → Status → M Bool
  on_print next ok = next
  on_print next fail = do _ ← mbuf_reset_write; pure false

  -- A print that fails drops the row. A value outside of the array is a fault.
  pub print_row : Row → M Bool
  unfolding on_print
  print_row finished = pure true
  print_row unsupported = pure false
  print_row outside = λ m. none
  print_row (print t next) = mbuf_print libc t >>= on_print (print_row next)

module _ (dbl : Doubles) (libc : Libc) where
  -- "%f\t%d\t%ld"
  unfoldable pub row_start_text : dbl.Double → ℤ → ℕ → List ℕ
  row_start_text now index seq_no =
      dbl.print_f now ++ (tab ∷ (print_int index ++ (tab ∷ print_sint 64 seq_no)))

  -- `false` is a failure, after which the row's MBuffer is NULL.
  pub owt_row_start : dbl.Double → ℤ → ℕ → M Bool
  unfolding on_print
  owt_row_start now index seq_no = do
    _ ← mbuf_begin_write
    s ← mbuf_print libc (row_start_text now index seq_no)
    on_print libc (pure true) s

  pub owt_row_cols : Bool → List (OmlValue dbl.Double) → ℕ → M Bool
  owt_row_cols false values value_count = pure false
  owt_row_cols true values value_count = print_row libc (row_cols dbl values value_count 0)

  on_end : Status → M Bool
  on_end fail = do _ ← mbuf_reset_write; pure false
  on_end ok = do _ ← mbuf_begin_write; pure true

  pub owt_row_end : Bool → M Bool
  unfolding on_end
  owt_row_end false = pure false
  owt_row_end true = mbuf_write libc (some (10 ∷ [])) 1 >>= on_end
