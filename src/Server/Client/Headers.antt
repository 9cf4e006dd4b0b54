-- ===== src/Server/Client/Headers.antt =====
-- read_line(), process_header() and the loop over it in client_callback(), of
-- soml/server/client_handler.c. The MBuffer is the bytes of it that are not read yet.
pub mod Cuts
pub mod Ends
pub mod Lines
use semantic_oml.Base.{
  ℕ, zero, suc, ◌+◌, List, [], ◌∷◌, ◌++◌, Option, none, some, Bool, true, false, not, ◌==◌,
  if◌then◌else◌,
}
use semantic_oml.Value.{Doubles}
use semantic_oml.Server.Client.{
  CState, c_header, c_protocol_error, c_binary_data, c_text_data, c_binary_skip, Serving, ◌>>=◌,
  failed,
}
use semantic_oml.Server.Client.Meta.{Backend, process_meta}

abbrev pub newline : ℕ
newline = 10

in_front : ℕ → Option (List ℕ × List ℕ) → Option (List ℕ × List ℕ)
in_front b none = none
in_front b (some (a, rest)) = some (b ∷ a, rest)

-- The bytes before the first `c`, and those behind it.
pub cut : ℕ → List ℕ → Option (List ℕ × List ℕ)
unfolding in_front
cut c [] = none
cut c (b ∷ bytes) = let rest = cut c bytes in if b == c then some ([], bytes) else in_front b rest

-- A line, and what follows its newline.
pub read_line : List ℕ → Option (List ℕ × List ℕ)
read_line bytes = cut newline bytes

-- The string that begins there: what stands before a zero.
pub until_zero : List ℕ → List ℕ
until_zero [] = []
until_zero (b ∷ s) = let rest = until_zero s in if b == 0 then [] else b ∷ rest

skip_spaces : List ℕ → List ℕ
skip_spaces [] = []
skip_spaces (b ∷ s) = let rest = skip_spaces s in if b == b' ' then rest else b ∷ s

-- chomp() of a value that is empty at the end of its line puts a zero over the first byte of the next
-- line. Where that has not come, the byte is no part of what is read, and left out.
pub behind_value : List ℕ → List ℕ → List ℕ
behind_value (b ∷ value) rest = rest
behind_value [] [] = []
behind_value [] (b ∷ rest) = 0 ∷ rest

unfoldable pub is_error : CState → Bool
is_error c_protocol_error = true
is_error c_header = false
is_error c_binary_data = false
is_error c_text_data = false
is_error c_binary_skip = false

pub data Run (A : Type 0) : Type 0 where
  done : A → Run A
  fault : Run A
  out_of_fuel : Run A

module _ (dbl : Doubles) (backend : Backend) where
  abbrev Left : Type 0
  Left = Serving dbl.Double × List ℕ

  -- The state after the empty line.
  pub end_headers : Serving dbl.Double → Serving dbl.Double
  end_headers s = record s { client = record s.client { state = s.client.content } }

  -- A line with a key and, behind its colon, a value. The result is true to go on in the headers.
  pub meta_line : Serving dbl.Double → List ℕ → List ℕ → List ℕ → Option (Bool × Left)
  unfolding until_zero
  meta_line s key value rest = do
    (r, after) ← process_meta dbl backend s (until_zero key) (until_zero value)
    some (not (is_error after.client.state), (after, behind_value value rest))

  -- A malformed line stays in the buffer, with a zero for its newline.
  pub one_line :
      Serving dbl.Double → List ℕ → List ℕ → Option (List ℕ × List ℕ) → Option (Bool × Left)
  unfolding skip_spaces
  one_line s line rest none = some (false, (failed dbl s, line ++ (0 ∷ rest)))
  one_line s line rest (some (key, value)) = meta_line s key (skip_spaces value) rest

  pub header_line : Serving dbl.Double → List ℕ → Option (List ℕ × List ℕ) → Option (Bool × Left)
  header_line s bytes none = some (false, (s, bytes))
  header_line s bytes (some ([], rest)) = some (false, (end_headers s, rest))
  header_line s bytes (some (b ∷ line, rest)) = one_line s (b ∷ line) rest (cut b':' (b ∷ line))

  pub process_header : Serving dbl.Double → List ℕ → Option (Bool × Left)
  process_header s bytes = header_line s bytes (read_line bytes)

  go_on : Option (Bool × Left) → (Serving dbl.Double → List ℕ → Run Left) → Run Left
  go_on none again = fault
  go_on (some (true, (s, rest))) again = again s rest
  go_on (some (false, left)) again = done left

  -- while (process_header (self, mbuf));
  pub process_headers : ℕ → Serving dbl.Double → List ℕ → Run Left
  unfolding go_on
  process_headers zero s bytes = out_of_fuel
  process_headers (suc fuel) s bytes = go_on (process_header s bytes) (process_headers fuel)
