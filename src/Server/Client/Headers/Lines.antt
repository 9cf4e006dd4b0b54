-- ===== src/Server/Client/Headers/Lines.antt =====
-- The header lines that a client sends, and what the loop over them (client_callback() of
-- soml/server/client_handler.c) makes of them.
use semantic_oml.Base.{
  inr, inl, ℕ, suc, ◌≡◌, List, [], ◌∷◌, ◌++◌, Option, none, some, true, false, length, All, ◌==◌,
  arith, refl, Bool-cases, Option-cases, if◌then◌else◌, ap, ◌∙◌,
}
use semantic_oml.Value.{Doubles}
use semantic_oml.Server.Client.{◌>>=◌, Serving}
use semantic_oml.Server.Client.Meta.{Meta, Backend, process_meta}
use semantic_oml.Server.Client.Headers.{
  newline, cut, in_front, read_line, behind_value, done, end_headers, until_zero, skip_spaces,
  meta_line, one_line, header_line, process_header, go_on, process_headers, is_error,
}

-- A key and a value that a line can hold: neither has a newline or a zero, the key has no colon, and
-- the value begins with no space.
abbrev pub Begins : List ℕ → Type 0
Begins [] = ⊥
Begins (b ∷ value) = (b == b' ') ≡ false

abbrev pub Without : ℕ → List ℕ → Type 0
Without c = All (λ b. (b == c) ≡ false)

abbrev pub IsHeader : List ℕ × List ℕ → Type 0
IsHeader (key, value) =
    Without b':' key
    × Without newline key
    × Without 0 key
    × Begins value
    × Without newline value
    × Without 0 value

abbrev pub line_of : List ℕ × List ℕ → List ℕ
line_of (key, value) = key ++ (b':' ∷ b' ' ∷ value)

-- The lines, the empty line, and what follows it.
abbrev pub headers_text : List (List ℕ × List ℕ) → List ℕ → List ℕ
headers_text [] content = newline ∷ content
headers_text (h ∷ hs) content = line_of h ++ (newline ∷ headers_text hs content)

cut-append :
    (c : ℕ) (a rest : List ℕ)
    → (c == c) ≡ true
    → Without c a
    → cut c (a ++ (c ∷ rest)) ≡ some (a, rest)
unfolding cut in_front
cut-append c [] rest s h = rw s refl
cut-append c (b ∷ a) rest s (e, h) = rw (e, cut-append c a rest s h) refl

-- A line without a newline is read up to its newline.
pub read_line-append :
    (line rest : List ℕ)
    → Without newline line
    → read_line (line ++ (newline ∷ rest)) ≡ some (line, rest)
unfolding read_line
read_line-append line rest h = cut-append newline line rest refl h

pub read_line-nil : read_line [] ≡ none
unfolding read_line cut
read_line-nil = refl

pub until_zero-all : (a : List ℕ) → Without 0 a → until_zero a ≡ a
unfolding until_zero
until_zero-all [] h = refl
until_zero-all (b ∷ a) (e, h) = rw (e, until_zero-all a h) refl

Without-line :
    (key value : List ℕ)
    → Without newline key
    → Without newline value
    → Without newline (line_of (key, value))
Without-line [] value h k = (refl, (refl, k))
Without-line (b ∷ key) value (e, h) k = (e, Without-line key value h k)

skip_spaces-Begins : (value : List ℕ) → Begins value → skip_spaces (b' ' ∷ value) ≡ value
unfolding skip_spaces
skip_spaces-Begins [] h = absurd h
skip_spaces-Begins (b ∷ value) h = rw h refl

behind_value-Begins : (value rest : List ℕ) → Begins value → behind_value value rest ≡ rest
unfolding behind_value
behind_value-Begins [] rest h = absurd h
behind_value-Begins (b ∷ value) rest h = refl

module _ (dbl : Doubles) (backend : Backend) where
  -- The keys one after the other, as long as none sets the protocol error.
  abbrev pub accepted : Serving dbl.Double → List (List ℕ × List ℕ) → Option (Serving dbl.Double)
  accepted s [] = some s
  accepted s ((key, value) ∷ hs) = do
    (r, after) ← process_meta dbl backend s key value
    if is_error after.client.state then none else accepted after hs

  header_line-one :
      (s : Serving dbl.Double) (bytes key value rest : List ℕ)
      → header_line dbl backend s bytes (some (line_of (key, value), rest))
        ≡ one_line dbl backend s (line_of (key, value)) rest (cut b':' (line_of (key, value)))
  unfolding header_line
  header_line-one s bytes [] value rest = refl
  header_line-one s bytes (b ∷ key) value rest = refl

  process_header-line :
      (s : Serving dbl.Double) (key value rest : List ℕ)
      → IsHeader (key, value)
      → process_header dbl backend s (line_of (key, value) ++ (newline ∷ rest))
        ≡ meta_line dbl backend s key value rest
  unfolding process_header read_line one_line
  process_header-line s key value rest (colon, nk, zk, begins, nv, zv) =
      rw (cut-append newline (line_of (key, value)) rest refl (Without-line key value nk nv)) (
        header_line-one s (line_of (key, value) ++ (newline ∷ rest)) key value rest
        ∙ rw (cut-append b':' key (b' ' ∷ value) refl colon, skip_spaces-Begins value begins) refl)

  process_header-empty :
      (s : Serving dbl.Double) (content : List ℕ)
      → process_header dbl backend s (newline ∷ content)
        ≡ some (false, (end_headers dbl backend s, content))
  unfolding process_header read_line cut header_line
  process_header-empty s content = refl

  meta_line-accepted :
      (s after : Serving dbl.Double) (key value rest : List ℕ) (r : Meta)
      → IsHeader (key, value)
      → process_meta dbl backend s key value ≡ some (r, after)
      → is_error after.client.state ≡ false
      → meta_line dbl backend s key value rest ≡ some (true, (after, rest))
  unfolding meta_line
  meta_line-accepted s after key value rest r (_, _, zk, begins, _, zv) e x =
      rw
        (
          until_zero-all key zk,
          until_zero-all value zv,
          e,
          x,
          behind_value-Begins value rest begins,
        )
        refl

  -- Let a client send header lines, an empty line and its content, where each line is a key, a colon,
  -- a space and a value that is not empty and begins with no space, the key has no colon, and neither
  -- has a newline or a zero. If process_meta() accepts the keys and values of the lines, one after the
  -- other, without a protocol error, then the loop over the header lines does just that, ends in the
  -- state for the client's content, and leaves the content for what comes next, in a round for each
  -- line and one for the empty line.
  pub process_headers-accepted :
      (hs : List (List ℕ × List ℕ)) (s after : Serving dbl.Double) (content : List ℕ)
      → All IsHeader hs
      → accepted s hs ≡ some after
      → process_headers dbl backend (suc (length hs)) s (headers_text hs content)
        ≡ done (end_headers dbl backend after, content)
  unfolding process_headers go_on
  process_headers-accepted [] s after content h e =
      let same_serving : s ≡ after = ground (arith, e) in
      rw (process_header-empty s content)
        (ap (λ x. done (end_headers dbl backend x, content)) same_serving)
  process_headers-accepted ((key, value) ∷ hs) s after content (h, k) e =
      elim (Option-cases (process_meta dbl backend s key value)) [
        | inl n ↦ absurd (ground (arith, e, n))
        | inr ((r, next), n) ↦ elim (Bool-cases (is_error next.client.state)) [
          | inl x ↦ absurd (ground (arith, e, n, x))
          | inr x ↦
              let a : accepted next hs ≡ some after = ground (arith, e, n, x) in
              rw
                (
                  process_header-line s key value (headers_text hs content) h,
                  meta_line-accepted s next key value (headers_text hs content) r h n x,
                )
                (process_headers-accepted hs next after content k a)
        ]
      ]
