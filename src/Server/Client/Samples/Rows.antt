-- ===== src/Server/Client/Samples/Rows.antt =====
-- Rows of the text protocol, and what process_text_message() of soml/server/client_handler.c inserts for
-- them.
use semantic_oml.Base.{
  sym, ◌<◌, All-append, ℕ, ◌≡◌, List, [], ◌∷◌, ◌++◌, some, All, false, refl, length, arith, ap, ◌+◌,
  ◌∙◌, ◌==◌,
}
use semantic_oml.Server.Client.Headers.{newline}
use semantic_oml.Server.Client.Headers.Lines.{Without}
use semantic_oml.Server.Lines.{split_line, def_num_values, tab}
use semantic_oml.Server.Lines.Columns.{columns, limited, split_line-columns}

-- A text that can stand in a column of a row.
abbrev pub IsColumn : List ℕ → Type 0
IsColumn a = Without tab a × Without newline a × Without 0 a

-- The columns with a tab between them.
abbrev pub joined : List ℕ → List (List ℕ) → List ℕ
joined a [] = a
joined a (b ∷ l) = a ++ (tab ∷ joined b l)

columns-append : (a p : List ℕ) → Without tab a → columns (a ++ (tab ∷ p)) ≡ a ∷ columns p
columns-append [] p h = refl
columns-append (c ∷ a) p (e, h) = rw (e, columns-append a p h) refl

columns-all : (a : List ℕ) → Without tab a → columns a ≡ a ∷ []
columns-all [] h = refl
columns-all (c ∷ a) (e, h) = rw (e, columns-all a h) refl

columns-joined :
    (a : List ℕ) (l : List (List ℕ)) → IsColumn a → All IsColumn l → columns (joined a l) ≡ a ∷ l
columns-joined a [] (h, _, _) k = columns-all a h
columns-joined a (b ∷ l) (h, _, _) (g, k) =
    columns-append a (joined b l) h ∙ ap (λ x. a ∷ x) (columns-joined b l g k)

limited-some : (room : ℕ) (l : List (List ℕ)) → length l < room → limited room l ≡ some l
limited-some room l h = ground (arith, h)

split-columns :
    (p : List ℕ) (l : List (List ℕ)) (b : ℕ) (q : List ℕ)
    → p ≡ b ∷ q
    → columns p ≡ l
    → length l < def_num_values
    → split_line p ≡ some l
split-columns p l b q e c h =
    ap split_line e
    ∙ (split_line-columns b q).1
    ∙ ap (limited def_num_values) (ap columns (sym e) ∙ c)
    ∙ limited-some def_num_values l h

-- Two columns or more, and less than a line may have.
pub split_line-joined :
    (a b : List ℕ) (l : List (List ℕ))
    → All IsColumn (a ∷ b ∷ l)
    → length l + 2 < def_num_values
    → split_line (joined a (b ∷ l)) ≡ some (a ∷ b ∷ l)
split_line-joined [] b l (h, k) n =
    split-columns (joined [] (b ∷ l)) ([] ∷ b ∷ l) tab (joined b l) refl
      (columns-joined [] (b ∷ l) h k) (omega (arith, n))
split_line-joined (c ∷ a) b l (h, k) n =
    split-columns (joined (c ∷ a) (b ∷ l)) ((c ∷ a) ∷ b ∷ l) c (joined a (b ∷ l)) refl
      (columns-joined (c ∷ a) (b ∷ l) h k) (omega (arith, n))

pub newline-joined :
    (a : List ℕ) (l : List (List ℕ)) → IsColumn a → All IsColumn l → Without newline (joined a l)
newline-joined a [] (_, h, _) k = h
newline-joined a (b ∷ l) (_, h, _) (g, k) =
    All-append (λ c. (c == newline) ≡ false) a (tab ∷ joined b l) h (refl, newline-joined b l g k)
