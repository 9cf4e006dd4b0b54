-- ===== src/Server/Lines/Columns.antt =====
-- A line of the text protocol (process_text_message() of soml/server/client_handler.c) and the columns
-- that its tabs make.
use mathlib.Core.Option.{Option}
use mathlib.Core.Option
use semantic_oml.Base.{
  inr, not, inl, ◌==◌, ◌&&◌, false, ◌≡◌, if◌then◌else◌, Option, Bool, ℕ, zero, suc, List, [], ◌∷◌,
  none, some, true, arith, refl, Bool-cases, length, ltb,
}
use semantic_oml.Server.Lines.{tab, param, params, split_line, is_empty, def_num_values}

abbrev pub into_first : ℕ → List (List ℕ) → List (List ℕ)
into_first b [] = (b ∷ []) ∷ []
into_first b (a ∷ l) = (b ∷ a) ∷ l

-- Every tab ends a column and begins another.
abbrev pub columns : List ℕ → List (List ℕ)
columns [] = [] ∷ []
columns (b ∷ p) = if b == tab then [] ∷ columns p else into_first b (columns p)

abbrev behind : Bool → List ℕ → List (List ℕ)
behind true rest = columns rest
behind false rest = []

-- What the inner loop leaves is nothing, unless a tab has stopped it.
abbrev Stopped : Bool → List ℕ → Type 0
Stopped true rest = Unit {0}
Stopped false rest = rest ≡ []

param-columns :
    (p : List ℕ)
    → (columns p ≡ (param p).0 ∷ behind (param p).2 (param p).1) × Stopped (param p).2 (param p).1
unfolding param
param-columns [] = (refl, refl)
param-columns (b ∷ p) = elim (Bool-cases (b == tab)) [
  | inl t ↦ rw t (refl, tt)
  | inr n ↦ let h = param-columns p in rw n (rw (h.0) refl, h.1)
]

abbrev pub limited : ℕ → List (List ℕ) → Option (List (List ℕ))
limited room l = if ltb (length l) room then some l else none

limited-cons :
    (room : ℕ) (a : List ℕ) (l : List (List ℕ))
    → Option.map (λ l. a ∷ l) (limited room l) ≡ limited (suc room) (a ∷ l)
limited-cons room a l = elim (Bool-cases (ltb (length l) room)) [
  | inl e ↦ ground (arith, e)
  | inr e ↦ ground (arith, e)
]

not_zero : (n : ℕ) → (suc n == 0) ≡ false
not_zero n = ground arith

-- One round of the outer loop, when the rounds behind it are right.
round :
    (room : ℕ) (a rest : List ℕ) (cut : Bool)
    → Stopped cut rest
    → ((l : Bool)
        → (is_empty rest && not l) ≡ false
        → params room l rest ≡ limited room (columns rest))
    → (if room == 0
        then none
        else Option.map (λ l. a ∷ l) (params room (cut && is_empty rest) rest))
      ≡ limited (suc room) (a ∷ behind cut rest)
unfolding params is_empty
round zero a rest true s ih = ground arith
round zero a rest false s ih = ground arith
round (suc room) a [] true s ih =
    rw (not_zero room, ih true refl) (limited-cons (suc room) a (columns []))
round (suc room) a (b ∷ rest) true s ih =
    rw (not_zero room, ih false refl) (limited-cons (suc room) a (columns (b ∷ rest)))
round (suc room) a [] false s ih = ground arith
round (suc room) a (b ∷ rest) false s ih = absurd (ground (arith, s))

params_lem :
    (room : ℕ) (lastempty : Bool) (p : List ℕ)
    → (is_empty p && not lastempty) ≡ false
    → params room lastempty p ≡ limited room (columns p)
unfolding params
params_lem zero lastempty p e = ground arith
params_lem (suc room) lastempty p e =
    let h = param-columns p in
    rw e (
      rw (h.0)
        (round room (param p).0 (param p).1 (param p).2 (h.1) (λ l. params_lem room l (param p).1)))

-- process_text_message() cuts a line at its tabs, exactly: it gives the columns of the line, of which
-- there are none for an empty line, and reports too many parameters if and only if there are 30 or
-- more.
pub split_line-columns :
    (b : ℕ) (p : List ℕ)
    → (split_line [] ≡ some []) × (split_line (b ∷ p) ≡ limited def_num_values (columns (b ∷ p)))
unfolding split_line params is_empty
split_line-columns b p = (refl, params_lem def_num_values false (b ∷ p) refl)
