-- ===== src/Server/Lines.antt =====
-- soml/server/client_handler.c: how process_text_message() cuts a line of the text protocol into
-- parameters. A line is its bytes without the newline.
pub mod Columns
use mathlib.Core.Option
use semantic_oml.Base.{
  refl, inl, Bool-cases, inr, ◌⊎◌, ◌≡◌, ℕ, zero, suc, ◌==◌, List, [], ◌∷◌, Option, none, some, Bool,
  true, false, not, ◌&&◌, ◌||◌, leb, ltb, length, if◌then◌else◌,
}

abbrev pub tab : ℕ
tab = 9

abbrev pub def_num_values : ℕ
def_num_values = 30

-- The inner loop: the bytes before a tab, those behind it, and whether there was one.
pub param : List ℕ → List ℕ × List ℕ × Bool
param [] = ([], [], false)
param (b ∷ p) =
    let (a, rest, cut) = param p in if b == tab then ([], p, true) else (b ∷ a, rest, cut)

pub is_empty : List ℕ → Bool
is_empty [] = true
is_empty (b ∷ p) = false

-- The outer loop, with room for `room` parameters in the array; the last place must stay free.
-- `none` is the error of too many parameters.
pub params : ℕ → Bool → List ℕ → Option (List (List ℕ))
unfolding is_empty
params zero lastempty p = none
params (suc room) lastempty p =
    let (a, rest, cut) = param p in
    let others = params room (cut && is_empty rest) rest in
    if is_empty p && not lastempty
    then some []
    else if room == 0
    then none
    else Option.map (λ l. a ∷ l) others

unfoldable pub split_line : List ℕ → Option (List (List ℕ))
unfolding params param is_empty
split_line line = params def_num_values false line
