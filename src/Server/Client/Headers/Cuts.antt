-- ===== src/Server/Client/Headers/Cuts.antt =====
-- The lines that read_line() of soml/server/client_handler.c cuts off: what is left is shorter, and
-- begins where a line does.
use semantic_oml.Base.{
  ℕ, ◌<◌, ◌≡◌, ◌⊎◌, inl, inr, List, [], ◌∷◌, ◌++◌, Option, none, some, length, drop, arith, refl,
  sym, ap, ◌∙◌, subst, append_assoc, Bool-cases, ◌==◌,
}
use semantic_oml.Server.Client.Headers.{newline, cut, in_front, read_line, behind_value}

-- What is cut is shorter.
abbrev pub Shorter : List ℕ → Option (List ℕ × List ℕ) → Type 0
Shorter bytes none = Unit {0}
Shorter bytes (some (a, rest)) = length rest < length bytes

in_front-Shorter :
    (b : ℕ) (bytes : List ℕ) (o : Option (List ℕ × List ℕ))
    → Shorter bytes o
    → Shorter (b ∷ bytes) (in_front b o)
unfolding in_front
in_front-Shorter b bytes none h = tt
in_front-Shorter b bytes (some (a, rest)) h = omega (arith, h)

pub cut-Shorter : (c : ℕ) (bytes : List ℕ) → Shorter bytes (cut c bytes)
unfolding cut
cut-Shorter c [] = tt
cut-Shorter c (b ∷ bytes) = elim (Bool-cases (b == c)) [
  | inl e ↦ rw e (omega arith)
  | inr e ↦ rw e (in_front-Shorter b bytes (cut c bytes) (cut-Shorter c bytes))
]

pub read_line-Shorter : (bytes : List ℕ) → Shorter bytes (read_line bytes)
unfolding read_line
read_line-Shorter bytes = cut-Shorter newline bytes

pub length-behind_value : (value rest : List ℕ) → length (behind_value value rest) ≡ length rest
unfolding behind_value
length-behind_value (b ∷ value) rest = refl
length-behind_value [] [] = refl
length-behind_value [] (b ∷ rest) = refl

-- What is cut stands in front of the byte, and the rest behind it.
abbrev pub Splits : ℕ → List ℕ → Option (List ℕ × List ℕ) → Type 0
Splits c bytes none = Unit {0}
Splits c bytes (some (a, rest)) = bytes ≡ a ++ (c ∷ rest)

in_front-Splits :
    (c b : ℕ) (bytes : List ℕ) (o : Option (List ℕ × List ℕ))
    → Splits c bytes o
    → Splits c (b ∷ bytes) (in_front b o)
unfolding in_front
in_front-Splits c b bytes none h = tt
in_front-Splits c b bytes (some (a, rest)) h = ap (λ l. b ∷ l) h

pub cut-Splits : (c : ℕ) (bytes : List ℕ) → Splits c bytes (cut c bytes)
unfolding cut
cut-Splits c [] = tt
cut-Splits c (b ∷ bytes) = elim (Bool-cases (b == c)) [
  | inl e ↦ let same : b ≡ c = ground (arith, e) in rw e (ap (λ x. x ∷ bytes) same)
  | inr e ↦ rw e (in_front-Splits c b bytes (cut c bytes) (cut-Splits c bytes))
]

-- A place where a line of the bytes begins.
abbrev pub AtLine : List ℕ → List ℕ → Type 0
AtLine all rest = (rest ≡ all) ⊎ ((before : List ℕ) × (all ≡ before ++ (newline ∷ rest)))

-- The same, where chomp() may have put a zero over the first byte.
abbrev pub AtLineOrZero : List ℕ → List ℕ → Type 0
AtLineOrZero all rest =
    AtLine all rest ⊎ ((b : ℕ) × (tail : List ℕ) × (rest ≡ 0 ∷ tail) × AtLine all (b ∷ tail))

next_line : (all line rest : List ℕ) → AtLine all (line ++ (newline ∷ rest)) → AtLine all rest
next_line all line rest (inl e) = inr (line, sym e)
next_line all line rest (inr (before, e)) =
    inr
      (before ++ (newline ∷ line), e ∙ sym (append_assoc before (newline ∷ line) (newline ∷ rest)))

pub next_line_or_zero :
    (all line rest : List ℕ) → AtLineOrZero all (line ++ (newline ∷ rest)) → AtLine all rest
next_line_or_zero all line rest (inl h) = next_line all line rest h
next_line_or_zero all [] rest (inr (b, tail, e, h)) = absurd (ground (arith, e))
next_line_or_zero all (c ∷ line) rest (inr (b, tail, e, h)) =
    let same : tail ≡ line ++ (newline ∷ rest) = sym (ap (drop 1) e) in
    next_line all (b ∷ line) rest (subst (λ l. AtLine all (b ∷ l)) same h)

pub empty_line :
    (all rest : List ℕ) → AtLineOrZero all (newline ∷ rest) → AtLine all (newline ∷ rest)
empty_line all rest (inl h) = h
empty_line all rest (inr (b, tail, e, h)) = absurd (ground (arith, e))

pub behind_value-AtLine :
    (all value rest : List ℕ) → AtLine all rest → AtLineOrZero all (behind_value value rest)
unfolding behind_value
behind_value-AtLine all (b ∷ value) rest h = inl h
behind_value-AtLine all [] [] h = inl h
behind_value-AtLine all [] (b ∷ rest) h = inr (b, rest, refl, h)
