-- ===== src/Base/Text.antt =====
-- Texts as their bytes, and strcmp(3) as a test.
use Prim.Native.Char.{code}
use Prim.Native.String.{String}
use Prim.Native.Nat.{ℕ}
use mathlib.Core.Path.{◌≡◌, refl, ap₂}
use mathlib.Core.Bool.{Bool, true, false, ◌&&◌}
use mathlib.Core.List.{List, [], ◌∷◌}
use native.Mathlib.Omega.{arith}
use semantic_oml.Base.Tests.{◌==◌}

abbrev pub codes : String → List ℕ
codes String.[] = []
codes (String.◌∷◌ c s) = code c ∷ codes s

-- strcmp (a, b) == 0
unfoldable pub same : List ℕ → List ℕ → Bool
same [] [] = true
same [] (y ∷ ys) = false
same (x ∷ xs) [] = false
same (x ∷ xs) (y ∷ ys) = (x == y) && same xs ys

pub same_refl : (xs : List ℕ) → same xs xs ≡ true
unfolding same
same_refl [] = refl
same_refl (x ∷ xs) = ground (arith, same_refl xs)

pub same_eq : (xs ys : List ℕ) → same xs ys ≡ true → xs ≡ ys
unfolding same
same_eq [] [] e = refl
same_eq [] (y ∷ ys) e = absurd (ground (arith, e))
same_eq (x ∷ xs) [] e = absurd (ground (arith, e))
same_eq (x ∷ xs) (y ∷ ys) e =
    let h : x ≡ y = ground (arith, e) in
    let t : same xs ys ≡ true = ground (arith, e) in ap₂ (λ a l. a ∷ l) h (same_eq xs ys t)
