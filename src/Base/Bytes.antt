-- ===== src/Base/Bytes.antt =====
-- Words as bytes in network order: what htons(3), htonl(3) and htonll() followed by memcpy(3) leave,
-- and what the opposite way reads.
use Prim.Native.Nat.{ℕ, zero, suc, ◌+◌, ◌*◌, ◌/◌, ◌%◌, ◌^◌, ◌<◌}
use mathlib.Core.Path.{◌≡◌, refl, sym, ap, ◌∙◌}
use mathlib.Core.List.{List, [], ◌∷◌, ◌++◌}
use native.Mathlib.Nat.{pow-suc}
use native.Mathlib.Omega.{arith}
use semantic_oml.Base.Lists.{
  All, length, take, drop, length-append, take-append_left, drop-append_left,
}

-- The low `k` bytes of `n`, most significant first.
unfoldable pub be : ℕ → ℕ → List ℕ
be zero n = []
be (suc k) n = be k (n / 256) ++ ((n % 256) ∷ [])

unfoldable pub from_be : ℕ → List ℕ → ℕ
from_be acc [] = acc
from_be acc (b ∷ bs) = from_be (acc * 256 + b) bs

pub length-be : (k n : ℕ) → length (be k n) ≡ k
unfolding be
length-be zero n = refl
length-be (suc k) n =
    omega (arith, length-append (be k (n / 256)) ((n % 256) ∷ []), length-be k (n / 256))

from_be-append : (acc : ℕ) (xs ys : List ℕ) → from_be acc (xs ++ ys) ≡ from_be (from_be acc xs) ys
unfolding from_be
from_be-append acc [] ys = refl
from_be-append acc (x ∷ xs) ys = from_be-append (acc * 256 + x) xs ys

-- A number that `k` bytes hold is read back, behind what was read before.
from_be-be_acc : (k n acc : ℕ) → n < 256 ^ k → from_be acc (be k n) ≡ acc * 256 ^ k + n
unfolding be from_be
from_be-be_acc zero n acc h = ground arith
from_be-be_acc (suc k) n acc h =
    from_be-append acc (be k (n / 256)) ((n % 256) ∷ [])
    ∙ ap (λ a. a * 256 + n % 256) (from_be-be_acc k (n / 256) acc (omega (arith, pow-suc 256 k)))
    ∙ rw (pow-suc 256 k) (omega arith)

pub from_be-be : (k n : ℕ) → n < 256 ^ k → from_be 0 (be k n) ≡ n
from_be-be k n h = omega (arith, from_be-be_acc k n 0 h)

pub from_be_byte : (b : ℕ) → from_be 0 (b ∷ []) ≡ b
unfolding from_be
from_be_byte b = omega arith

-- A sequence of words of `k` bytes.
unfoldable pub pack : ℕ → List ℕ → List ℕ
pack k [] = []
pack k (w ∷ ws) = be k w ++ pack k ws

unfoldable pub unpack : ℕ → ℕ → List ℕ → List ℕ
unpack k zero bs = []
unpack k (suc n) bs = from_be 0 (take k bs) ∷ unpack k n (drop k bs)

pub length-pack : (k : ℕ) (ws : List ℕ) → length (pack k ws) ≡ length ws * k
unfolding pack
length-pack k [] = omega arith
length-pack k (w ∷ ws) =
    omega (arith, length-append (be k w) (pack k ws), length-be k w, length-pack k ws)

pub unpack-pack :
    (k : ℕ) (ws : List ℕ) → All (λ w. w < 256 ^ k) ws → unpack k (length ws) (pack k ws) ≡ ws
unfolding pack unpack
unpack-pack k [] h = refl
unpack-pack k (w ∷ ws) h = rw (
  take-append_left k (be k w) (pack k ws) (sym (length-be k w)),
  drop-append_left k (be k w) (pack k ws) (sym (length-be k w)),
  from_be-be k w h.0,
  unpack-pack k ws h.1,
)
