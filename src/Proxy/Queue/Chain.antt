-- ===== src/Proxy/Queue/Chain.antt =====
-- Nodes of soml/proxy_server/message_queue.c that are linked one to the next, as a list of addresses.
use semantic_oml.Base.{
  ℕ, ◌==◌, ◌≡◌, List, [], ◌∷◌, ◌++◌, Option, none, some, Bool-cases, inl, inr, false, refl, arith,
  ap, ◌∙◌, sym,
}
use semantic_oml.Proxy.Queue.{Nodes, update}

abbrev pub NotIn : ℕ → List ℕ → Type 0
NotIn a [] = Unit {0}
NotIn a (b ∷ l) = ((a == b) ≡ false) × NotIn a l

abbrev pub Distinct : List ℕ → Type 0
Distinct [] = Unit {0}
Distinct (a ∷ l) = NotIn a l × Distinct l

abbrev pub last : ℕ → List ℕ → ℕ
last a [] = a
last a (b ∷ l) = last b l

-- From the node `a` by each of `l` to `b`.
abbrev pub PathBy : Nodes → ℕ → List ℕ → ℕ → Type 0
PathBy h a [] b = h a ≡ some (some b)
PathBy h a (c ∷ l) b = (h a ≡ some (some c)) × PathBy h c l b

pub update_same : (h : Nodes) (a : ℕ) (v : Option (Option ℕ)) → update h a v a ≡ v
unfolding update
update_same h a v = ground arith

pub update_other :
    (h : Nodes) (a b : ℕ) (v : Option (Option ℕ)) → (b == a) ≡ false → update h a v b ≡ h b
unfolding update
update_other h a b v e = rw e refl

pub eq_sym : (a b : ℕ) → (a == b) ≡ false → (b == a) ≡ false
eq_sym a b e = ground (arith, e)

-- A node that is allocated is not one that is not.
pub fresh_lem : (h : Nodes) (n a : ℕ) (b : Option ℕ) → h n ≡ none → h a ≡ some b → (a == n) ≡ false
fresh_lem h n a b e f = elim (Bool-cases (a == n)) [
  | inr d ↦ d
  | inl d ↦ let same : a ≡ n = ground (arith, d) in absurd (ground (arith, sym f ∙ ap h same ∙ e))
]

pub NotIn-last : (a b : ℕ) (l : List ℕ) → NotIn a (b ∷ l) → (a == last b l) ≡ false
NotIn-last a b [] (e, _) = e
NotIn-last a b (c ∷ l) (_, h) = NotIn-last a c l h

pub last-append : (a n : ℕ) (l : List ℕ) → last a (l ++ (n ∷ [])) ≡ n
last-append a n [] = refl
last-append a n (b ∷ l) = last-append b n l

pub NotIn-append : (a n : ℕ) (l : List ℕ) → NotIn a l → (a == n) ≡ false → NotIn a (l ++ (n ∷ []))
NotIn-append a n [] h e = (e, tt)
NotIn-append a n (b ∷ l) (d, h) e = (d, NotIn-append a n l h e)

-- Another node behind the last.
pub Path-append :
    (h : Nodes) (n a : ℕ) (l : List ℕ) (b : ℕ)
    → h n ≡ none
    → PathBy h a l b
    → Distinct (a ∷ l)
    → (h (last a l) ≡ some (some b))
      × PathBy (update (update h n (some (some b))) (last a l) (some (some n))) a (l ++ (n ∷ [])) b
      × Distinct (a ∷ (l ++ (n ∷ [])))
Path-append h n a [] b free p d =
    let other = fresh_lem h n a (some b) free p in
    (
      p,
      (
        update_same (update h n (some (some b))) a (some (some n)),
        update_other (update h n (some (some b))) a n (some (some n)) (eq_sym a n other)
            ∙ update_same h n (some (some b)),
      ),
      ((other, tt), (tt, tt)),
    )
Path-append h n a (c ∷ l) b free (p, ps) (d, ds) =
    let (e, q, ds') = Path-append h n c l b free ps ds in
    let other = fresh_lem h n a (some c) free p in
    (
      e,
      (
        update_other (update h n (some (some b))) (last c l) a (some (some n)) (NotIn-last a c l d)
            ∙ update_other h n a (some (some b)) other
            ∙ p,
        q,
      ),
      (NotIn-append a n (c ∷ l) d other, ds'),
    )

-- The last node gets another next one, and a node elsewhere is freed.
pub Path-close :
    (h : Nodes) (x a : ℕ) (l : List ℕ) (b c : ℕ)
    → PathBy h a l b
    → Distinct (a ∷ l)
    → NotIn x (a ∷ l)
    → PathBy (update (update h (last a l) (some (some c))) x none) a l c
Path-close h x a [] b c p d (n, _) =
    update_other (update h a (some (some c))) x a none (eq_sym x a n)
    ∙ update_same h a (some (some c))
Path-close h x a (y ∷ l) b c (p, ps) (d, ds) (n, ns) = (
  update_other (update h (last y l) (some (some c))) x a none (eq_sym x a n)
      ∙ update_other h (last y l) a (some (some c)) (NotIn-last a y l d)
      ∙ p,
  Path-close h x y l b c ps ds ns,
)

pub Path-last :
    (h : Nodes) (a : ℕ) (l : List ℕ) (b : ℕ) → PathBy h a l b → h (last a l) ≡ some (some b)
Path-last h a [] b p = p
Path-last h a (c ∷ l) b (_, ps) = Path-last h c l b ps

pub NotIn-split : (c n : ℕ) (l : List ℕ) → NotIn c (l ++ (n ∷ [])) → NotIn c l × ((c == n) ≡ false)
NotIn-split c n [] (e, _) = (tt, e)
NotIn-split c n (a ∷ l) (e, h) = let (k, f) = NotIn-split c n l h in ((e, k), f)
