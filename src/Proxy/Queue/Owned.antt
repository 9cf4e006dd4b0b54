-- ===== src/Proxy/Queue/Owned.antt =====
-- The nodes that a queue of soml/proxy_server/message_queue.c owns, and those that it leaves alone.
use semantic_oml.Base.{
  ℕ, ◌==◌, ◌≡◌, List, [], ◌∷◌, ◌++◌, none, All, All-append, All-weaken, Bool-cases, inl, inr, refl,
  arith, ap, ◌∙◌, sym,
}
use semantic_oml.Proxy.Queue.{Nodes, update}
use semantic_oml.Proxy.Queue.Chain.{NotIn, NotIn-split, update_same, update_other}
use semantic_oml.Proxy.Queue.Ring.{SameBut, Freed, rest}

-- The nodes are those of `base`, where none of a list's is allocated, but for the list's.
abbrev pub Owns : Nodes → Nodes → List ℕ → Type 0
Owns base nodes xs = SameBut xs base nodes × All (λ x. base x ≡ none) xs

pub Owns-add :
    (base nodes after : Nodes) (xs : List ℕ) (n : ℕ)
    → Owns base nodes xs
    → NotIn n xs
    → nodes n ≡ none
    → SameBut (xs ++ (n ∷ [])) nodes after
    → Owns base after (xs ++ (n ∷ []))
Owns-add base nodes after xs n (same, free) away e h = (
  (λ c k. h c k ∙ same c (NotIn-split c n xs k).0),
  All-append (λ x. base x ≡ none) xs (n ∷ []) free (sym (same n away) ∙ e, tt),
)

pub Owns-remove :
    (base nodes after : Nodes) (xs : List ℕ)
    → Owns base nodes xs
    → SameBut xs nodes after
    → Freed xs after
    → Owns base after (rest xs)
Owns-remove base nodes after [] (same, free) h freed = ((λ c k. h c k ∙ same c k), free)
Owns-remove base nodes after (x ∷ xs) (same, free) h freed = (
  (λ c k. elim (Bool-cases (c == x)) [
    | inl e ↦
        let at : c ≡ x = ground (arith, e) in ap after at ∙ freed ∙ sym (free.0) ∙ ap base (sym at)
    | inr e ↦ h c (e, k) ∙ same c (e, k)
  ]),
  free.1,
)

-- The nodes without those of a list.
pub owned_from : Nodes → List ℕ → Nodes
owned_from nodes [] = nodes
owned_from nodes (x ∷ xs) = update (owned_from nodes xs) x none

update-none : (h : Nodes) (x y : ℕ) → h y ≡ none → update h x none y ≡ none
unfolding update
update-none h x y e = ground (arith, e)

pub owned_from-Owns : (nodes : Nodes) (xs : List ℕ) → Owns (owned_from nodes xs) nodes xs
unfolding owned_from
owned_from-Owns nodes [] = ((λ c k. refl), tt)
owned_from-Owns nodes (x ∷ xs) =
    let base = owned_from nodes xs in
    let (same, free) = owned_from-Owns nodes xs in
    (
      (λ c k. same c k.1 ∙ sym (update_other base x c none k.0)),
      (
        update_same base x none,
        All-weaken (λ y. base y ≡ none) (λ y. update base x none y ≡ none) (update-none base x) xs
            free,
      ),
    )
