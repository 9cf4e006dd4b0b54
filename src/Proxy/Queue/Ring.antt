-- ===== src/Proxy/Queue/Ring.antt =====
-- The ring of soml/proxy_server/message_queue.c as a list of addresses, the head first.
use semantic_oml.Base.{
  length-append, ◌%◌, ◌-◌, ℕ, suc, ◌+◌, ◌^◌, ◌<◌, ◌==◌, ◌≡◌, List, [], ◌∷◌, ◌++◌, Option, none,
  some, false, length, refl, arith, ap, ◌∙◌, sym,
}
use semantic_oml.Proxy.Queue.{
  closed, unlinked, remove_head, remove_from, linked, next_of_tail, Nodes, MsgQueue, update,
  msg_queue_add, msg_queue_head, msg_queue_remove,
}
use semantic_oml.Proxy.Queue.Chain.{
  NotIn, Distinct, last, PathBy, update_same, update_other, eq_sym, fresh_lem, NotIn-last,
  last-append, Path-append, Path-close, Path-last, NotIn-split,
}

-- A queue of the nodes of a list.
abbrev pub IsQueue : MsgQueue → List ℕ → Type 0
IsQueue q [] = (q.tail ≡ none) × (q.length ≡ 0)
IsQueue q (a ∷ l) =
    (q.tail ≡ some (last a l))
    × PathBy q.nodes a l a
    × Distinct (a ∷ l)
    × (q.length ≡ length (a ∷ l))
    × (length (a ∷ l) < 2 ^ 64)

abbrev pub first : List ℕ → Option ℕ
first [] = none
first (a ∷ l) = some a

abbrev pub rest : List ℕ → List ℕ
rest [] = []
rest (a ∷ l) = l

-- The head of the queue is that of the list, and there is no access to memory that is not allocated.
pub msg_queue_head-IsQueue :
    (q : MsgQueue) (l : List ℕ) → IsQueue q l → msg_queue_head q ≡ some (first l)
unfolding msg_queue_head next_of_tail
msg_queue_head-IsQueue q [] (t, _) = rw t refl
msg_queue_head-IsQueue q (a ∷ l) (t, p, _, _, _) = rw t (Path-last q.nodes a l a p)

-- A node that is not allocated is not in the queue.
pub NotIn-fresh : (q : MsgQueue) (l : List ℕ) (n : ℕ) → IsQueue q l → q.nodes n ≡ none → NotIn n l
NotIn-fresh q [] n h free = tt
NotIn-fresh q (a ∷ l) n (_, p, _, _, _) free = along q.nodes n a l a free p
  where
    along :
        (h : Nodes) (n a : ℕ) (l : List ℕ) (b : ℕ) → h n ≡ none → PathBy h a l b → NotIn n (a ∷ l)
    along h n a [] b free p = (eq_sym a n (fresh_lem h n a (some b) free p), tt)
    along h n a (c ∷ l) b free (p, ps) =
        (eq_sym a n (fresh_lem h n a (some c) free p), along h n c l b free ps)

-- The nodes that are not in a list are as they were.
abbrev pub SameBut : List ℕ → Nodes → Nodes → Type 0
SameBut l nodes after = (c : ℕ) → NotIn c l → after c ≡ nodes c

-- Of the head that is taken
abbrev pub Freed : List ℕ → Nodes → Type 0
Freed [] after = Unit {0}
Freed (a ∷ l) after = after a ≡ none

-- A node that was not allocated comes behind the last of the list.
pub msg_queue_add-IsQueue :
    (q : MsgQueue) (l : List ℕ) (node : ℕ)
    → IsQueue q l
    → q.nodes node ≡ none
    → length l + 1 < 2 ^ 64
    → (after : MsgQueue) × (msg_queue_add (some node) q ≡ some (some node, after))
      × IsQueue after (l ++ (node ∷ []))
      × SameBut (l ++ (node ∷ [])) q.nodes after.nodes
unfolding msg_queue_add linked
msg_queue_add-IsQueue q [] node (t, n) free h =
    let nodes = update q.nodes node (some (some node)) in
    (
      record { length = (q.length + 1) % 2 ^ 64; tail = some node; nodes = nodes },
      rw t refl,
      (refl, update_same q.nodes node (some (some node)), (tt, tt), ground (arith, n), omega arith),
      λ c k. update_other q.nodes node c (some (some node)) k.0,
    )
msg_queue_add-IsQueue q (a ∷ l) node (t, p, d, n, _) free h =
    let (e, p', d') = Path-append q.nodes node a l a free p d in
    let len = length-append l (node ∷ []) in
    (
      record {
        length = (q.length + 1) % 2 ^ 64;
        tail = some node;
        nodes = update (update q.nodes node (some (some a))) (last a l) (some (some node));
      },
      rw (t, e) refl,
      (
        ap some (sym (last-append a node l)),
        p',
        d',
        ground (arith, n, len, h),
        omega (arith, len, h),
      ),
      λ c k.
          let (away, other) = NotIn-split c node (a ∷ l) k in
          update_other (update q.nodes node (some (some a))) (last a l) c (some (some node))
            (NotIn-last c a l away)
          ∙ update_other q.nodes node c (some (some a)) other,
    )

pub one_less : (n k : ℕ) → n ≡ suc k → n < 2 ^ 64 → (n + (2 ^ 64 - 1)) % 2 ^ 64 ≡ k
one_less n k e h = omega (arith, e, h)

-- The head is taken from the list, and freed.
pub msg_queue_remove-IsQueue :
    (q : MsgQueue) (l : List ℕ)
    → IsQueue q l
    → (after : MsgQueue) × (msg_queue_remove q ≡ some after)
      × IsQueue after (rest l)
      × SameBut l q.nodes after.nodes
      × Freed l after.nodes
unfolding msg_queue_remove remove_from remove_head unlinked closed
msg_queue_remove-IsQueue q [] (t, n) = (q, rw t refl, (t, n), (λ c k. refl), tt)
msg_queue_remove-IsQueue q (a ∷ []) (t, p, d, n, h) =
    let less = one_less q.length 0 n (omega (arith, n, h)) in
    (
      record { length = 0; tail = none; nodes = update q.nodes a none },
      rw (t, p, less) refl,
      (refl, refl),
      (λ c k. update_other q.nodes a c none k.0),
      update_same q.nodes a none,
    )
msg_queue_remove-IsQueue q (a ∷ b ∷ l) (t, (p, ps), (d, ds), n, h) =
    let less = one_less q.length (suc (length l)) n (omega (arith, n, h)) in
    let more : (suc (length l) == 0) ≡ false = ground arith in
    (
      record {
        length = suc (length l);
        tail = some (last b l);
        nodes = update (update q.nodes (last b l) (some (some b))) a none;
      },
      rw (t, Path-last q.nodes b l a ps, less, more, p) refl,
      (refl, Path-close q.nodes a b l a b ps ds d, ds, refl, omega (arith, h)),
      (λ c k.
          update_other (update q.nodes (last b l) (some (some b))) a c none k.0
          ∙ update_other q.nodes (last b l) c (some (some b)) (NotIn-last c b l k.1)),
      update_same (update q.nodes (last b l) (some (some b))) a none,
    )
