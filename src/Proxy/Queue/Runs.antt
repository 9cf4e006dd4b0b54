-- ===== src/Proxy/Queue/Runs.antt =====
-- Calls of the functions of soml/proxy_server/message_queue.c, one after the other.
use semantic_oml.Proxy.Queue.Owned.{Owns, Owns-add, Owns-remove, owned_from, owned_from-Owns}
use semantic_oml.Base.{
  length-append, ℕ, zero, suc, ◌+◌, ◌^◌, ◌<◌, ◌≤◌, ◌==◌, ◌≡◌, List, [], ◌∷◌, ◌++◌, Option, none,
  some, false, length, refl, arith, Option-cases, inl, inr,
}
use semantic_oml.Server.Client.{◌>>=◌}
use semantic_oml.Proxy.Queue.{
  Nodes, MsgQueue, msg_queue_create, msg_queue_add, msg_queue_head, msg_queue_remove, remove_all,
}
use semantic_oml.Proxy.Queue.Ring.{
  NotIn-fresh, IsQueue, first, rest, msg_queue_head-IsQueue, msg_queue_add-IsQueue,
  msg_queue_remove-IsQueue,
}

pub data Call : Type 0 where
  add head remove : Call

-- What a call gives.
pub data Event : Type 0 where
  added headed : Option ℕ → Event
  removed : Event

-- A list of addresses in the place of the queue: what is added comes last, the head is the first.
abbrev pub Fifo : List ℕ → List Event → List ℕ → Type 0
Fifo xs [] ys = xs ≡ ys
Fifo xs (added none ∷ es) ys = Fifo xs es ys
Fifo xs (added (some a) ∷ es) ys = Fifo (xs ++ (a ∷ [])) es ys
Fifo xs (headed o ∷ es) ys = (o ≡ first xs) × Fifo xs es ys
Fifo xs (removed ∷ es) ys = Fifo (rest xs) es ys

-- The addresses that oml_malloc() gives for a node.
module _ (alloc : Nodes → Option ℕ) where
  call : Call → MsgQueue → Option (Event × MsgQueue)
  call add q = do (a, after) ← msg_queue_add (alloc q.nodes) q; some (added a, after)
  call head q = do a ← msg_queue_head q; some (headed a, q)
  call remove q = do after ← msg_queue_remove q; some (removed, after)

  pub run : List Call → MsgQueue → Option (List Event × MsgQueue)
  unfolding call
  run [] q = some ([], q)
  run (c ∷ cs) q = do (e, after) ← call c q; (es, last) ← run cs after; some (e ∷ es, last)

  -- What oml_malloc() gives is not allocated.
  abbrev pub Fresh : Type 0
  Fresh = (h : Nodes) (a : ℕ) → alloc h ≡ some a → h a ≡ none

  abbrev SimulatedOwning : Nodes → List Call → MsgQueue → List ℕ → Type 0
  SimulatedOwning base cs q xs =
      (es : List Event) × (after : MsgQueue) × (ys : List ℕ) × (run cs q ≡ some (es, after))
      × (length es ≡ length cs)
      × Fifo xs es ys
      × IsQueue after ys
      × Owns base after.nodes ys

  abbrev Simulated : List Call → MsgQueue → List ℕ → Type 0
  Simulated cs q xs =
      (es : List Event) × (after : MsgQueue) × (ys : List ℕ) × (run cs q ≡ some (es, after))
      × (length es ≡ length cs)
      × Fifo xs es ys
      × IsQueue after ys

  -- One call does what the list does, and with `base` the nodes that the queue does not own.
  abbrev Called : Nodes → Call → MsgQueue → List ℕ → Type 0
  Called base c q xs =
      (e : Event) × (after : MsgQueue) × (ys : List ℕ) × (call c q ≡ some (e, after))
      × ((es : List Event) (zs : List ℕ) → Fifo ys es zs → Fifo xs (e ∷ es) zs)
      × IsQueue after ys
      × (length ys ≤ length xs + 1)
      × Owns base after.nodes ys

  length-rest : (xs : List ℕ) → length (rest xs) ≤ length xs + 1
  length-rest [] = omega arith
  length-rest (x ∷ xs) = omega arith

  call_lem :
      (fresh : Fresh) (base : Nodes) (c : Call) (q : MsgQueue) (xs : List ℕ)
      → IsQueue q xs
      → Owns base q.nodes xs
      → length xs + 1 < 2 ^ 64
      → Called base c q xs
  unfolding call msg_queue_add
  call_lem fresh base add q xs h own l = elim (Option-cases (alloc q.nodes)) [
    | inl e ↦ (added none, q, xs, rw e refl, (λ es zs f. f), h, omega arith, own)
    | inr (a, e) ↦
        let free = fresh q.nodes a e in
        let (after, p, k, same) = msg_queue_add-IsQueue q xs a h free l in
        (
          added (some a),
          after,
          xs ++ (a ∷ []),
          rw e (rw p refl),
          (λ es zs f. f),
          k,
          omega (arith, length-append xs (a ∷ [])),
          Owns-add base q.nodes after.nodes xs a own (NotIn-fresh q xs a h free) free same,
        )
  ]
  call_lem fresh base head q xs h own l = (
    headed (first xs),
    q,
    xs,
    rw (msg_queue_head-IsQueue q xs h) refl,
    (λ es zs f. (refl, f)),
    h,
    omega arith,
    own,
  )
  call_lem fresh base remove q xs h own l =
      let (after, p, k, same, freed) = msg_queue_remove-IsQueue q xs h in
      (
        removed,
        after,
        rest xs,
        rw p refl,
        (λ es zs f. f),
        k,
        length-rest xs,
        Owns-remove base q.nodes after.nodes xs own same freed,
      )

  -- The same, with the nodes that the queue does not own.
  run_lem :
      (fresh : Fresh) (base : Nodes) (cs : List Call) (q : MsgQueue) (xs : List ℕ)
      → IsQueue q xs
      → Owns base q.nodes xs
      → length xs + length cs < 2 ^ 64
      → SimulatedOwning base cs q xs
  unfolding run
  run_lem fresh base [] q xs h own l = ([], q, xs, refl, refl, refl, h, own)
  run_lem fresh base (c ∷ cs) q xs h own l =
      let (e, after, ys, p, step, k, len, own') =
        call_lem fresh base c q xs h own (omega (arith, l)) in
      let (es, last, zs, r, n, f, k', own'') =
        run_lem fresh base cs after ys k own' (omega (arith, l, len)) in
      (e ∷ es, last, zs, rw (p, r) refl, omega (arith, n), step es zs f, k', own'')

  -- Any calls of msg_queue_add(), msg_queue_head() and msg_queue_remove(), on a queue of a list of
  -- nodes, where the list and the calls together number less than 2 ^ 64 and oml_malloc() gives
  -- addresses that are not allocated: no call accesses memory that is not allocated, and they give
  -- what a first-in, first-out list gives, which the queue holds in the end.
  pub run-Fifo :
      (fresh : Fresh) (cs : List Call) (q : MsgQueue) (xs : List ℕ)
      → IsQueue q xs
      → length xs + length cs < 2 ^ 64
      → Simulated cs q xs
  run-Fifo fresh cs q xs h l =
      let (es, last, zs, r, n, f, k, _) =
        run_lem fresh (owned_from q.nodes xs) cs q xs h (owned_from-Owns q.nodes xs) l in
      (es, last, zs, r, n, f, k)

length_zero : (q : MsgQueue) (l : List ℕ) → IsQueue q l → q.length ≡ length l
length_zero q [] (_, n) = n
length_zero q (a ∷ l) (_, _, _, n, _) = n

-- The loop of msg_queue_destroy() on a queue of a list of nodes ends, with an empty queue and none of
-- its nodes allocated, without an access to memory that is not allocated.
pub remove_all-IsQueue :
    (base : Nodes) (q : MsgQueue) (l : List ℕ) (fuel : ℕ)
    → IsQueue q l
    → Owns base q.nodes l
    → length l ≤ fuel
    → (after : MsgQueue) × (remove_all fuel q ≡ some after)
      × IsQueue after []
      × Owns base after.nodes []
unfolding remove_all
remove_all-IsQueue base q [] zero h own l = (q, refl, h, own)
remove_all-IsQueue base q (a ∷ xs) zero h own l = absurd (omega (arith, l))
remove_all-IsQueue base q [] (suc fuel) h own l = (q, rw (h.1) refl, h, own)
remove_all-IsQueue base q (a ∷ xs) (suc fuel) h own l =
    let (after, p, k, same, freed) = msg_queue_remove-IsQueue q (a ∷ xs) h in
    let own' = Owns-remove base q.nodes after.nodes (a ∷ xs) own same freed in
    let (last, r, k', own'') = remove_all-IsQueue base after xs fuel k own' (omega (arith, l)) in
    let more : (q.length == 0) ≡ false = ground (arith, length_zero q (a ∷ xs) h) in
    (last, rw (more, p) r, k', own'')

create-IsQueue : (nodes : Nodes) → IsQueue (msg_queue_create nodes) []
unfolding msg_queue_create
create-IsQueue nodes = (refl, refl)

module _ (alloc : Nodes → Option ℕ) where
  -- From msg_queue_create() to msg_queue_destroy(), with less than 2 ^ 64 calls of msg_queue_add(),
  -- msg_queue_head() and msg_queue_remove() between them, and addresses of oml_malloc() that are not
  -- allocated: no call accesses memory that is not allocated, the calls give what a first-in,
  -- first-out list gives, and the loop of msg_queue_destroy() ends with an empty queue after a round
  -- for each node that is left. Then the nodes that are allocated are those that were to begin with.
  pub run-remove_all :
      (fresh : Fresh alloc) (nodes : Nodes) (cs : List Call)
      → length cs < 2 ^ 64
      → (es : List Event) × (after : MsgQueue) × (ys : List ℕ) × (last : MsgQueue) × (run alloc cs
            (msg_queue_create nodes)
          ≡ some (es, after))
        × (length es ≡ length cs)
        × Fifo [] es ys
        × (remove_all (length ys) after ≡ some last)
        × IsQueue last []
        × ((a : ℕ) → last.nodes a ≡ nodes a)
  unfolding msg_queue_create
  run-remove_all fresh nodes cs l =
      let (es, after, ys, r, n, f, h, own) =
        run_lem alloc fresh nodes cs (msg_queue_create nodes) [] (create-IsQueue nodes)
          ((λ a k. refl), tt) (omega (arith, l)) in
      let (last, e, k, (same, _)) =
        remove_all-IsQueue nodes after ys (length ys) h own (omega arith) in
      (es, after, ys, last, r, n, f, e, k, λ a. same a tt)
