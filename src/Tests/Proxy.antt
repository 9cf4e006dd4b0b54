-- ===== src/Tests/Proxy.antt =====
-- Queues of the proxy (soml/proxy_server) on memory that has room for two nodes.
use semantic_oml.Base.{
  subst, ℕ, ◌≡◌, List, [], ◌∷◌, Option, none, some, length, refl, arith, Option-cases, inl, inr,
}
use semantic_oml.Proxy.Queue.{remove_all, Nodes, MsgQueue, msg_queue_create}
use semantic_oml.Proxy.Queue.Ring.{IsQueue}
use semantic_oml.Proxy.Queue.Runs.{
  Call, add, head, remove, Event, Fifo, Fresh, run, run-Fifo, run-remove_all,
}

abbrev no_nodes : Nodes
no_nodes a = none

abbrev or_next : Option (Option ℕ) → ℕ → Option ℕ → Option ℕ
or_next none a other = some a
or_next (some next) a other = other

abbrev two_places : Nodes → Option ℕ
two_places h = or_next (h 5) 5 (or_next (h 6) 6 none)

or_next-Fresh :
    (h : Nodes) (a b : ℕ) (other : Option ℕ)
    → (other ≡ some b → h b ≡ none)
    → or_next (h a) a other ≡ some b
    → h b ≡ none
or_next-Fresh h a b other k e = elim (Option-cases (h a)) [
  | inl f ↦ let same : a ≡ b = ground (arith, e, f) in subst (λ c. h c ≡ none) same f
  | inr (next, f) ↦ k (ground (arith, e, f))
]

two_places-Fresh : Fresh two_places
two_places-Fresh h a e =
    or_next-Fresh h 5 a (or_next (h 6) 6 none)
      (λ e'. or_next-Fresh h 6 a none (λ e''. absurd (ground (arith, e''))) e') e

abbrev five_calls : List Call
five_calls = add ∷ add ∷ head ∷ remove ∷ head ∷ []

abbrev empty_queue : MsgQueue
empty_queue = record { length = 0; tail = none; nodes = no_nodes }

run-Fifo_example :
    (es : List Event) × (after : MsgQueue) × (ys : List ℕ) × (run two_places five_calls empty_queue
      ≡ some (es, after))
    × (length es ≡ length five_calls)
    × Fifo [] es ys
    × IsQueue after ys
run-Fifo_example =
    run-Fifo two_places two_places-Fresh five_calls empty_queue [] (refl, refl) (omega arith)

run-remove_all_example :
    (es : List Event) × (after : MsgQueue) × (ys : List ℕ) × (last : MsgQueue) × (run two_places
        five_calls
        (msg_queue_create no_nodes)
      ≡ some (es, after))
    × (length es ≡ length five_calls)
    × Fifo [] es ys
    × (remove_all (length ys) after ≡ some last)
    × IsQueue last []
    × ((a : ℕ) → last.nodes a ≡ no_nodes a)
run-remove_all_example =
    run-remove_all two_places two_places-Fresh no_nodes five_calls (omega arith)
