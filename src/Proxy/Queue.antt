-- ===== src/Proxy/Queue.antt =====
-- soml/proxy_server/message_queue.c: a ring of nodes, of which the queue holds the last. What
-- oml_malloc() finds is a parameter, and `none` is an access to memory that is not allocated, or a failed
-- assertion. A queue that is NULL, which the functions return for, is left out.
pub mod Chain
pub mod Ring
pub mod Owned
pub mod Runs
use semantic_oml.Base.{
  ℕ, zero, suc, ◌+◌, ◌-◌, ◌%◌, ◌^◌, ◌==◌, List, [], ◌∷◌, Option, none, some, Bool, true, false,
  if◌then◌else◌,
}
use semantic_oml.Server.Client.{◌>>=◌}

-- The `next` of the nodes that are allocated, by their addresses.
abbrev pub Nodes : Type 0
Nodes = ℕ → Option (Option ℕ)

pub record MsgQueue : Type 0 where
  pub length : ℕ
  pub tail : Option ℕ
  pub nodes : Nodes

-- The nodes, with one of them written, or freed.
pub update : Nodes → ℕ → Option (Option ℕ) → Nodes
update nodes a v b = if b == a then v else nodes b

-- oml_malloc() clears the memory, so the length is 0.
pub msg_queue_create : Nodes → MsgQueue
msg_queue_create nodes = record { length = 0; tail = none; nodes = nodes }

pub linked : MsgQueue → ℕ → Option ℕ → Option (Option ℕ × MsgQueue)
unfolding update
linked q node none = some (
  some node,
  record {
    length = (q.length + 1) % 2 ^ 64;
    tail = some node;
    nodes = update q.nodes node (some (some node));
  },
)
linked q node (some t) = do
  next ← q.nodes t
  some (
    some node,
    record {
      length = (q.length + 1) % 2 ^ 64;
      tail = some node;
      nodes = update (update q.nodes node (some next)) t (some (some node));
    },
  )

-- Of the address that oml_malloc() gives; `none` is NULL.
unfoldable pub msg_queue_add : Option ℕ → MsgQueue → Option (Option ℕ × MsgQueue)
unfolding linked
msg_queue_add none q = some (none, q)
msg_queue_add (some node) q = linked q node q.tail

pub next_of_tail : MsgQueue → Option ℕ → Option (Option ℕ)
next_of_tail q none = some none
next_of_tail q (some t) = q.nodes t

unfoldable pub msg_queue_head : MsgQueue → Option (Option ℕ)
unfolding next_of_tail
msg_queue_head q = next_of_tail q q.tail

pub closed : MsgQueue → ℕ → ℕ → ℕ → Option MsgQueue
unfolding update
closed q t head n = do
  next ← q.nodes head
  some (record {
    length = n;
    tail = some t;
    nodes = update (update q.nodes t (some next)) head none;
  })

-- The head is unlinked and freed, with `n` nodes left.
pub unlinked : MsgQueue → ℕ → ℕ → ℕ → Option MsgQueue
unfolding update closed
unlinked q t head n =
    let rest = closed q t head n in
    if n == 0
    then some (record { length = 0; tail = none; nodes = update q.nodes head none })
    else rest

pub remove_head : MsgQueue → ℕ → Option ℕ → Option MsgQueue
unfolding unlinked
remove_head q t none = none
remove_head q t (some head) = unlinked q t head ((q.length + (2 ^ 64 - 1)) % 2 ^ 64)

pub remove_from : MsgQueue → Option ℕ → Option MsgQueue
unfolding remove_head
remove_from q none = some q
remove_from q (some t) = do head ← q.nodes t; remove_head q t head

unfoldable pub msg_queue_remove : MsgQueue → Option MsgQueue
unfolding remove_from
msg_queue_remove q = remove_from q q.tail

-- The loop of msg_queue_destroy(), as far as the fuel lasts: the nodes that are left.
pub remove_all : ℕ → MsgQueue → Option MsgQueue
unfolding msg_queue_remove
remove_all zero q = some q
remove_all (suc fuel) q =
    let rest = msg_queue_remove q >>= remove_all fuel in if q.length == 0 then some q else rest
