-- ===== src/Mem/Counts.antt =====
-- The counters of soml/lib/shared/mem.c: what is allocated, was allocated, was freed, and the peak.
use semantic_oml.Base.{
  ℕ, ◌+◌, ◌-◌, ◌%◌, ◌^◌, ◌≤◌, ◌<◌, ◌≡◌, List, [], ◌∷◌, ltb, if◌then◌else◌, size_mod, arith,
}

pub record Counts : Type 0 where
  pub bytes : ℕ
  pub total : ℕ
  pub freed : ℕ
  pub peak : ℕ

pub xcount_new : ℕ → Counts → Counts
xcount_new n c =
    let b = (c.bytes + n) % size_mod in
    record c {
      bytes = b;
      total = (c.total + n) % size_mod;
      peak = if ltb c.peak b then b else c.peak;
    }

pub xcount_freed : ℕ → Counts → Counts
xcount_freed n c = record c {
  bytes = (c.bytes + size_mod - n % size_mod) % size_mod;
  freed = (c.freed + n) % size_mod;
}

-- One call of oml_malloc() or oml_calloc(), of oml_free(), or of oml_realloc() with the new and the
-- old size.
pub data Event : Type 0 where
  allocates frees : ℕ → Event
  moves : ℕ → ℕ → Event

unfoldable pub count : Event → Counts → Counts
unfolding xcount_new xcount_freed
count (allocates n) c = xcount_new n c
count (frees n) c = xcount_freed n c
count (moves new old) c = xcount_freed old (xcount_new new c)

pub count_all : List Event → Counts → Counts
unfolding count
count_all [] c = c
count_all (e ∷ es) c = count_all es (count e c)

-- What is freed was allocated, and the sum fits a `size_t`.
abbrev pub Balances : Event → Counts → Type 0
Balances (allocates n) c = c.bytes + n < 2 ^ 64
Balances (frees n) c = n ≤ c.bytes
Balances (moves new old) c = (c.bytes + new < 2 ^ 64) × (old ≤ c.bytes)

abbrev pub BalancesAll : List Event → Counts → Type 0
BalancesAll [] c = Unit {0}
BalancesAll (e ∷ es) c = Balances e c × BalancesAll es (count e c)

-- What is allocated and what was freed is what was allocated in all, as the counters wrap, and the
-- peak is no less than what is allocated.
pub record IsBalanced (c : Counts) : Type 0 where
  pub sum : (c.bytes + c.freed) % 2 ^ 64 ≡ c.total
  pub within : c.bytes ≤ c.peak
  pub small : c.bytes < 2 ^ 64

count-IsBalanced : (e : Event) (c : Counts) → Balances e c → IsBalanced c → IsBalanced (count e c)
unfolding count
count-IsBalanced (allocates n) c h v = ground (arith, v, h)
count-IsBalanced (frees n) c h v = ground (arith, v, h)
count-IsBalanced (moves new old) c h v = ground (arith, v, h)

-- Over any sequence of allocations and releases in which no release is of more than is allocated
-- and what is allocated fits a size_t, the counters stay balanced: what is allocated and what was
-- freed is, modulo 2 ^ 64, what was allocated in all, and the peak is no less than what is allocated.
pub count_all-IsBalanced :
    (es : List Event) (c : Counts) → BalancesAll es c → IsBalanced c → IsBalanced (count_all es c)
unfolding count_all
count_all-IsBalanced [] c h v = v
count_all-IsBalanced (e ∷ es) c h v =
    count_all-IsBalanced es (count e c) h.1 (count-IsBalanced e c h.0 v)
