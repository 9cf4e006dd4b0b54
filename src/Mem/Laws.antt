-- ===== src/Mem/Laws.antt =====
-- What the program relies on of malloc(3) and realloc(3), and what oml_malloc() and oml_realloc()
-- of soml/lib/shared/mem.c make of it.
use semantic_oml.Base.{
  take-append, ◌∙◌, take-append_right, subst, ◌∎, ap, drop-take, take-append_left, sym, ◌≡⟨◌⟩◌,
  length-take, append_assoc, ℕ, ◌+◌, ◌^◌, ◌≤◌, ◌<◌, ◌≡◌, List, ◌++◌, some, take, drop, length,
  replicate, arith, length-drop, length-replicate, length-append, true,
}
use semantic_oml.Mem.{
  Libc, Xchunk, word, block, block_size, oml_malloc, oml_realloc, oml_calloc, read_from, write_to,
}

-- A block has the size that was asked for, at most PTRDIFF_MAX, and realloc(3) keeps what the old
-- block held, up to the smaller of the two sizes.
pub record LibcLaws (libc : Libc) : Type 0 where
  pub realloc_size : (b : List ℕ) (n : ℕ) (b' : List ℕ) → libc.realloc b n ≡ some b' → length b' ≡ n
  pub realloc_max : (b : List ℕ) (n : ℕ) (b' : List ℕ) → libc.realloc b n ≡ some b' → n < 2 ^ 63
  pub realloc_keeps :
      (b : List ℕ) (n : ℕ) (b' : List ℕ)
      → length b ≤ n
      → libc.realloc b n ≡ some b'
      → take (length b) b' ≡ b

pub length-oml_malloc :
    (libc : Libc) (size : ℕ) {c : Xchunk}
    → size < 2 ^ 63
    → oml_malloc libc size ≡ some c
    → length c.bytes ≡ size
unfolding oml_malloc
length-oml_malloc libc size h e = ground (
  arith,
  length-drop {A = ℕ} word (replicate (block_size size) 0),
  length-replicate {A = ℕ} (block_size size) 0,
)

pub size-oml_malloc :
    (libc : Libc) (size : ℕ) {c : Xchunk}
    → size < 2 ^ 63
    → oml_malloc libc size ≡ some c
    → c.size ≡ size + word
unfolding oml_malloc
size-oml_malloc libc size h e = ground arith

module _ (libc : Libc) (laws : LibcLaws libc) (c : Xchunk) (size : ℕ) where
  -- oml_realloc() gives the size that was asked for, and the old bytes come first.
  pub record Grown (c' : Xchunk) : Type 0 where
    pub size_eq : length c'.bytes ≡ size
    pub size_max : size < 2 ^ 63
    pub keeps : take (length c.bytes) c'.bytes ≡ c.bytes

  block_keeps :
      (b : List ℕ)
      → length c.bytes ≤ size
      → size + word < 2 ^ 64
      → libc.realloc (block c) (block_size size) ≡ some b
      → take (length c.bytes) (drop word b) ≡ c.bytes
  block_keeps b le lt e =
      take (length c.bytes) (drop word b)
      ≡⟨ sym (drop-take word (length (block c)) (length c.bytes) b (omega arith)) ⟩
        drop word (take (length (block c)) b)
      ≡⟨ ap (drop word) (laws.realloc_keeps (block c) (block_size size) b (omega arith) e) ⟩
        c.bytes ∎

  oml_realloc_inv :
      {c' : Xchunk}
      → oml_realloc libc c size ≡ some c'
      → (b : List ℕ) × (libc.realloc (block c) (block_size size) ≡ some b)
        × (c' ≡ record { size = block_size size; bytes = drop word b })
  unfolding oml_realloc
  oml_realloc_inv e = ground arith

  pub oml_realloc-Grown :
      {c' : Xchunk}
      → length c.bytes ≤ size
      → size + word < 2 ^ 64
      → oml_realloc libc c size ≡ some c'
      → Grown c'
  unfolding oml_realloc
  oml_realloc-Grown {c'} le lt e =
      let (b, p, q) = oml_realloc_inv e in
      subst Grown (sym q) (record {
        size_eq =
            omega (arith, length-drop word b, laws.realloc_size (block c) (block_size size) b p);
        size_max = omega (arith, laws.realloc_max (block c) (block_size size) b p);
        keeps = block_keeps b le lt p;
      })

-- What memcpy(3) of `bs` leaves.
abbrev pub splice : List ℕ → ℕ → List ℕ → List ℕ
splice mem at bs = take at mem ++ (bs ++ drop (at + length bs) mem)

module _ (mem : List ℕ) (at : ℕ) where
  pub read_from_lem :
      (n : ℕ) → at + n ≤ length mem → read_from mem at n ≡ some (take n (drop at mem))
  unfolding read_from
  read_from_lem n h = ground arith

  pub write_to_lem :
      (bs : List ℕ) → at + length bs ≤ length mem → write_to mem at bs ≡ some (splice mem at bs)
  unfolding write_to
  write_to_lem bs h = ground arith

  pub length-splice :
      (bs : List ℕ) → at + length bs ≤ length mem → length (splice mem at bs) ≡ length mem
  length-splice bs h = omega (
    arith,
    length-append (take at mem) (bs ++ drop (at + length bs) mem),
    length-append bs (drop (at + length bs) mem),
    length-take at mem,
    length-drop (at + length bs) mem,
  )

  pub take-splice :
      (bs : List ℕ) (n : ℕ)
      → at + length bs ≤ length mem
      → n ≡ at + length bs
      → take n (splice mem at bs) ≡ take at mem ++ bs
  take-splice bs n h e = rw (← append_assoc (take at mem) bs (drop (at + length bs) mem)) (
      take-append_left n (take at mem ++ bs) _
        (omega (arith, length-append (take at mem) bs, length-take at mem)))

  -- Of the copied bytes, the first `k`.
  pub take-splice_part :
      (bs : List ℕ) (n k : ℕ)
      → at + length bs ≤ length mem
      → n ≡ at + k
      → k ≤ length bs
      → take n (splice mem at bs) ≡ take at mem ++ take k bs
  take-splice_part bs n k h e le =
      take-append_right n k (take at mem) (bs ++ drop (at + length bs) mem)
        (omega (arith, length-take at mem))
      ∙ ap (λ l. take at mem ++ l) (take-append k bs (drop (at + length bs) mem) le)

-- calloc(3) finds memory.
abbrev pub FindsMemory : Libc → Type 0
FindsMemory libc = (count size : ℕ) → libc.calloc count size ≡ true

pub oml_calloc_found :
    (libc : Libc) → FindsMemory libc → (count size : ℕ) → oml_calloc libc count size ≡ true
unfolding oml_calloc
oml_calloc_found libc memory count size = memory _ size
