-- ===== src/Mem.antt =====
-- soml/lib/shared/mem.c: xchunks, blocks of memory that carry their own size in front.
-- malloc(3) and realloc(3) are a parameter: whether they find memory, and what a fresh part of a
-- block holds, is not the program's.
pub mod Laws
pub mod Copy
pub mod Counts
use semantic_oml.Base.{
  ◌^◌, ltb, Bool, ℕ, zero, suc, ◌+◌, ◌*◌, ◌/◌, ◌%◌, List, [], ◌∷◌, ◌++◌, Option, none, some, take,
  drop, length, replicate, leb, if◌then◌else◌, size_mod,
}

-- The C library's allocator, over raw blocks of bytes. `none` is NULL.
pub record Libc : Type 0 where
  pub malloc : ℕ → Option (List ℕ)
  pub realloc : List ℕ → ℕ → Option (List ℕ)
  -- whether calloc(3) finds memory for so many elements of a size
  pub calloc : ℕ → ℕ → Bool

-- `size` is the word that stands in front of the bytes that the caller is given.
pub record Xchunk : Type 0 where
  pub size : ℕ
  pub bytes : List ℕ

-- sizeof (size_t)
abbrev pub word : ℕ
word = 8

-- The `k` bytes of a word in memory, least significant first.
abbrev word_bytes : ℕ → ℕ → List ℕ
word_bytes zero n = []
word_bytes (suc k) n = (n % 256) ∷ word_bytes k (n / 256)

-- The whole block, as realloc(3) sees it.
abbrev pub block : Xchunk → List ℕ
block c = word_bytes word c.size ++ c.bytes

-- The size of the block behind an xchunk of `size` bytes: a `size_t` sum, which wraps.
abbrev pub block_size : ℕ → ℕ
block_size size = (size + word) % size_mod

-- The block is zeroed before its size is written to it.
unfoldable pub oml_malloc : Libc → ℕ → Option Xchunk
oml_malloc libc size = elim (libc.malloc (block_size size)) [
  | none ↦ none
  | some _ ↦
      some (record { size = block_size size; bytes = drop word (replicate (block_size size) 0) })
]

pub oml_realloc : Libc → Xchunk → ℕ → Option Xchunk
oml_realloc libc c size = elim (libc.realloc (block c) (block_size size)) [
  | none ↦ none
  | some b ↦ some (record { size = block_size size; bytes = drop word b })
]

-- How often the size of a word is halved until it is at most `size`; four times bring it to 0.
halvings : ℕ → ℕ → ℕ → ℕ
halvings zero ssize size = 0
halvings (suc fuel) ssize size =
    let rest = halvings fuel (ssize / 2) size in if ltb size ssize then suc rest else 0

-- The elements that are asked for besides, to hold the size of the block.
pub extra_elements : ℕ → ℕ
unfolding halvings
extra_elements size = if leb word size then 1 else 2 ^ halvings 4 word size

pub oml_calloc : Libc → ℕ → ℕ → Bool
unfolding extra_elements
oml_calloc libc count size = libc.calloc (count + extra_elements size) size

-- memcpy(3) and memmove(3) in two halves; `none` is an access outside the bytes.
unfoldable pub read_from : List ℕ → ℕ → ℕ → Option (List ℕ)
read_from mem at n = if leb (at + n) (length mem) then some (take n (drop at mem)) else none

unfoldable pub write_to : List ℕ → ℕ → List ℕ → Option (List ℕ)
write_to mem at bs =
    if leb (at + length bs) (length mem)
    then some (take at mem ++ (bs ++ drop (at + length bs) mem))
    else none
