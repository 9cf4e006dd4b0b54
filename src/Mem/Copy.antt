-- ===== src/Mem/Copy.antt =====
-- Copies in fresh xchunks (soml/lib/shared/mem.c). `none` is an access outside the memory, also
-- through the NULL that oml_malloc() returns for want of memory.
use semantic_oml.Base.{
  take-append_left, append-nil, ◌∙◌, refl, length-replicate, All, length-take, length-append,
  drop-all, ℕ, zero, suc, ◌+◌, ◌-◌, ◌%◌, ◌^◌, ◌≤◌, ◌<◌, ◌≡◌, List, [], ◌∷◌, ◌++◌, Option, none,
  some, take, length, replicate, ◌==◌, if◌then◌else◌, size_mod, arith, ap,
}
use semantic_oml.Mem.{Libc, Xchunk, word, oml_malloc, read_from, write_to}
use semantic_oml.Mem.Laws.{
  size-oml_malloc, length-splice, take-splice, splice, read_from_lem, write_to_lem,
  length-oml_malloc, length-oml_malloc, splice, read_from_lem, write_to_lem, length-splice,
  take-splice,
}

-- The size that stands in front of the block, less its own.
pub oml_malloc_usable_size : Xchunk → ℕ
oml_malloc_usable_size c = (c.size + size_mod - word) % size_mod

filled_with : Option Xchunk → ℕ → List ℕ → Option Xchunk
filled_with none at bs = none
filled_with (some c) at bs = elim (write_to c.bytes at bs) [
  | none ↦ none
  | some mem ↦ some (record c { bytes = mem })
]

pub oml_stralloc : Libc → ℕ → Option Xchunk
unfolding filled_with
oml_stralloc libc len = filled_with (oml_malloc libc (len + 1)) 0 (replicate (len + 1) 0)

pub oml_memdupz : Libc → List ℕ → ℕ → Option Xchunk
unfolding filled_with
oml_memdupz libc bytes len = elim (read_from bytes 0 len) [
  | none ↦ none
  | some bs ↦ filled_with (filled_with (oml_malloc libc (len + 1)) 0 bs) len (0 ∷ [])
]

-- memchr (str, '\0', len) - str, or `len` for NULL. The search ends with the memory that it sees.
pub strnlen : List ℕ → ℕ → ℕ
strnlen str zero = 0
strnlen [] (suc len) = suc len
strnlen (b ∷ str) (suc len) = let rest = strnlen str len in if b == 0 then 0 else suc rest

pub oml_strndup : Libc → List ℕ → ℕ → Option Xchunk
unfolding strnlen
oml_strndup libc str len = oml_memdupz libc str (strnlen str len)

module _ (libc : Libc) (c : Xchunk) (source : List ℕ) (len : ℕ) (inside : len ≤ length source)
    (small : len + 1 < 2 ^ 63) (found : oml_malloc libc (len + 1) ≡ some c) where
  abbrev copied : List ℕ
  copied = take len source

  fits : length c.bytes ≡ len + 1
  fits = length-oml_malloc libc (len + 1) small found

  length-copied : length copied ≡ len
  length-copied = omega (arith, length-take len source)

  in_front : 0 + length copied ≤ length c.bytes
  in_front = omega (arith, fits, length-copied)

  -- The memory with the bytes copied, before the final zero is.
  abbrev half : List ℕ
  half = splice c.bytes 0 copied

  length-half : length half ≡ len + 1
  length-half = omega (arith, length-splice c.bytes 0 copied in_front, fits)

  splice-half : splice half len (0 ∷ []) ≡ copied ++ (0 ∷ [])
  splice-half = rw (drop-all (len + 1) half (omega (arith, length-half))) (
      ap (λ l. l ++ (0 ∷ []))
        (take-splice c.bytes 0 copied len in_front (omega (arith, length-copied))))

  memdupz_lem : oml_memdupz libc source len ≡ some (record c { bytes = copied ++ (0 ∷ []) })
  unfolding oml_memdupz
  memdupz_lem = ground (
    arith,
    read_from_lem source 0 len (omega (arith, inside)),
    found,
    write_to_lem c.bytes 0 copied in_front,
    write_to_lem half len (0 ∷ []) (omega (arith, length-half)),
    splice-half,
  )

  -- In a fresh xchunk, oml_memdupz() leaves the first bytes of a source that has as many and a final
  -- zero, and the xchunk's usable size is theirs.
  pub memdupz_fills :
      (oml_memdupz libc source len ≡ some (record c { bytes = copied ++ (0 ∷ []) }))
      × (oml_malloc_usable_size c ≡ length (copied ++ (0 ∷ [])))
  unfolding oml_malloc_usable_size
  memdupz_fills = (
    memdupz_lem,
    omega (
      arith,
      size-oml_malloc libc (len + 1) small found,
      length-append copied (0 ∷ []),
      length-copied,
    ),
  )

-- The search for the end of a string finds the zero behind bytes that are none.
strnlen_lem :
    (text rest : List ℕ) (len : ℕ)
    → All (λ b. 0 < b) text
    → length text < len
    → strnlen (text ++ (0 ∷ rest)) len ≡ length text
unfolding strnlen
strnlen_lem text rest zero h lt = absurd (ground arith)
strnlen_lem [] rest (suc len) h lt = refl
strnlen_lem (b ∷ text) rest (suc len) h lt =
    ground (arith, h.0, strnlen_lem text rest len h.1 (omega (arith, lt)))

module _ (libc : Libc) (c : Xchunk) where
  -- With memory for it, oml_strndup() of a string that ends before `len` bytes copies the string
  -- with its final zero and nothing that stands behind it.
  pub strndup_copies :
      (text rest : List ℕ) (len : ℕ)
      → All (λ b. 0 < b) text
      → length text < len
      → len < 2 ^ 62
      → oml_malloc libc (length text + 1) ≡ some c
      → oml_strndup libc (text ++ (0 ∷ rest)) len ≡ some (record c { bytes = text ++ (0 ∷ []) })
  unfolding oml_strndup
  strndup_copies text rest len h lt small found =
      let n = length text in
      rw (strnlen_lem text rest len h lt) (
        memdupz_lem libc c (text ++ (0 ∷ rest)) n (omega (arith, length-append text (0 ∷ rest)))
          (omega (arith, lt, small)) found
        ∙ ap (λ bs. some (record c { bytes = bs ++ (0 ∷ []) }))
            (take-append_left n text (0 ∷ rest) refl))

  pub stralloc_lem :
      (len : ℕ)
      → len < 2 ^ 62
      → oml_malloc libc (len + 1) ≡ some c
      → oml_stralloc libc len ≡ some (record c { bytes = replicate (len + 1) 0 })
  unfolding oml_stralloc
  stralloc_lem len small found =
      let zeros = replicate {A = ℕ} (len + 1) 0 in
      let size : length c.bytes ≡ len + 1 = length-oml_malloc libc (len + 1) (omega arith) found in
      let n : length zeros ≡ len + 1 = length-replicate {A = ℕ} (len + 1) 0 in
      let whole : splice c.bytes 0 zeros ≡ zeros =
        ap (λ l. zeros ++ l) (drop-all (0 + length zeros) c.bytes (omega (arith, size, n)))
        ∙ append-nil zeros in
      ground (arith, found, write_to_lem c.bytes 0 zeros (omega (arith, size, n)), whole)
