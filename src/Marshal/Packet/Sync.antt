-- ===== src/Marshal/Packet/Sync.antt =====
-- find_sync() of soml/lib/shared/marshal.c finds the first of two sync bytes.
use semantic_oml.Base.{
  ℕ, zero, suc, ◌+◌, ◌≤◌, ◌≡◌, ◌⊎◌, inl, inr, List, [], ◌∷◌, Option, none, some, false, get_elem?,
  ◌==◌, ◌&&◌, refl, arith, Bool-cases,
}
use semantic_oml.Marshal.Packet.{sync_byte, sync_after, find_sync}

-- Two sync bytes at `i`.
abbrev pub TwoSync : List ℕ → ℕ → Type 0
TwoSync bs i = (get_elem? bs i ≡ some sync_byte) × (get_elem? bs (suc i) ≡ some sync_byte)

-- A search that begins at `at` has found the first two, or there are none.
abbrev pub FindsSync : List ℕ → ℕ → Option ℕ → Type 0
FindsSync bs at r =
    ((r ≡ none) × ((i : ℕ) → ¬ TwoSync bs i))
    ⊎ ((j : ℕ) × (r ≡ some (at + j)) × TwoSync bs j × ((i : ℕ) → TwoSync bs i → j ≤ i))

not_first :
    (before b : ℕ) (bs : List ℕ) (i : ℕ)
    → ((b == sync_byte) && (before == sync_byte)) ≡ false
    → TwoSync (before ∷ b ∷ bs) i
    → (k : ℕ) × (i ≡ suc k) × TwoSync (b ∷ bs) k
not_first before b bs zero other p = absurd (ground (arith, p))
not_first before b bs (suc k) other p = (k, refl, p)

none_alone : (b i : ℕ) → ¬ TwoSync (b ∷ []) i
none_alone b i p = ground (arith, p.1)

sync_after-FindsSync :
    (before at : ℕ) (bs : List ℕ) → FindsSync (before ∷ bs) at (sync_after before at bs)
unfolding sync_after
sync_after-FindsSync before at [] = inl (refl, none_alone before)
sync_after-FindsSync before at (b ∷ bs) =
    elim (Bool-cases ((b == sync_byte) && (before == sync_byte))) [
      | inl both ↦ inr (0, ground arith, (ground arith, ground arith), λ i p. omega arith)
      | inr other ↦ elim (sync_after-FindsSync b (at + 1) bs) [
        | inl (e, gone) ↦
            inl (
              ground (arith, e),
              λ i p. let (k, e', q) = not_first before b bs i other p in gone k q,
            )
        | inr (j, e, p, least) ↦ inr (
          suc j,
          ground (arith, e),
          p,
          λ i q. let (k, e', q') = not_first before b bs i other q in omega (arith, e', least k q'),
        )
      ]
    ]

-- find_sync() returns NULL where no two sync bytes stand together in the bytes, and otherwise the
-- place of the first two that do.
pub find_sync-FindsSync : (bs : List ℕ) → FindsSync bs 0 (find_sync bs)
unfolding find_sync
find_sync-FindsSync [] = inl (refl, λ i p. ground (arith, p.0))
find_sync-FindsSync (b ∷ bs) = sync_after-FindsSync b 0 bs
