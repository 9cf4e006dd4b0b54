-- ===== src/Mbuf/Storage/Growth.antt =====
-- Growth of an MBuffer (soml/lib/shared/mbuf.c): mbuf_resize() and mbuf_check_resize() make room
-- and change nothing that a client sees.
use semantic_oml.Base.{
  Option, subst, ◌-◌, le_or_lt, take-take, ◌/◌, sym, ◌^◌, ◌*◌, ℕ, ◌+◌, ◌≤◌, ◌<◌, ◌≡◌, ◌⊎◌, inl, inr,
  some, take, length, refl, ap, arith, ◌∙◌, Bool-cases, Option-cases,
}
use semantic_oml.Mem.{Libc, Xchunk, oml_realloc}
use semantic_oml.Mem.Laws.{LibcLaws, Grown, oml_realloc-Grown}
use semantic_oml.Mbuf.{MBuffer, Status, ok, fail}
use semantic_oml.Mbuf.Invariant.{IsValid, check_lem}
use semantic_oml.Mbuf.View.{view}
use semantic_oml.Mbuf.Storage.{grown_length, resized_to, mbuf_resize, mbuf_check_resize}

-- `m'` is `m` with `bytes` of room.
pub record HasRoom (bytes : ℕ) (m m' : MBuffer) : Type 0 where
  pub valid : IsValid m'
  pub shows : view m' ≡ view m
  pub room : bytes ≤ m'.wr_remaining
  pub spare : m.wr_remaining < bytes → bytes < m'.wr_remaining
  pub bounded : m'.length ≤ m.length + bytes + m.min_resize
  pub step : m'.min_resize ≡ m.min_resize
  pub fill : m'.fill ≡ m.fill
  pub allow : m'.allow_resizing ≡ m.allow_resizing

-- A request for room is refused and leaves the buffer as it was, or is met.
abbrev pub Makes : ℕ → MBuffer → Option (Status × MBuffer) → Type 0
Makes bytes m r = (r ≡ some (fail, m)) ⊎ ((m' : MBuffer) × (r ≡ some (ok, m')) × HasRoom bytes m m')

-- Whole steps that cover a shortage, and no more than one step too much.
steps_cover : (s d : ℕ) → 0 < s → (d < s * (d / s + 1)) × (s * (d / s + 1) ≤ d + s)
steps_cover s d h = grind arith

module _ (libc : Libc) (laws : LibcLaws libc) (m : MBuffer) (v : IsValid m) where
  module _ (n : ℕ) (more : m.length < n) (small : n + 8 < 2 ^ 64) (c : Xchunk)
      (e : oml_realloc libc m.base n ≡ some c) where
    grown : Grown libc laws m.base n c
    grown = oml_realloc-Grown libc laws m.base n (omega arith) small e

    resized_to-IsValid : IsValid (resized_to n c m)
    unfolding resized_to
    resized_to-IsValid = omega (arith, grown)

    view-resized_to : view (resized_to n c m) ≡ view m
    unfolding resized_to
    view-resized_to =
        ap (λ k. record { content = k; rd = m.rdptr; msg = m.msgptr })
          (sym (take-take m.fill (length m.base.bytes) c.bytes (omega arith))
            ∙ ap (take m.fill) grown.keeps)

  module _ (n bytes : ℕ) (more : m.length < n) (small : n + 8 < 2 ^ 64)
      (enough : m.fill + bytes < n) (bound : n ≤ m.length + bytes + m.min_resize) where
    resized_to-HasRoom :
        (c : Xchunk) → oml_realloc libc m.base n ≡ some c → HasRoom bytes m (resized_to n c m)
    unfolding resized_to
    resized_to-HasRoom c e = record {
      valid = resized_to-IsValid n more small c e;
      shows = view-resized_to n more small c e;
      room = omega arith;
      spare = λ _. omega arith;
      bounded = bound;
      step = refl;
      fill = refl;
      allow = refl;
    }

    resize-Makes : Makes bytes m (mbuf_resize libc n m)
    unfolding mbuf_resize
    resize-Makes = elim (Bool-cases m.allow_resizing) [
      | inl allowed ↦ elim (Option-cases (oml_realloc libc m.base n)) [
        | inl out ↦ inl (ground (arith, check_lem v))
        | inr (c, e) ↦
            let v' = resized_to-IsValid n more small c e in
            inr
              (resized_to n c m, ground (arith, check_lem v, check_lem v'), resized_to-HasRoom c e)
      ]
      | inr refused ↦ inl (ground (arith, check_lem v))
    ]

  pub has_room : (bytes : ℕ) → bytes ≤ m.wr_remaining → HasRoom bytes m m
  has_room bytes h = record {
    valid = v;
    shows = refl;
    room = h;
    spare = λ p. omega arith;
    bounded = omega arith;
    step = refl;
    fill = refl;
    allow = refl;
  }

  grown_length_lem :
      (bytes : ℕ)
      → m.wr_remaining < bytes
      → m.fill + bytes < 2 ^ 31
      → (m.fill + bytes < grown_length bytes m)
        × (grown_length bytes m ≤ m.length + bytes + m.min_resize)
  unfolding grown_length
  grown_length_lem bytes short lt =
      ground (arith, steps_cover m.min_resize (bytes - m.wr_remaining) v.step_pos)

  -- Room is there already and the buffer stays, or it is asked for.
  pub check_resize_room :
      (bytes : ℕ) → bytes ≤ m.wr_remaining → mbuf_check_resize libc bytes m ≡ some (ok, m)
  unfolding mbuf_check_resize
  check_resize_room bytes h = ground arith

  check_resize_short :
      (bytes : ℕ)
      → m.wr_remaining < bytes
      → mbuf_check_resize libc bytes m ≡ mbuf_resize libc (grown_length bytes m) m
  unfolding mbuf_check_resize
  check_resize_short bytes h = ground arith

  -- In a valid buffer that stays below 2 ^ 31 bytes, a request for room is refused and leaves the
  -- buffer as it was, or leaves a valid buffer that has the room, shows the same, and has grown by
  -- at most the request and one step.
  pub check_resize-Makes :
      (bytes : ℕ) → m.fill + bytes < 2 ^ 31 → Makes bytes m (mbuf_check_resize libc bytes m)
  check_resize-Makes bytes lt = elim (le_or_lt bytes m.wr_remaining) [
    | inl fits ↦ inr (m, check_resize_room bytes fits, has_room bytes fits)
    | inr short ↦
        let b = grown_length_lem bytes short lt in
        subst (Makes bytes m) (sym (check_resize_short bytes short))
          (resize-Makes (grown_length bytes m) bytes (omega arith) (omega arith) b.0 b.1)
  ]
