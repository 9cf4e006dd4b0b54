-- ===== src/Mbuf/Storage/Create.antt =====
-- mbuf_create2() of soml/lib/shared/mbuf.c makes a valid, empty buffer, or none.
use semantic_oml.Base.{
  ltb, if◌then◌else◌, ℕ, ◌≤◌, ◌<◌, ◌^◌, ◌≡◌, ◌⊎◌, inl, inr, some, none, refl, arith, length,
  Option-cases,
}
use semantic_oml.Mem.{Libc, Xchunk, oml_malloc}
use semantic_oml.Mem.Laws.{length-oml_malloc}
use semantic_oml.Mbuf.{MBuffer}
use semantic_oml.Mbuf.Invariant.{IsValid, check_lem}
use semantic_oml.Mbuf.View.{view, nothing}
use semantic_oml.Mbuf.Storage.{
  fresh, mbuffer_size, def_buf_size, def_min_buf_resize, mbuf_create2, mbuf_create,
}

-- The length and the step that a new buffer gets.
abbrev pub or_default : ℕ → ℕ → ℕ
or_default n default = if ltb 0 n then n else default

module _ (libc : Libc) (buffer_length min_resize : ℕ) (small : buffer_length < 2 ^ 63)
    (step : min_resize ≤ 2 ^ 61) where
  abbrev len : ℕ
  len = or_default buffer_length def_buf_size

  fresh-IsValid :
      (base : Xchunk)
      → oml_malloc libc len ≡ some base
      → IsValid (fresh len (or_default min_resize def_min_buf_resize) base)
  fresh-IsValid base e =
      let h : length base.bytes ≡ len = length-oml_malloc libc len (ground arith) e in ground arith

  -- For a length below 2 ^ 63 and a step of at most 2 ^ 61, mbuf_create2() returns NULL, or a valid
  -- buffer that shows nothing and has the room asked for, or the default room for 0.
  pub create2_lem :
      (mbuf_create2 libc buffer_length min_resize ≡ some none)
      ⊎ ((m : MBuffer) × (mbuf_create2 libc buffer_length min_resize ≡ some (some m))
          × IsValid m
          × (view m ≡ nothing)
          × (m.wr_remaining ≡ len))
  unfolding mbuf_create2
  create2_lem = elim (Option-cases (oml_malloc libc mbuffer_size)) [
    | inl out ↦ inl (ground arith)
    | inr (c, e) ↦ elim (Option-cases (oml_malloc libc len)) [
      | inl out ↦ inl (ground arith)
      | inr (base, e') ↦
          let v = fresh-IsValid base e' in
          inr (
            fresh len (or_default min_resize def_min_buf_resize) base,
            ground (arith, check_lem v),
            v,
            refl,
            refl,
          )
    ]
  ]

pub create_lem :
    (libc : Libc)
    → (mbuf_create libc ≡ some none)
      ⊎ ((m : MBuffer) × (mbuf_create libc ≡ some (some m))
          × IsValid m
          × (view m ≡ nothing)
          × (m.wr_remaining ≡ def_buf_size))
unfolding mbuf_create
create_lem libc = create2_lem libc def_buf_size def_min_buf_resize (omega arith) (omega arith)
