-- ===== src/Mbuf/Transfer/Read.antt =====
-- Reading from an MBuffer (soml/lib/shared/mbuf.c): mbuf_read(), mbuf_read_skip(),
-- mbuf_read_byte(), mbuf_find() and mbuf_find_not() see the unread bytes and nothing else.
use semantic_oml.Base.{
  get_elem?-take, take-all, get_elem?_of_drop, drop-take, take-take, length-take, ◌∷◌, ◌==◌, sym,
  not, length-drop, [], ℕ, ◌≤◌, ◌<◌, ◌≡◌, some, none, List, take, drop, length, refl, ap, arith,
  ◌∙◌,
}
use semantic_oml.Mem.Laws.{read_from_lem}
use semantic_oml.Mbuf.{MBuffer, ok, fail}
use semantic_oml.Mbuf.Invariant.{IsValid, check_lem}
use semantic_oml.Mbuf.View.{view, Returns, unread, skip}
use semantic_oml.Mbuf.Transfer.{
  advanced, copy_out, byte_out, unread_out, scan, mbuf_read, mbuf_read_skip, mbuf_read_byte,
  mbuf_find, mbuf_find_not,
}

module _ (m : MBuffer) (v : IsValid m) where
  pub length-unread : length (unread (view m)) ≡ m.rd_remaining
  length-unread =
      omega (arith, length-drop m.rdptr (take m.fill m.base.bytes), length-take m.fill m.base.bytes)

  -- What is read at `rdptr` is the front of the unread bytes.
  pub read-unread :
      (n : ℕ) → n ≤ m.rd_remaining → take n (drop m.rdptr m.base.bytes) ≡ take n (unread (view m))
  read-unread n h =
      sym (take-take n m.rd_remaining (drop m.rdptr m.base.bytes) h)
      ∙ ap (take n) (sym (drop-take m.rdptr m.fill m.rd_remaining m.base.bytes (omega arith)))

  copy_out_lem : (n : ℕ) → n ≤ m.rd_remaining → copy_out n m ≡ some (take n (unread (view m)), m)
  unfolding copy_out
  copy_out_lem n h =
      ground (arith, read_from_lem m.base.bytes m.rdptr n (omega arith), read-unread n h)

  advanced-IsValid : (n : ℕ) → n ≤ m.rd_remaining → IsValid (advanced n m)
  advanced-IsValid n h = omega arith

  -- In a valid buffer with at least `n` bytes unread, mbuf_read() returns the first `n` of them and
  -- skips them.
  pub mbuf_read-Returns :
      (n : ℕ)
      → n ≤ m.rd_remaining
      → Returns (mbuf_read n) m (some (take n (unread (view m)))) (skip n (view m))
  unfolding mbuf_read
  mbuf_read-Returns n h = record {
    after = advanced n m;
    runs = ground (arith, check_lem v, copy_out_lem n h, check_lem (advanced-IsValid n h));
    valid = advanced-IsValid n h;
    shows = refl;
  }

  -- With fewer, nothing is read and nothing changes.
  pub mbuf_read_short : (n : ℕ) → m.rd_remaining < n → mbuf_read n m ≡ some (none, m)
  unfolding mbuf_read
  mbuf_read_short n h = ground (arith, check_lem v)

  pub mbuf_read_skip-Returns :
      (n : ℕ) → n ≤ m.rd_remaining → Returns (mbuf_read_skip n) m ok (skip n (view m))
  unfolding mbuf_read_skip
  mbuf_read_skip-Returns n h = record {
    after = advanced n m;
    runs = ground (arith, check_lem v, check_lem (advanced-IsValid n h));
    valid = advanced-IsValid n h;
    shows = refl;
  }

  pub mbuf_read_skip_short : (n : ℕ) → m.rd_remaining < n → mbuf_read_skip n m ≡ some (fail, m)
  unfolding mbuf_read_skip
  mbuf_read_skip_short n h = ground (arith, check_lem v)

  byte_out_lem : (b : ℕ) (bs : List ℕ) → unread (view m) ≡ b ∷ bs → byte_out m ≡ some (b, m)
  unfolding byte_out
  byte_out_lem b bs e = ground (
    arith,
    get_elem?_of_drop m.rdptr (take m.fill m.base.bytes) b bs e,
    get_elem?-take m.fill m.rdptr m.base.bytes
        (omega (arith, length-unread, ap (length {A = ℕ}) e)),
  )

  pub mbuf_read_byte-Returns :
      (b : ℕ) (bs : List ℕ)
      → unread (view m) ≡ b ∷ bs
      → Returns mbuf_read_byte m (some b) (skip 1 (view m))
  unfolding mbuf_read_byte
  mbuf_read_byte-Returns b bs e =
      let h : 1 ≤ m.rd_remaining = omega (arith, length-unread, ap (length {A = ℕ}) e) in
      record {
        after = advanced 1 m;
        runs = ground (arith, check_lem v, byte_out_lem b bs e, check_lem (advanced-IsValid 1 h));
        valid = advanced-IsValid 1 h;
        shows = refl;
      }

  pub mbuf_read_byte_short : unread (view m) ≡ [] → mbuf_read_byte m ≡ some (none, m)
  unfolding mbuf_read_byte
  mbuf_read_byte_short e = ground (arith, check_lem v, length-unread, ap (length {A = ℕ}) e)

  unread_out_lem : unread_out m ≡ some (unread (view m), m)
  unfolding unread_out
  unread_out_lem =
      let e =
        read-unread m.rd_remaining (omega arith)
        ∙ take-all m.rd_remaining (unread (view m)) (omega (arith, length-unread)) in
      ground (arith, read_from_lem m.base.bytes m.rdptr m.rd_remaining (omega arith), e)

  -- The search sees the unread bytes, and changes nothing.
  pub mbuf_find_lem : (c : ℕ) → mbuf_find c m ≡ some (scan (λ b. b == c) (unread (view m)), m)
  unfolding mbuf_find
  mbuf_find_lem c = ground (arith, check_lem v, unread_out_lem)

  pub mbuf_find_not_lem :
      (c : ℕ) → mbuf_find_not c m ≡ some (scan (λ b. not (b == c)) (unread (view m)), m)
  unfolding mbuf_find_not
  mbuf_find_not_lem c = ground (arith, check_lem v, unread_out_lem)
