-- ===== src/Mbuf/Transfer/Print/Attempt.antt =====
-- One round of mbuf_print() of soml/lib/shared/mbuf.c, and the loop that makes it.
use semantic_oml.Mbuf.Storage.{mbuf_check_resize}
use semantic_oml.Mem.{Libc}
use semantic_oml.Base.{
  ◌≢◌, ◌∙◌, suc, ◌^◌, take-append_left, take-all, ◌==◌, append-nil, if◌then◌else◌, length-take,
  length-append, le_or_lt, ℕ, ◌+◌, ◌-◌, ◌≤◌, ◌<◌, ◌≡◌, inl, inr, some, List, [], ◌∷◌, ◌++◌, take,
  length, refl, ap, arith,
}
use semantic_oml.Mem.Laws.{take-splice_part, splice, write_to_lem, length-splice}
use semantic_oml.Mbuf.{◌>>=◌, ok, MBuffer}
use semantic_oml.Mbuf.Invariant.{check_lem, IsValid}
use semantic_oml.Mbuf.View.{append, Returns, view}
use semantic_oml.Mbuf.Transfer.{
  retry, mbuf_check_resize, print_loop, written, finish_print, Libc, vsnprintf, print_at,
}

-- What vsnprintf(3) leaves in the storage.
abbrev pub print_bytes : MBuffer → List ℕ → List ℕ
print_bytes m text = take (m.wr_remaining - 1) text ++ (0 ∷ [])

abbrev pub print_mem : MBuffer → List ℕ → List ℕ
print_mem m text =
    if m.wr_remaining == 0 then m.base.bytes else splice m.base.bytes m.wrptr (print_bytes m text)

abbrev pub attempted : MBuffer → List ℕ → MBuffer
attempted m text = record m { base = record m.base { bytes = print_mem m text } }

-- A text with a zero in the place of its last byte.
abbrev pub cut : List ℕ → List ℕ
cut text = if length text == 0 then [] else take (length text - 1) text ++ (0 ∷ [])

-- What is appended of a text where `room` bytes are left: a text that fills the room is cut.
abbrev pub printed : ℕ → List ℕ → List ℕ
printed room text = if length text == room then cut text else text

pub printed_of_ne : (room : ℕ) (text : List ℕ) → length text ≢ room → printed room text ≡ text
printed_of_ne room text h = ground arith

-- The part of an attempt that is kept.
take-print_bytes :
    (text : List ℕ) (room : ℕ)
    → length text ≤ room
    → 0 < room
    → take (length text) (take (room - 1) text ++ (0 ∷ [])) ≡ printed room text
take-print_bytes text room le pos = elim (le_or_lt room (length text)) [
  | inl full ↦
      let e : room ≡ length text = omega arith in
      rw e (
        ground (
          arith,
          take-all (length text) (take (length text - 1) text ++ (0 ∷ [])) (
              omega (
                arith,
                length-take (length text - 1) text,
                length-append (take (length text - 1) text) (0 ∷ []),
              )),
        ))
  | inr less ↦ ground (
    arith,
    take-all (room - 1) text (omega arith),
    take-append_left (length text) text (0 ∷ []) refl,
  )
]

module _ (m : MBuffer) (v : IsValid m) (text : List ℕ) where
  length-print_bytes : 0 < m.wr_remaining → length (print_bytes m text) ≤ m.wr_remaining
  length-print_bytes h = omega (
    arith,
    length-append (take (m.wr_remaining - 1) text) (0 ∷ []),
    length-take (m.wr_remaining - 1) text,
  )

  fits : 0 < m.wr_remaining → m.wrptr + length (print_bytes m text) ≤ length m.base.bytes
  fits h = omega (arith, length-print_bytes h)

  pub print_at_lem : print_at text m ≡ some (tt, attempted m text)
  unfolding print_at vsnprintf
  print_at_lem = elim (le_or_lt m.wr_remaining 0) [
    | inl full ↦ ground arith
    | inr h ↦ ground (arith, write_to_lem m.base.bytes m.wrptr (print_bytes m text) (fits h))
  ]

  pub length-print_mem : length (print_mem m text) ≡ length m.base.bytes
  length-print_mem = elim (le_or_lt m.wr_remaining 0) [
    | inl full ↦ ground arith
    | inr h ↦ ground (arith, length-splice m.base.bytes m.wrptr (print_bytes m text) (fits h))
  ]

  pub attempted-IsValid : IsValid (attempted m text)
  attempted-IsValid = omega (arith, length-print_mem)

  -- An attempt writes behind the content.
  pub view-attempted : view (attempted m text) ≡ view m
  view-attempted =
      ap (λ c. record { content = c; rd = m.rdptr; msg = m.msgptr })
        (elim (le_or_lt m.wr_remaining 0) [
          | inl full ↦ ground arith
          | inr h ↦ ground (
            arith,
            take-splice_part m.base.bytes m.wrptr (print_bytes m text) m.fill 0 (fits h)
                (omega arith) (omega arith),
            append-nil (take m.wrptr m.base.bytes),
          )
        ])

  take-print_mem :
      length text ≤ m.wr_remaining
      → take (m.fill + length text) (print_mem m text)
        ≡ take m.fill m.base.bytes ++ printed m.wr_remaining text
  take-print_mem enough = elim (le_or_lt m.wr_remaining 0) [
    | inl full ↦ ground (arith, append-nil (take m.fill m.base.bytes))
    | inr h ↦ ground (
      arith,
      take-splice_part m.base.bytes m.wrptr (print_bytes m text) (m.fill + length text)
          (length text) (fits h) (omega arith)
          (omega (
            arith,
            length-take (m.wr_remaining - 1) text,
            length-append (take (m.wr_remaining - 1) text) (0 ∷ []),
          )),
      take-print_bytes text m.wr_remaining enough h,
    )
  ]

  pub counted : MBuffer
  counted = written (length text) (attempted m text)

  pub finish_print-Returns :
      length text ≤ m.wr_remaining
      → m.fill + length text < 2 ^ 31
      → Returns
          (finish_print (length text) ok)
          (attempted m text)
          ok
          (append (printed m.wr_remaining text) (view m))
  unfolding finish_print counted
  finish_print-Returns enough small =
      let v' : IsValid counted = omega (arith, length-print_mem) in
      record {
        after = counted;
        runs = ground (arith, check_lem v');
        valid = v';
        shows =
            ap (λ c. record { content = c; rd = m.rdptr; msg = m.msgptr })
              (ap (λ n. take n (print_mem m text)) (omega arith) ∙ take-print_mem enough);
      }

  module _ (libc : Libc) (fuel : ℕ) where
    pub loop_enough :
        length text ≤ m.wr_remaining
        → m.length < 2 ^ 31
        → print_loop libc text (suc fuel) m ≡ some (ok, attempted m text)
    unfolding print_loop
    loop_enough enough small = ground (arith, print_at_lem)

    pub loop_short :
        m.wr_remaining < length text
        → print_loop libc text (suc fuel) m
          ≡ (mbuf_check_resize libc (length text) >>= λ s. retry s (print_loop libc text fuel))
              (attempted m text)
    unfolding print_loop
    loop_short short = ground (arith, print_at_lem)
