-- ===== src/Mbuf/Transfer/Print.antt =====
-- mbuf_print() of soml/lib/shared/mbuf.c: the text that a format prints is appended, but for its
-- last byte where the text is exactly as long as the room.
pub mod Attempt
use semantic_oml.Mbuf.Transfer.Print.Attempt.{
  view-attempted, loop_enough, attempted-IsValid, printed_of_ne, loop_short, finish_print-Returns,
  printed, attempted,
}
use semantic_oml.Mbuf.Storage.Growth.{check_resize-Makes, HasRoom}
use semantic_oml.Mbuf.Storage.{mbuf_check_resize}
use semantic_oml.Mem.{Libc}
use semantic_oml.Base.{
  ◌⊎◌, ap₂, ◌∙◌, suc, ◌^◌, take-append_left, take-all, ◌==◌, append-nil, if◌then◌else◌, length-take,
  length-append, le_or_lt, ℕ, ◌+◌, ◌-◌, ◌≤◌, ◌<◌, ◌≡◌, inl, inr, some, List, [], ◌∷◌, ◌++◌, take,
  length, refl, ap, arith,
}
use semantic_oml.Mem.Laws.{LibcLaws, take-splice_part, splice, write_to_lem, length-splice}
use semantic_oml.Mbuf.{fail, Status, M, ◌>>=◌, ok, MBuffer}
use semantic_oml.Mbuf.Invariant.{check_lem, IsValid}
use semantic_oml.Mbuf.View.{append, Returns, view}
use semantic_oml.Mbuf.Transfer.{
  mbuf_print, retry, mbuf_check_resize, print_loop, written, finish_print, Libc, vsnprintf,
  print_at,
}

-- A print is refused and leaves what a client sees as it was, or appends what is printed.
abbrev pub Prints : List ℕ → MBuffer → M Status → Type 0
Prints bs m f = Returns f m fail (view m) ⊎ Returns f m ok (append bs (view m))

module _ (libc : Libc) (laws : LibcLaws libc) (m : MBuffer) (v : IsValid m) (text : List ℕ)
    (small : m.length + length text + m.min_resize < 2 ^ 31) where
  print_room :
      length text ≤ m.wr_remaining
      → Returns (mbuf_print libc text) m ok (append (printed m.wr_remaining text) (view m))
  unfolding mbuf_print
  print_room enough =
      let done = finish_print-Returns m v text enough (omega arith) in
      record {
        after = done.after;
        runs =
            ground
              (arith, check_lem v, loop_enough m v text libc 2 enough (omega arith), done.runs);
        valid = done.valid;
        shows = done.shows;
      }

  module _ (short : m.wr_remaining < length text) where
    print_refused :
        mbuf_check_resize libc (length text) (attempted m text) ≡ some (fail, attempted m text)
        → Returns (mbuf_print libc text) m fail (view m)
    unfolding mbuf_print retry finish_print
    print_refused e = record {
      after = attempted m text;
      runs = ground (arith, check_lem v, loop_short m v text libc 2 short, e);
      valid = attempted-IsValid m v text;
      shows = view-attempted m v text;
    }

    print_grown :
        (m' : MBuffer)
        → mbuf_check_resize libc (length text) (attempted m text) ≡ some (ok, m')
        → HasRoom (length text) (attempted m text) m'
        → Returns (mbuf_print libc text) m ok (append text (view m))
    unfolding mbuf_print retry
    print_grown m' e r =
        let spare : length text < m'.wr_remaining = r.spare (omega arith) in
        let short_enough : m'.length < 2 ^ 31 = omega (arith, r) in
        let done = finish_print-Returns m' r.valid text r.room (omega (arith, r)) in
        record {
          after = done.after;
          runs = ground (
            arith,
            check_lem v,
            loop_short m v text libc 2 short,
            e,
            loop_enough m' r.valid text libc 1 r.room short_enough,
            done.runs,
          );
          valid = done.valid;
          shows =
              done.shows
              ∙ ap₂ append (printed_of_ne m'.wr_remaining text (omega arith))
                  (r.shows ∙ view-attempted m v text);
        }

  -- In a valid buffer whose length, with the text and one step, stays below 2 ^ 31, mbuf_print()
  -- ends: it is refused and shows what it did before, or it appends the text, whose last byte is a
  -- zero where the text is exactly as long as the room.
  pub mbuf_print-Prints : Prints (printed m.wr_remaining text) m (mbuf_print libc text)
  mbuf_print-Prints = elim (le_or_lt (length text) m.wr_remaining) [
    | inl enough ↦ inr (print_room enough)
    | inr short ↦
        let same = printed_of_ne m.wr_remaining text (omega arith) in
        elim (check_resize-Makes libc laws (attempted m text) (attempted-IsValid m v text)
          (length text) (omega arith)) [
            | inl refused ↦ inl (print_refused short refused)
            | inr (m', e, r) ↦ inr (rw same (print_grown short m' e r))
          ]
  ]
