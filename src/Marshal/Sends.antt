-- ===== src/Marshal/Sends.antt =====
-- marshal_value() of soml/lib/shared/marshal.c appends the bytes of the wire format, or drops the
-- message that it was to be part of.
pub mod Value
use semantic_oml.Base.{
  take-append, ℕ, ◌+◌, ◌≤◌, ◌<◌, ◌^◌, ◌≡◌, ◌⊎◌, inl, inr, List, [], ◌++◌, some, Bool, true, false,
  length, refl, sym, ap, ◌∙◌, subst, arith, append-nil, append_assoc, length-append,
}
use semantic_oml.Mbuf.{MBuffer, Status, ok, fail, M, pure, ◌>>=◌}
use semantic_oml.Mbuf.Invariant.{IsValid}
use semantic_oml.Mbuf.View.{View, view, Returns, append, reset_write}
use semantic_oml.Mbuf.Transfer.Write.{Writes}
use semantic_oml.Mbuf.Message.Marks.{reset_write-Returns}
use semantic_oml.Marshal.{or_reset}

-- A message is being written, and `n` bytes more leave its end within an `int`.
pub record Writable (n : ℕ) (c : View) : Type 0 where
  pub writing : c.rd ≤ c.msg
  pub within : c.msg ≤ length c.content
  pub small : length c.content + n < 2 ^ 31

-- The bytes are appended, or the message is dropped.
abbrev pub Sends : List ℕ → MBuffer → M Bool → Type 0
Sends bs m f = Returns f m true (append bs (view m)) ⊎ Returns f m false (reset_write (view m))

pub Writable-append :
    (bs : List ℕ) (n : ℕ) (c : View) → Writable (length bs + n) c → Writable n (append bs c)
Writable-append bs n c w = omega (arith, w, length-append c.content bs)

pub Sends-pure : (m : MBuffer) → IsValid m → Sends [] m (pure true)
Sends-pure m v = inl (record {
  after = m;
  runs = refl;
  valid = v;
  shows = ap (λ c. record { content = c; rd = m.rdptr; msg = m.msgptr }) (sym (append-nil _));
})

module _ (m : MBuffer) (v : IsValid m) (f : M Status) (next : M Bool) (hs bs : List ℕ)
    (w : Writable (length hs + length bs) (view m)) where
  abbrev pub then_next : M Bool
  then_next = f >>= λ s. or_reset s next

  pub drops : f m ≡ some (fail, m) → Returns then_next m false (reset_write (view m))
  unfolding or_reset
  drops e =
      let r = reset_write-Returns m v w.writing in
      record { after = r.after; runs = ground (arith, e, r.runs); valid = r.valid; shows = r.shows }

  module _ (r : Returns f m ok (append hs (view m))) where
    pub goes_on : {a : Bool} {c : View} → Returns next r.after a c → Returns then_next m a c
    unfolding or_reset
    goes_on n = record {
      after = n.after;
      runs = ground (arith, r.runs, n.runs);
      valid = n.valid;
      shows = n.shows;
    }

    append-append : append bs (view r.after) ≡ append (hs ++ bs) (view m)
    append-append =
        ap (append bs) r.shows
        ∙ ap (λ c. record { content = c; rd = m.rdptr; msg = m.msgptr })
            (append_assoc (view m).content hs bs)

    pub reset-append : reset_write (view r.after) ≡ reset_write (view m)
    reset-append =
        ap reset_write r.shows
        ∙ ap (λ c. record { content = c; rd = m.rdptr; msg = m.msgptr })
            (take-append m.msgptr (view m).content hs w.within)

    Sends-after : Sends bs r.after next → Sends (hs ++ bs) m then_next
    Sends-after (inl n) = inl (goes_on (subst (Returns next r.after true) append-append n))
    Sends-after (inr n) = inr (goes_on (subst (Returns next r.after false) reset-append n))

  -- A write, then the rest: sent in full, or dropped in full.
  pub Sends-bind :
      Writes hs m f
      → ((m' : MBuffer) → IsValid m' → Writable (length bs) (view m') → Sends bs m' next)
      → Sends (hs ++ bs) m then_next
  Sends-bind (inl refused) k = inr (drops refused)
  Sends-bind (inr r) k = Sends-after r (
      k r.after r.valid
        (subst (Writable (length bs)) (sym r.shows) (Writable-append hs (length bs) (view m) w)))
