-- ===== src/Unmarshal/RoundTrip/Sent.antt =====
-- marshal_value() in a sender's buffer and unmarshal_value() in a receiver's (soml/lib/shared/marshal.c).
use semantic_oml.Base.{
  ℕ, ◌≡◌, List, ◌++◌, some, true, false, Bool, Option, length, drop, sym, ap, ◌∙◌, arith, inl, inr,
  drop-append_left,
}
use semantic_oml.Mem.{Libc}
use semantic_oml.Mem.Laws.{LibcLaws, FindsMemory}
use semantic_oml.Mbuf.{MBuffer}
use semantic_oml.Mbuf.Invariant.{IsValid}
use semantic_oml.Mbuf.View.{view, Returns, unread, skip, length-content}
use semantic_oml.Value.{Doubles, OmlValue}
use semantic_oml.Marshal.{marshal_value}
use semantic_oml.Marshal.Wire.{wire, IsSendable}
use semantic_oml.Marshal.Sends.{Writable}
use semantic_oml.Marshal.Sends.Value.{marshal_value-Sends}
use semantic_oml.Unmarshal.{unmarshal_value}
use semantic_oml.Unmarshal.RoundTrip.{received, Fits}
use semantic_oml.Unmarshal.RoundTrip.Value.{wire-Reads}

module _ (libc : Libc) (laws : LibcLaws libc) (dbl : Doubles) where
  same :
      (o : Option (Bool × MBuffer)) {a b : MBuffer}
      → o ≡ some (true, a)
      → o ≡ some (true, b)
      → b ≡ a
  same o e e' = ground (arith, e, e')

  other :
      (o : Option (Bool × MBuffer)) {a b : MBuffer} → o ≡ some (false, a) → o ≡ some (true, b) → ⊥
  other o e e' = ground (arith, e, e')

  appended :
      (m : MBuffer) (v : IsValid m) (value : OmlValue dbl.Double) (sent : MBuffer)
      → IsSendable value
      → Writable (length (wire dbl value)) (view m)
      → marshal_value libc dbl value m ≡ some (true, sent)
      → (view sent).content ≡ (view m).content ++ wire dbl value
  appended m v value sent h w e = elim (marshal_value-Sends libc laws dbl m v value h w) [
    | inl r ↦ ap (λ x. x.content) (ap (λ x. view x) (same _ r.runs e) ∙ r.shows)
    | inr r ↦ absurd (other _ r.runs e)
  ]

  -- Let marshal_value() have returned 1 in a valid buffer in which a message is being written, for
  -- a value that fits the format and is no NULL blob, and let the bytes that it has added stand
  -- next to be read in another valid buffer. Then, if calloc(3) finds memory, unmarshal_value()
  -- returns 1 with what a receiver is told by that value, and has read those bytes and no others.
  pub marshal-unmarshal :
      (m : MBuffer) (v : IsValid m) (value : OmlValue dbl.Double) (sent : MBuffer)
      → IsSendable value
      → Fits dbl value
      → Writable (length (wire dbl value)) (view m)
      → marshal_value libc dbl value m ≡ some (true, sent)
      → (receiver : MBuffer) (rest : List ℕ) (old : OmlValue dbl.Double) → IsValid receiver
      → unread (view receiver) ≡ drop m.fill (view sent).content ++ rest
      → FindsMemory libc
      → Returns
          (unmarshal_value dbl libc old)
          receiver
          (true, received dbl value)
          (skip (length (wire dbl value)) (view receiver))
  marshal-unmarshal m v value sent h fits w e receiver rest old v' e' memory =
      let added =
        ap (drop m.fill) (appended m v value sent h w e)
        ∙ drop-append_left m.fill (view m).content (wire dbl value) (sym (length-content m v)) in
      (wire-Reads dbl libc old value fits memory).at receiver rest v'
        (e' ∙ ap (λ bs. bs ++ rest) added)
