-- ===== src/Marshal/Packet/Sends.antt =====
-- marshal_init() and the loop of marshal_values() (soml/lib/shared/marshal.c) against the wire
-- format.
use semantic_oml.Mbuf.Message.{mbuf_begin_write}
use semantic_oml.Mbuf.Message.Marks.{begin_write-Returns}
use semantic_oml.Mbuf.Transfer.Write.{mbuf_write-Writes, Writes}
use semantic_oml.Base.{
  ◌⊎◌, ◌^◌, ◌<◌, if◌then◌else◌, Bool, ℕ, ◌+◌, ◌≤◌, ◌≡◌, inl, inr, List, [], ◌∷◌, ◌++◌, true, false,
  length, sym, ap, ◌∙◌, subst, arith, refl, append_assoc, take-append, length-append, All,
}
use semantic_oml.Mem.{Libc}
use semantic_oml.Mem.Laws.{LibcLaws}
use semantic_oml.Mbuf.{Status, M, MBuffer}
use semantic_oml.Mbuf.Invariant.{IsValid}
use semantic_oml.Mbuf.View.{
  length-content, begin_write, View, view, Returns, Returns-bind, append, reset_write,
}
use semantic_oml.Value.{Doubles, OmlValue}
use semantic_oml.Marshal.{fail, ok, Status, M, marshal_value}
use semantic_oml.Marshal.Wire.{wire, wires, IsSendable}
use semantic_oml.Marshal.Sends.{Writable, Writable-append, Sends, Sends-pure}
use semantic_oml.Marshal.Sends.Value.{marshal_value-Sends}
use semantic_oml.Marshal.Packet.{
  mbuf_begin_write, omb_ldata_p, each_value, go_on, marshal_init, header_of, omb_data_p, sync_byte,
}

append-append : (xs ys : List ℕ) (c : View) → append ys (append xs c) ≡ append (xs ++ ys) c
append-append xs ys c =
    ap (λ l. record { content = l; rd = c.rd; msg = c.msg }) (append_assoc c.content xs ys)

reset_write-append :
    (xs : List ℕ) (c : View) → c.msg ≤ length c.content → reset_write (append xs c) ≡ reset_write c
reset_write-append xs c h =
    ap (λ l. record { content = l; rd = c.rd; msg = c.msg }) (take-append c.msg c.content xs h)

module _ (libc : Libc) (laws : LibcLaws libc) (dbl : Doubles) where
  -- In a valid buffer in which a message is being written, with less than 2 ^ 31 bytes after the
  -- values, values of known types without a NULL blob: the loop of marshal_values() has appended
  -- the bytes of all of them in order, as marshal_value() writes them, or it has stopped and the whole
  -- message is dropped. The length of a blob is four bytes, where the comment at the head of marshal.c
  -- shows one.
  pub each_value-Sends :
      (m : MBuffer) (v : IsValid m) (values : List (OmlValue dbl.Double))
      → All IsSendable values
      → Writable (length (wires dbl values)) (view m)
      → Sends (wires dbl values) m (each_value libc dbl values)
  unfolding each_value go_on
  each_value-Sends m v [] h w = Sends-pure m v
  each_value-Sends m v (x ∷ xs) h w =
      let first = wire dbl x in
      let others = wires dbl xs in
      let w1 : Writable (length first + length others) (view m) =
        omega (arith, w, length-append first others) in
      let next = go_on libc dbl (each_value libc dbl xs) in
      elim (marshal_value-Sends libc laws dbl m v x h.0 (omega (arith, w1))) [
        | inr r ↦ inr (
            Returns-bind (marshal_value libc dbl x) next m r
              (record { after = r.after; runs = refl; valid = r.valid; shows = r.shows }))
        | inl r ↦
            let w2 =
              subst (Writable (length others)) (sym r.shows)
                (Writable-append first (length others) (view m) w1) in
            elim (each_value-Sends r.after r.valid xs h.1 w2) [
              | inl n ↦ inl (
                  Returns-bind (marshal_value libc dbl x) next m r (
                    subst (Returns (each_value libc dbl xs) r.after true)
                      (ap (append others) r.shows ∙ append-append first others (view m)) n))
              | inr n ↦ inr (
                  Returns-bind (marshal_value libc dbl x) next m r (
                    subst (Returns (each_value libc dbl xs) r.after false)
                      (ap reset_write r.shows ∙ reset_write-append first (view m) w.within) n))
            ]
      ]

-- The type and the header of a short packet, or of a long one.
abbrev pub packet_type : Bool → ℕ
packet_type short = if short then omb_data_p else omb_ldata_p

abbrev pub header_bytes : Bool → List ℕ
header_bytes true = sync_byte ∷ sync_byte ∷ omb_data_p ∷ 0 ∷ 0 ∷ []
header_bytes false = sync_byte ∷ sync_byte ∷ omb_ldata_p ∷ 0 ∷ 0 ∷ 0 ∷ 0 ∷ []

-- A write, in terms of what is shown after it.
shown :
    (bs : List ℕ) (m : MBuffer) (f : M Status)
    → IsValid m
    → Writes bs m f
    → Returns f m ok (append bs (view m)) ⊎ Returns f m fail (view m)
shown bs m f v (inl refused) = inr (record { after = m; runs = refused; valid = v; shows = refl })
shown bs m f v (inr r) = inl r

module _ (libc : Libc) (laws : LibcLaws libc) where
  header_of-Writes :
      (m : MBuffer) (v : IsValid m) (short : Bool)
      → m.fill + 7 < 2 ^ 31
      → Writes (header_bytes short) m (header_of libc (packet_type short) ok)
  unfolding header_of
  header_of-Writes m v true h =
      mbuf_write-Writes libc laws m v (header_bytes true) 5 (omega arith) (omega (arith, h))
  header_of-Writes m v false h =
      mbuf_write-Writes libc laws m v (header_bytes false) 7 (omega arith) (omega (arith, h))

  -- In a valid buffer with less than 2 ^ 31 bytes after seven more, marshal_init() begins a message
  -- behind what is there, and either appends the header of the packet's type or is refused.
  pub marshal_init-Returns :
      (m : MBuffer) (v : IsValid m) (short : Bool)
      → m.fill + 7 < 2 ^ 31
      → Returns
          (marshal_init libc (packet_type short))
          m
          ok
          (append (header_bytes short) (begin_write (view m)))
        ⊎ Returns (marshal_init libc (packet_type short)) m fail (begin_write (view m))
  unfolding marshal_init
  marshal_init-Returns m v short h =
      let r = begin_write-Returns m v in
      let next = header_of libc (packet_type short) in
      let same : r.after.fill ≡ m.fill = omega (
        arith,
        length-content r.after r.valid,
        length-content m v,
        ap (λ c. length {A = ℕ} c.content) r.shows,
      ) in
      elim (shown (header_bytes short) r.after (next ok) r.valid
        (header_of-Writes r.after r.valid short (omega (arith, same, h)))) [
          | inl n ↦ inl (
              Returns-bind mbuf_begin_write next m r
                (subst (Returns (next ok) r.after ok) (ap (append (header_bytes short)) r.shows) n))
          | inr n ↦ inr (
              Returns-bind mbuf_begin_write next m r
                (subst (Returns (next ok) r.after fail) r.shows n))
        ]
