-- ===== src/Mbuf/Trace/Refines.antt =====
-- Every legal call on a valid MBuffer goes through, and replies and leaves what is allowed.
use semantic_oml.Mbuf.Message.Repack.{
  repack_message2-Returns, repack_message-Returns, repack-Returns,
}
use semantic_oml.Mbuf.Transfer.Write.{mbuf_write-Writes}
use semantic_oml.Mbuf.Transfer.Read.{
  mbuf_find_not_lem, mbuf_find_lem, mbuf_read_skip_short, mbuf_read_short, mbuf_read_byte-Returns,
  length-unread, mbuf_read_byte_short, mbuf_read-Returns, mbuf_read_skip-Returns,
}
use semantic_oml.Mbuf.Message.Marks.{
  clear-Returns, reset_write_refused, reset_read_refused, consume_refused, begin_write-Returns,
  reset_write-Returns, reset_read-Returns, consume-Returns, begin_read-Returns,
}
use semantic_oml.Mbuf.Transfer.{
  mbuf_find_not, mbuf_find, mbuf_write, mbuf_read_skip, mbuf_read_byte, mbuf_read,
}
use semantic_oml.Mbuf.Message.{
  mbuf_clear2, mbuf_repack_message2, mbuf_repack_message, mbuf_repack, mbuf_begin_write,
  mbuf_reset_write, mbuf_reset_read, mbuf_consume_message, mbuf_begin_read,
}
use semantic_oml.Mem.Laws.{LibcLaws}
use semantic_oml.Mem.{Libc}
use semantic_oml.Base.{
  refl, [], length, take-all, ◌∷◌, ◌^◌, inr, arith, ◌<◌, length, ◌+◌, inl, ℕ, le_or_lt, List, ◌≡◌,
  Option, some, subst, sym,
}
use semantic_oml.Mbuf.{MBuffer, M}
use semantic_oml.Mbuf.Invariant.{IsValid}
use semantic_oml.Mbuf.View.{length-content, View, view, Returns}
use semantic_oml.Mbuf.Trace.{
  LegalRun, run, AllowsRun, mbuf_find_not, mbuf_find, mbuf_write, number, bytes, status,
  mbuf_read_skip, mbuf_read_byte, mbuf_read, unread, mbuf_begin_read, Legal, perform, Libc,
  with_reply, Op, Reply, Allows,
}

-- A call goes through to a valid buffer, with a reply and a view that are allowed.
pub record Performs (op : Op) (m : MBuffer) (result : Option (Reply × MBuffer)) : Type 0 where
  pub reply : Reply
  pub after : MBuffer
  pub runs : result ≡ some (reply, after)
  pub valid : IsValid after
  pub allowed : Allows op (view m) reply (view after)

module _ {A : Type 0} (f : M A) (reply : A → Reply) (op : Op) (m : MBuffer) where
  of_Returns :
      {a : A} {c : View}
      → Returns f m a c
      → Allows op (view m) (reply a) c
      → Performs op m (with_reply reply (f m))
  of_Returns {a} r p = record {
    reply = reply a;
    after = r.after;
    runs = rw r.runs;
    valid = r.valid;
    allowed = subst (Allows op (view m) (reply a)) (sym r.shows) p;
  }

  of_same :
      {a : A}
      → IsValid m
      → f m ≡ some (a, m)
      → Allows op (view m) (reply a) (view m)
      → Performs op m (with_reply reply (f m))
  of_same {a} v e p = record { reply = reply a; after = m; runs = rw e; valid = v; allowed = p }

module _ (libc : Libc) (laws : LibcLaws libc) (m : MBuffer) (v : IsValid m) where
  reads : (n : ℕ) → Performs (Op.read n) m (perform libc (Op.read n) m)
  unfolding perform
  reads n = elim (le_or_lt n m.rd_remaining) [
    | inl h ↦
        of_Returns (mbuf_read n) bytes (Op.read n) m (mbuf_read-Returns m v n h)
          (Allows.reads (view m) n (omega (arith, length-unread m v)))
    | inr h ↦
        of_same (mbuf_read n) bytes (Op.read n) m v (mbuf_read_short m v n h)
          (Allows.no_read (view m) n (omega (arith, length-unread m v)))
  ]

  skips : (n : ℕ) → Performs (Op.read_skip n) m (perform libc (Op.read_skip n) m)
  unfolding perform
  skips n = elim (le_or_lt n m.rd_remaining) [
    | inl h ↦
        of_Returns (mbuf_read_skip n) status (Op.read_skip n) m (mbuf_read_skip-Returns m v n h)
          (Allows.skips (view m) n (omega (arith, length-unread m v)))
    | inr h ↦
        of_same (mbuf_read_skip n) status (Op.read_skip n) m v (mbuf_read_skip_short m v n h)
          (Allows.no_skip (view m) n (omega (arith, length-unread m v)))
  ]

  reads_byte :
      (bs : List ℕ) → unread (view m) ≡ bs → Performs Op.read_byte m (perform libc Op.read_byte m)
  unfolding perform
  reads_byte [] e =
      of_same mbuf_read_byte number Op.read_byte m v (mbuf_read_byte_short m v e)
        (Allows.no_byte (view m) e)
  reads_byte (b ∷ bs) e =
      of_Returns mbuf_read_byte number Op.read_byte m (mbuf_read_byte-Returns m v b bs e)
        (Allows.reads_byte (view m) b bs e)

  writes :
      (bs : List ℕ)
      → m.fill + length bs < 2 ^ 31
      → Performs (Op.write bs) m (perform libc (Op.write bs) m)
  unfolding perform
  writes bs h = elim (mbuf_write-Writes libc laws m v bs (length bs) (omega arith) h) [
    | inl refused ↦
        of_same (mbuf_write libc (some bs) (length bs)) status (Op.write bs) m v refused
          (Allows.no_write (view m) bs)
    | inr r ↦
        of_Returns (mbuf_write libc (some bs) (length bs)) status (Op.write bs) m r
          (rw (take-all (length bs) bs (omega arith)) (Allows.writes (view m) bs))
  ]

  -- One guarded operation: done, or refused and nothing changed.
  resets_read : Performs Op.reset_read m (perform libc Op.reset_read m)
  unfolding perform
  resets_read = elim (le_or_lt m.msgptr m.rdptr) [
    | inl h ↦
        of_Returns mbuf_reset_read status Op.reset_read m (reset_read-Returns m v h)
          (Allows.resets_read (view m) h)
    | inr h ↦
        of_same mbuf_reset_read status Op.reset_read m v (reset_read_refused m v h)
          (Allows.no_reset_read (view m) h)
  ]

  resets_write : Performs Op.reset_write m (perform libc Op.reset_write m)
  unfolding perform
  resets_write = elim (le_or_lt m.rdptr m.msgptr) [
    | inl h ↦
        of_Returns mbuf_reset_write status Op.reset_write m (reset_write-Returns m v h)
          (Allows.resets_write (view m) h)
    | inr h ↦
        of_same mbuf_reset_write status Op.reset_write m v (reset_write_refused m v h)
          (Allows.no_reset_write (view m) h)
  ]

  consumes : Performs Op.consume m (perform libc Op.consume m)
  unfolding perform
  consumes = elim (le_or_lt m.msgptr m.rdptr) [
    | inl h ↦
        of_Returns mbuf_consume_message status Op.consume m (consume-Returns m v h)
          (Allows.consumes (view m) h)
    | inr h ↦
        of_same mbuf_consume_message status Op.consume m v (consume_refused m v h)
          (Allows.no_consume (view m) h)
  ]

  -- A legal call on a valid buffer goes through, with a reply and a view that are allowed.
  pub perform-Performs : (op : Op) → Legal op (view m) → Performs op m (perform libc op m)
  unfolding perform
  perform-Performs Op.begin_read h =
      of_Returns mbuf_begin_read status _ m (begin_read-Returns m v) (Allows.begins_read (view m))
  perform-Performs Op.begin_write h =
      of_Returns mbuf_begin_write status _ m (begin_write-Returns m v)
        (Allows.begins_write (view m))
  perform-Performs Op.reset_read h = resets_read
  perform-Performs Op.reset_write h = resets_write
  perform-Performs Op.consume h = consumes
  perform-Performs Op.repack h =
      of_Returns mbuf_repack status _ m (repack-Returns m v) (Allows.repacks (view m))
  perform-Performs Op.repack_message h =
      of_Returns mbuf_repack_message status _ m (repack_message-Returns m v h)
        (Allows.repacks_message (view m))
  perform-Performs Op.repack_message2 h =
      of_Returns mbuf_repack_message2 status _ m (repack_message2-Returns m v)
        (Allows.repacks_message2 (view m))
  perform-Performs (Op.clear z) h =
      of_Returns (mbuf_clear2 z) status _ m (clear-Returns m v z) (Allows.clears (view m) z)
  perform-Performs (Op.write bs) h = writes bs (omega (arith, length-content m v))
  perform-Performs (Op.read n) h = reads n
  perform-Performs (Op.read_skip n) h = skips n
  perform-Performs (Op.find b) h =
      of_same (mbuf_find b) number _ m v (mbuf_find_lem m v b) (Allows.finds (view m) b)
  perform-Performs (Op.find_not b) h =
      of_same (mbuf_find_not b) number _ m v (mbuf_find_not_lem m v b) (Allows.finds_not (view m) b)
  perform-Performs Op.read_byte h = reads_byte (unread (view m)) refl

-- A run goes through to a valid buffer, with replies and a view that are allowed.
pub record PerformsRun (ops : List Op) (m : MBuffer) (result : Option (List Reply × MBuffer))
    : Type 0 where
  pub replies : List Reply
  pub after : MBuffer
  pub runs : result ≡ some (replies, after)
  pub valid : IsValid after
  pub allowed : AllowsRun ops (view m) replies (view after)

-- Every sequence of legal calls, begun on a valid buffer and with an allocator that keeps LibcLaws,
-- goes through: no assertion fails, no access leaves the storage, the buffer stays valid, and the
-- replies and the final view are ones that the sequence of bytes with its two marks allows.
pub run-PerformsRun :
    (libc : Libc) (laws : LibcLaws libc) (m : MBuffer) (ops : List Op)
    → IsValid m
    → LegalRun ops (view m)
    → PerformsRun ops m (run libc ops m)
unfolding run
run-PerformsRun libc laws m [] v h = record {
  replies = [];
  after = m;
  runs = refl;
  valid = v;
  allowed = AllowsRun.ends (view m);
}
run-PerformsRun libc laws m (op ∷ ops) v h =
    let p = perform-Performs libc laws m v op h.0 in
    let rest =
      run-PerformsRun libc laws p.after ops p.valid (h.1 p.reply (view p.after) p.allowed) in
    record {
      replies = p.reply ∷ rest.replies;
      after = rest.after;
      runs = ground (arith, p.runs, rest.runs);
      valid = rest.valid;
      allowed = AllowsRun.then_runs p.allowed rest.allowed;
    }
