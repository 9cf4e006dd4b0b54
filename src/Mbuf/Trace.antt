-- ===== src/Mbuf/Trace.antt =====
-- Any sequence of calls on an MBuffer (soml/lib/shared/mbuf.c) against what a client is promised:
-- a sequence of bytes with a read mark and a message mark.
pub mod Refines
use semantic_oml.Base.{
  ℕ, ◌+◌, ◌≤◌, ◌<◌, ◌^◌, ◌≡◌, List, [], ◌∷◌, Option, none, some, Bool, take, length, ◌==◌, not,
}
use semantic_oml.Mem.{Libc}
use semantic_oml.Mbuf.{MBuffer, Status, ok, fail}
use semantic_oml.Mbuf.View
use semantic_oml.Mbuf.View.{View, unread, append, skip, nothing}
use semantic_oml.Mbuf.Transfer.{
  mbuf_write, mbuf_read, mbuf_read_skip, mbuf_read_byte, mbuf_find, mbuf_find_not, scan,
}
use semantic_oml.Mbuf.Message.{
  mbuf_begin_read, mbuf_begin_write, mbuf_reset_read, mbuf_reset_write, mbuf_consume_message,
  mbuf_repack, mbuf_repack_message, mbuf_repack_message2, mbuf_clear2,
}

pub data Op : Type 0 where
  begin_read begin_write reset_read reset_write consume repack repack_message repack_message2 : Op
  clear : Bool → Op
  write : List ℕ → Op
  read read_skip find find_not : ℕ → Op
  read_byte : Op

pub data Reply : Type 0 where
  status : Status → Reply
  bytes : Option (List ℕ) → Reply
  number : Option ℕ → Reply

abbrev with_reply : {A : Type 0} → (A → Reply) → Option (A × MBuffer) → Option (Reply × MBuffer)
with_reply f none = none
with_reply f (some (a, m)) = some (f a, m)

module _ (libc : Libc) where
  pub perform : Op → MBuffer → Option (Reply × MBuffer)
  perform begin_read m = with_reply status (mbuf_begin_read m)
  perform begin_write m = with_reply status (mbuf_begin_write m)
  perform reset_read m = with_reply status (mbuf_reset_read m)
  perform reset_write m = with_reply status (mbuf_reset_write m)
  perform consume m = with_reply status (mbuf_consume_message m)
  perform repack m = with_reply status (mbuf_repack m)
  perform repack_message m = with_reply status (mbuf_repack_message m)
  perform repack_message2 m = with_reply status (mbuf_repack_message2 m)
  perform (clear zero_buffer) m = with_reply status (mbuf_clear2 zero_buffer m)
  perform (write bs) m = with_reply status (mbuf_write libc (some bs) (length bs) m)
  perform (read n) m = with_reply bytes (mbuf_read n m)
  perform (read_skip n) m = with_reply status (mbuf_read_skip n m)
  perform (find c) m = with_reply number (mbuf_find c m)
  perform (find_not c) m = with_reply number (mbuf_find_not c m)
  perform read_byte m = with_reply number (mbuf_read_byte m)

  -- The replies to a sequence of calls; `none` if one of them ends the program.
  pub run : List Op → MBuffer → Option (List Reply × MBuffer)
  run [] m = some ([], m)
  run (op ∷ ops) m = elim (perform op m) [
    | none ↦ none
    | some (r, m') ↦ elim (run ops m') [ none ↦ none | some (rs, m'') ↦ some (r ∷ rs, m'') ]
  ]

-- What a call may reply, and what it then leaves. Only a write may be refused for want of memory.
pub data Allows : Op → View → Reply → View → Type 0 where
  begins_read : (c : View) → Allows begin_read c (status ok) (View.begin_read c)
  begins_write : (c : View) → Allows begin_write c (status ok) (View.begin_write c)
  resets_read : (c : View) → c.msg ≤ c.rd → Allows reset_read c (status ok) (View.reset_read c)
  no_reset_read : (c : View) → c.rd < c.msg → Allows reset_read c (status fail) c
  resets_write : (c : View) → c.rd ≤ c.msg → Allows reset_write c (status ok) (View.reset_write c)
  no_reset_write : (c : View) → c.msg < c.rd → Allows reset_write c (status fail) c
  consumes : (c : View) → c.msg ≤ c.rd → Allows consume c (status ok) (View.begin_read c)
  no_consume : (c : View) → c.rd < c.msg → Allows consume c (status fail) c
  repacks : (c : View) → Allows repack c (status ok) (View.repack c)
  repacks_message : (c : View) → Allows repack_message c (status ok) (View.repack_message c)
  repacks_message2 : (c : View) → Allows repack_message2 c (status ok) (View.repack_message2 c)
  clears : (c : View) (zero_buffer : Bool) → Allows (clear zero_buffer) c (status ok) nothing
  writes : (c : View) (bs : List ℕ) → Allows (write bs) c (status ok) (append bs c)
  no_write : (c : View) (bs : List ℕ) → Allows (write bs) c (status fail) c
  reads :
      (c : View) (n : ℕ)
      → n ≤ length (unread c)
      → Allows (read n) c (bytes (some (take n (unread c)))) (skip n c)
  no_read : (c : View) (n : ℕ) → length (unread c) < n → Allows (read n) c (bytes none) c
  skips : (c : View) (n : ℕ) → n ≤ length (unread c) → Allows (read_skip n) c (status ok) (skip n c)
  no_skip : (c : View) (n : ℕ) → length (unread c) < n → Allows (read_skip n) c (status fail) c
  finds : (c : View) (b : ℕ) → Allows (find b) c (number (scan (λ x. x == b) (unread c))) c
  finds_not :
      (c : View) (b : ℕ) → Allows (find_not b) c (number (scan (λ x. not (x == b)) (unread c))) c
  reads_byte :
      (c : View) (b : ℕ) (bs : List ℕ)
      → unread c ≡ b ∷ bs
      → Allows read_byte c (number (some b)) (skip 1 c)
  no_byte : (c : View) → unread c ≡ [] → Allows read_byte c (number none) c

-- What a call asks of its client: an `int` holds the offsets, and no message is moved to the front
-- before the bytes that stand in front of it are read.
abbrev pub Legal : Op → View → Type 0
Legal (write bs) c = length c.content + length bs < 2 ^ 31
Legal repack_message c = c.msg ≤ c.rd
Legal _ c = Unit {0}

-- Whatever the replies, each call of the sequence is legal where it is made.
abbrev pub LegalRun : List Op → View → Type 0
LegalRun [] c = Unit {0}
LegalRun (op ∷ ops) c = Legal op c × ((r : Reply) (c' : View) → Allows op c r c' → LegalRun ops c')

pub data AllowsRun : List Op → View → List Reply → View → Type 0 where
  ends : (c : View) → AllowsRun [] c [] c
  then_runs :
      {op : Op} {c c' c'' : View} {r : Reply} {ops : List Op} {rs : List Reply}
      → Allows op c r c'
      → AllowsRun ops c' rs c''
      → AllowsRun (op ∷ ops) c (r ∷ rs) c''
