-- ===== src/Mbuf/View.antt =====
-- What a client sees of an MBuffer (soml/lib/shared/mbuf.c): the bytes written so far, where
-- reading goes on, and where the message begins. The storage, its size and its growth are hidden.
use semantic_oml.Base.{
  ◌∙◌, ◌+◌, ℕ, List, [], ◌++◌, ◌≡◌, some, take, drop, length, ◌-◌, arith, length-take,
}
use semantic_oml.Mbuf.{◌>>=◌, MBuffer, M}
use semantic_oml.Mbuf.Invariant.{IsValid}

pub record View : Type 0 where
  pub content : List ℕ
  pub rd : ℕ
  pub msg : ℕ

abbrev pub view : MBuffer → View
view m = record { content = take m.fill m.base.bytes; rd = m.rdptr; msg = m.msgptr }

-- The bytes that are left to read, and those of the message.
abbrev pub unread : View → List ℕ
unread c = drop c.rd c.content

abbrev pub message : View → List ℕ
message c = drop c.msg c.content

-- `f` goes through from `m`: no assertion fails and no access leaves the storage. It returns `a`
-- and leaves a valid buffer that shows `c`.
pub record Returns {A : Type 0} (f : M A) (m : MBuffer) (a : A) (c : View) : Type 0 where
  pub after : MBuffer
  pub runs : f m ≡ some (a, after)
  pub valid : IsValid after
  pub shows : view after ≡ c

pub length-content : (m : MBuffer) → IsValid m → length (view m).content ≡ m.fill
length-content m v = omega (arith, length-take m.fill m.base.bytes)

-- What the operations do to what a client sees.
abbrev pub append : List ℕ → View → View
append bs c = record c { content = c.content ++ bs }

abbrev pub skip : ℕ → View → View
skip n c = record c { rd = c.rd + n }

abbrev pub begin_read : View → View
begin_read c = record c { msg = c.rd }

abbrev pub begin_write : View → View
begin_write c = record c { msg = length c.content }

-- The message is dropped, or read again.
abbrev pub reset_write : View → View
reset_write c = record c { content = take c.msg c.content }

abbrev pub reset_read : View → View
reset_read c = record c { rd = c.msg }

-- What stands before the unread bytes, or before the message, is dropped.
abbrev pub repack : View → View
repack c = record { content = unread c; rd = 0; msg = 0 }

abbrev pub repack_message : View → View
repack_message c = record { content = message c; rd = c.rd - c.msg; msg = 0 }

abbrev pub repack_message2 : View → View
repack_message2 c = record { content = message c; rd = 0; msg = 0 }

abbrev pub nothing : View
nothing = record { content = []; rd = 0; msg = 0 }

module _ {A B : Type 0} (f : M A) (k : A → M B) (m : MBuffer) where
  pub Returns-bind :
      {a : A} {b : B} {c d : View} (r : Returns f m a c)
      → Returns (k a) r.after b d
      → Returns (f >>= k) m b d
  Returns-bind r n = record {
    after = n.after;
    runs = ground (arith, r.runs, n.runs);
    valid = n.valid;
    shows = n.shows;
  }

-- Only what `f` does at `m` counts.
pub Returns-of_eq :
    {A : Type 0} (f g : M A) (m : MBuffer) {a : A} {c : View}
    → f m ≡ g m
    → Returns g m a c
    → Returns f m a c
Returns-of_eq f g m e r = record {
  after = r.after;
  runs = e ∙ r.runs;
  valid = r.valid;
  shows = r.shows;
}
