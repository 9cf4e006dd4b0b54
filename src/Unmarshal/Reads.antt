-- ===== src/Unmarshal/Reads.antt =====
-- What a reader of an MBuffer does with the bytes that it consumes, whatever follows them.
use semantic_oml.Base.{
  if◌then◌else◌, true, false, append-nil, Bool, drop-drop, append_assoc, ℕ, ◌+◌, ◌≤◌, ◌≡◌, List, [],
  ◌∷◌, ◌++◌, some, length, take, drop, refl, sym, ap, ◌∙◌, subst, arith, length-append,
  take-append_left, drop-append_left,
}
use semantic_oml.Mbuf.{MBuffer, ok, M, pure, ◌>>=◌}
use semantic_oml.Mbuf.Invariant.{IsValid}
use semantic_oml.Mbuf.View.{View, view, Returns, Returns-bind, unread, skip}
use semantic_oml.Mbuf.Transfer.{mbuf_read, mbuf_read_skip, mbuf_read_byte}
use semantic_oml.Mbuf.Transfer.Read.{
  length-unread, mbuf_read-Returns, mbuf_read_skip-Returns, mbuf_read_byte-Returns,
}

-- Wherever `bs` stands next to be read, `f` returns `a` and has read `bs`.
pub record Reads {A : Type 0} (bs : List ℕ) (f : M A) (a : A) : Type 0 where
  pub at :
      (m : MBuffer) (rest : List ℕ)
      → IsValid m
      → unread (view m) ≡ bs ++ rest
      → Returns f m a (skip (length bs) (view m))

pub unread-skip :
    (n : ℕ) (bs rest : List ℕ) (c : View)
    → n ≡ length bs
    → unread c ≡ bs ++ rest
    → unread (skip n c) ≡ rest
unread-skip n bs rest c h e =
    sym (drop-drop n c.rd (c.rd + n) c.content refl) ∙ ap (drop n) e ∙ drop-append_left n bs rest h

pub Reads-pure : {A : Type 0} (a : A) → Reads [] (pure a) a
Reads-pure a = record {
  at = λ m rest v e. record {
    after = m;
    runs = refl;
    valid = v;
    shows =
        ap (λ k. record { content = take m.fill m.base.bytes; rd = k; msg = m.msgptr })
          (omega arith);
  };
}

-- A step behind another, at what the first left unread.
pub Reads-bind :
    {A B : Type 0} (f : M A) (k : A → M B) (xs ys : List ℕ) (a : A) (b : B)
    → Reads xs f a
    → Reads ys (k a) b
    → Reads (xs ++ ys) (f >>= k) b
Reads-bind f k xs ys a b first second = record {
  at = λ m rest v e.
      let e' = e ∙ append_assoc xs ys rest in
      let r = first.at m (ys ++ rest) v e' in
      let left = ap unread r.shows ∙ unread-skip (length xs) xs (ys ++ rest) (view m) refl e' in
      let n = second.at r.after rest r.valid left in
      Returns-bind f k m r (
        subst (Returns (k a) r.after b) (ap (skip (length ys)) r.shows ∙ skip-skip xs ys (view m))
          n);
}
  where
    skip-skip :
        (xs ys : List ℕ) (c : View)
        → skip (length ys) (skip (length xs) c) ≡ skip (length (xs ++ ys)) c
    skip-skip xs ys c =
        ap (λ k. record { content = c.content; rd = k; msg = c.msg })
          (omega (arith, length-append xs ys))

module _ (n : ℕ) (bs : List ℕ) (h : length bs ≡ n) where
  pub length-left :
      (m : MBuffer) (rest : List ℕ) → IsValid m → unread (view m) ≡ bs ++ rest → n ≤ m.rd_remaining
  length-left m rest v e =
      omega (arith, length-unread m v, ap (length {A = ℕ}) e, length-append bs rest)

  pub Reads-mbuf_read : Reads bs (mbuf_read n) (some bs)
  Reads-mbuf_read = record {
    at = λ m rest v e.
        let r = mbuf_read-Returns m v n (length-left m rest v e) in
        let front = ap (take n) e ∙ take-append_left n bs rest (sym h) in
        subst (λ k. Returns (mbuf_read n) m (some bs) (skip k (view m))) (sym h)
          (subst (λ x. Returns (mbuf_read n) m (some x) (skip n (view m))) front r);
  }

  pub Reads-mbuf_read_skip : Reads bs (mbuf_read_skip n) ok
  Reads-mbuf_read_skip = record {
    at = λ m rest v e.
        subst (λ k. Returns (mbuf_read_skip n) m ok (skip k (view m))) (sym h)
          (mbuf_read_skip-Returns m v n (length-left m rest v e));
  }

pub Reads-mbuf_read_byte : (b : ℕ) → Reads (b ∷ []) mbuf_read_byte (some b)
Reads-mbuf_read_byte b = record { at = λ m rest v e. mbuf_read_byte-Returns m v b rest e }

-- A last step that reads nothing.
pub Reads-bind_last :
    {A B : Type 0} (f : M A) (k : A → M B) (xs : List ℕ) (a : A) (b : B)
    → Reads xs f a
    → Reads [] (k a) b
    → Reads xs (f >>= k) b
Reads-bind_last f k xs a b first second =
    subst (λ bs. Reads bs (f >>= k) b) (append-nil xs) (Reads-bind f k xs [] a b first second)

pub Returns-if_false :
    {A : Type 0} (t : Bool) (f g : M A) (m : MBuffer) {a : A} {c : View}
    → t ≡ false
    → Returns g m a c
    → Returns (if t then f else g) m a c
Returns-if_false t f g m e r = rw e r

pub Reads-if_false :
    {A : Type 0} (t : Bool) (f g : M A) (bs : List ℕ) {a : A}
    → t ≡ false
    → Reads bs g a
    → Reads bs (if t then f else g) a
Reads-if_false t f g bs e r = rw e r

pub Reads-if_true :
    {A : Type 0} (t : Bool) (f g : M A) (bs : List ℕ) {a : A}
    → t ≡ true
    → Reads bs f a
    → Reads bs (if t then f else g) a
Reads-if_true t f g bs e r = rw e r
