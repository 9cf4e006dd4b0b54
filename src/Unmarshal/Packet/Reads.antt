-- ===== src/Unmarshal/Packet/Reads.antt =====
-- unmarshal_values() of soml/lib/shared/marshal.c against the wire format.
use semantic_oml.Base.{
  ltb, ◌==◌, ◌≤◌, ◌<◌, ◌≡◌, List, [], ◌∷◌, ◌++◌, true, length, drop, map, All, arith,
}
use semantic_oml.Base.Int.{pos}
use semantic_oml.Mem.{Libc}
use semantic_oml.Mem.Laws.{FindsMemory}
use semantic_oml.Value.{Doubles, OmlValue}
use semantic_oml.Marshal.Wire.{wire, wires}
use semantic_oml.Unmarshal.{unmarshal_value}
use semantic_oml.Unmarshal.Reads.{Reads, Reads-pure, Reads-bind, Reads-bind_last, Reads-if_false}
use semantic_oml.Unmarshal.RoundTrip.{received, Fits}
use semantic_oml.Unmarshal.RoundTrip.Value.{wire-Reads}
use semantic_oml.Unmarshal.Packet.{
  OmlBinaryHeader, read_values, read_on, put_front, values_read, unmarshal_values,
}

module _ (dbl : Doubles) (libc : Libc) (memory : FindsMemory libc) where
  -- What the array holds after the values are read into it.
  abbrev pub filled :
      List (OmlValue dbl.Double) → List (OmlValue dbl.Double) → List (OmlValue dbl.Double)
  filled values olds = map (received dbl) values ++ drop (length values) olds

  read_values-Reads :
      (values olds : List (OmlValue dbl.Double))
      → All (Fits dbl) values
      → length values ≤ length olds
      → Reads
          (wires dbl values)
          (read_values dbl libc (length values) olds)
          (true, filled values olds)
  unfolding read_values read_on put_front
  read_values-Reads [] olds h le = Reads-pure (true, olds)
  read_values-Reads (v ∷ vs) [] h le = absurd (ground arith)
  read_values-Reads (v ∷ vs) (old ∷ olds) h le =
      Reads-bind (unmarshal_value dbl libc old) _ (wire dbl v) (wires dbl vs) (true, received dbl v)
        _ (wire-Reads dbl libc old v h.0 memory)
        (Reads-bind_last (read_values dbl libc (length vs) olds) _ (wires dbl vs)
          (true, filled vs olds) _ (read_values-Reads vs olds h.1 (omega (arith, le)))
          (Reads-pure (true, received dbl v ∷ filled vs olds)))

  -- Where the bytes that marshal_value() writes for one value or more that fit them stand next to be
  -- read, the header has their number, the array has room for them, and calloc(3) finds memory,
  -- unmarshal_values() returns their number with what a receiver is told by each of them in order in
  -- the array, and has read those bytes and no others. The length of a blob is four bytes there, where
  -- the comment at the head of marshal.c shows one.
  pub unmarshal_values-Reads :
      (header : OmlBinaryHeader dbl.Double) (values olds : List (OmlValue dbl.Double))
      → All (Fits dbl) values
      → length values ≤ length olds
      → 0 < length values
      → header.values ≡ length values
      → Reads
          (wires dbl values)
          (unmarshal_values dbl libc header olds)
          (pos (length values), filled values olds)
  unfolding unmarshal_values values_read
  unmarshal_values-Reads header values olds h le some_left count =
      Reads-if_false (header.values == 0) _ _ (wires dbl values) (ground arith) (
        Reads-if_false (ltb (length olds) header.values) _ _ (wires dbl values) (ground arith) (
          rw count (
            Reads-bind_last (read_values dbl libc (length values) olds) _ (wires dbl values)
              (true, filled values olds) _ (read_values-Reads values olds h le)
              (Reads-pure (pos (length values), filled values olds)))))
