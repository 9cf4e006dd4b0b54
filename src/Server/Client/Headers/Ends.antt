-- ===== src/Server/Client/Headers/Ends.antt =====
-- The loop over a client's headers (client_callback() of soml/server/client_handler.c) ends.
use semantic_oml.Server.Client.Headers.Cuts.{
  Shorter, cut-Shorter, length-behind_value, Splits, cut-Splits, AtLine, AtLineOrZero,
  next_line_or_zero, empty_line, behind_value-AtLine,
}
use semantic_oml.Base.{
  subst, Bool, ℕ, zero, suc, ◌<◌, ◌≡◌, ◌⊎◌, inl, inr, List, [], ◌∷◌, Option, none, some, true,
  false, length, arith, refl, Bool-cases, Option-cases,
}
use semantic_oml.Value.{Doubles}
use semantic_oml.Server.Client.{
  c_header, c_binary_data, c_text_data, c_binary_skip, protocol_error, CState, c_protocol_error,
  Serving, failed,
}
use semantic_oml.Server.Client.Meta.{process_meta, Backend}
use semantic_oml.Server.Client.Headers.{
  until_zero, skip_spaces, process_meta, newline, cut, read_line, Run, done, fault, out_of_fuel,
  end_headers, meta_line, one_line, header_line, process_header, go_on, process_headers, is_error,
}

module _ (dbl : Doubles) (backend : Backend) where
  -- Where the loop over some bytes may end: at a line of them that is not full, or with the protocol
  -- error, or behind an empty line, in the state for the content.
  abbrev pub IsEnd : List ℕ → Serving dbl.Double × List ℕ → Type 0
  IsEnd all (s, rest) =
      ((read_line rest ≡ none) × AtLineOrZero all rest)
      ⊎ ((s.client.state ≡ c_protocol_error)
          ⊎ ((s.client.state ≡ s.client.content) × AtLine all (newline ∷ rest)))

  -- A round: a fault, a place to end, or a later line.
  abbrev Round : List ℕ → List ℕ → Option (Bool × (Serving dbl.Double × List ℕ)) → Type 0
  Round all bytes none = Unit {0}
  Round all bytes (some (true, (s, rest))) = (length rest < length bytes) × AtLineOrZero all rest
  Round all bytes (some (false, left)) = IsEnd all left

  is_error_lem : (c : CState) → is_error c ≡ true → c ≡ c_protocol_error
  unfolding is_error
  is_error_lem c_protocol_error e = refl
  is_error_lem c_header e = absurd (ground (arith, e))
  is_error_lem c_binary_data e = absurd (ground (arith, e))
  is_error_lem c_text_data e = absurd (ground (arith, e))
  is_error_lem c_binary_skip e = absurd (ground (arith, e))

  module _ (all : List ℕ) where
    meta_line-Round :
        (s : Serving dbl.Double) (bytes key value rest : List ℕ)
        → length rest < length bytes
        → AtLine all rest
        → Round all bytes (meta_line dbl backend s key value rest)
    unfolding meta_line
    meta_line-Round s bytes key value rest l h =
        elim (Option-cases (process_meta dbl backend s (until_zero key) (until_zero value))) [
          | inl e ↦ rw e tt
          | inr ((r, after), e) ↦ elim (Bool-cases (is_error after.client.state)) [
            | inl x ↦ rw (e, x) (inr (inl (is_error_lem after.client.state x)))
            | inr x ↦
                rw (e, x)
                  (
                    omega (arith, l, length-behind_value value rest),
                    behind_value-AtLine all value rest h,
                  )
          ]
        ]

    one_line-Round :
        (s : Serving dbl.Double) (bytes line rest : List ℕ) (o : Option (List ℕ × List ℕ))
        → length rest < length bytes
        → AtLine all rest
        → Round all bytes (one_line dbl backend s line rest o)
    unfolding one_line failed protocol_error
    one_line-Round s bytes line rest none l h = inr (inl refl)
    one_line-Round s bytes line rest (some (key, value)) l h =
        meta_line-Round s bytes key (skip_spaces value) rest l h

    header_line-Round :
        (s : Serving dbl.Double) (bytes : List ℕ) (o : Option (List ℕ × List ℕ))
        → read_line bytes ≡ o
        → Shorter bytes o
        → Splits newline bytes o
        → AtLineOrZero all bytes
        → Round all bytes (header_line dbl backend s bytes o)
    unfolding header_line end_headers
    header_line-Round s bytes none e l split h = inl (e, h)
    header_line-Round s bytes (some ([], rest)) e l split h =
        inr (inr (refl, empty_line all rest (subst (AtLineOrZero all) split h)))
    header_line-Round s bytes (some (b ∷ line, rest)) e l split h =
        one_line-Round s bytes (b ∷ line) rest (cut b':' (b ∷ line)) l
          (next_line_or_zero all (b ∷ line) rest (subst (AtLineOrZero all) split h))

  -- What becomes of the loop over some bytes: it ends, or faults.
  abbrev pub Ends : List ℕ → Run (Serving dbl.Double × List ℕ) → Type 0
  Ends all (done left) = IsEnd all left
  Ends all fault = Unit {0}
  Ends all out_of_fuel = ⊥

  go_on-Ends :
      (all bytes : List ℕ) (o : Option (Bool × (Serving dbl.Double × List ℕ)))
      (again : Serving dbl.Double → List ℕ → Run (Serving dbl.Double × List ℕ))
      → Round all bytes o
      → ((s : Serving dbl.Double) (rest : List ℕ)
          → length rest < length bytes
          → AtLineOrZero all rest
          → Ends all (again s rest))
      → Ends all (go_on dbl backend o again)
  unfolding go_on
  go_on-Ends all bytes none again r h = tt
  go_on-Ends all bytes (some (true, (s, rest))) again r h = h s rest r.0 r.1
  go_on-Ends all bytes (some (false, left)) again r h = r

  -- From a line of the bytes on.
  loop_lem :
      (all : List ℕ) (fuel : ℕ) (s : Serving dbl.Double) (bytes : List ℕ)
      → length bytes < fuel
      → AtLineOrZero all bytes
      → Ends all (process_headers dbl backend fuel s bytes)
  unfolding process_headers process_header read_line
  loop_lem all zero s bytes l h = absurd (omega (arith, l))
  loop_lem all (suc fuel) s bytes l h =
      go_on-Ends all bytes (process_header dbl backend s bytes) (process_headers dbl backend fuel)
        (header_line-Round all s bytes (read_line bytes) refl (cut-Shorter newline bytes)
          (cut-Splits newline bytes) h)
        (λ s' rest less h'. loop_lem all fuel s' rest (omega (arith, l, less)) h')

  -- The loop over the header lines takes at most as many rounds as bytes are left, and one. Unless an
  -- access is outside the memory, it ends in one of three ways. No full line is left, and what is
  -- left begins where a line of the bytes does, up to a first byte that chomp() may have zeroed. Or a
  -- line has set the protocol error. Or the state is the one for the client's content, and what is
  -- left are the bytes that follow an empty line.
  pub process_headers-Ends :
      (fuel : ℕ) (s : Serving dbl.Double) (bytes : List ℕ)
      → length bytes < fuel
      → Ends bytes (process_headers dbl backend fuel s bytes)
  process_headers-Ends fuel s bytes l = loop_lem bytes fuel s bytes l (inl (inl refl))
