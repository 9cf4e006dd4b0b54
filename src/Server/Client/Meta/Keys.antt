-- ===== src/Server/Client/Meta/Keys.antt =====
-- What process_meta() of soml/server/client_handler.c returns and leaves, for each key that is only
-- valid in the headers.
use semantic_oml.Numbers.{atoi}
use semantic_oml.Base.Int.{sub_ℤ, ℤ}
use semantic_oml.Base.Text.{codes, same}
use semantic_oml.Base.{
  ap, subst, ℕ, ◌≡◌, ◌≢◌, ◌⊎◌, inl, inr, List, Option, none, some, true, false, get_elem?, refl,
  arith, Bool-cases,
}
use semantic_oml.Value.{Doubles}
use semantic_oml.Server.Database.{Database}
use semantic_oml.Server.Client.{
  c_binary_skip, c_text_data, c_binary_data, ℤ, protocol_error, failed, CState, c_header,
  c_protocol_error, Serving,
}
use semantic_oml.Server.Client.Slots.{set_elem_lem}
use semantic_oml.Server.Client.Declares.{IsServing}
use semantic_oml.Server.Client.Meta.Opened.{IsOpen}
use semantic_oml.Server.Client.Meta.{
  atoi, seeded, known_version, with_database, refuse, meta_start_time, meta_sender_id,
  meta_protocol, meta_content, meta_app_name, in_header, found, Meta, processed, ignored, refused,
  not_recognised, Key, schema_key, other_key, is_header,
}

is_header-true : (c : CState) → is_header c ≡ true → c ≡ c_header
unfolding is_header
is_header-true c_header e = refl
is_header-true c_binary_data e = absurd (ground (arith, e))
is_header-true c_text_data e = absurd (ground (arith, e))
is_header-true c_protocol_error e = absurd (ground (arith, e))
is_header-true c_binary_skip e = absurd (ground (arith, e))

is_header-false : (c : CState) → is_header c ≡ false → c ≢ c_header
unfolding is_header
is_header-false c e h = let t : is_header c ≡ true = ap is_header h in ground (arith, e, t)

module _ (dbl : Doubles) where
  -- What process_meta() returns, and what it leaves.
  abbrev pub Answered : Serving dbl.Double → Key → Meta → Serving dbl.Double → Type 0
  Answered s key processed after =
      IsServing dbl after
      × ((s.client.state ≡ c_header) ⊎ (key ≡ schema_key))
      × ((after.client.state ≡ s.client.state) ⊎ (after.client.state ≡ c_protocol_error))
  Answered s key ignored after = (after ≡ s) × (s.client.state ≢ c_header)
  Answered s key refused after =
      IsServing dbl after × (s.client.state ≡ c_header) × (after.client.state ≡ c_protocol_error)
  Answered s key not_recognised after = (after ≡ s) × (key ≡ other_key)

  abbrev pub Answers : Serving dbl.Double → Key → Option (Meta × Serving dbl.Double) → Type 0
  Answers s key answer =
      (r : Meta) × (after : Serving dbl.Double) × (answer ≡ some (r, after))
      × Answered s key r after

  pub in_header_lem :
      (s : Serving dbl.Double) (key : Key) (act : Option (Meta × Serving dbl.Double))
      → (s.client.state ≡ c_header → Answers s key act)
      → Answers s key (in_header dbl s act)
  unfolding in_header
  in_header_lem s key act h = elim (Bool-cases (is_header s.client.state)) [
    | inl e ↦ let (r, after, p, a) = h (is_header-true s.client.state e) in (r, after, rw e p, a)
    | inr e ↦ (ignored, s, rw e refl, (refl, is_header-false s.client.state e))
  ]

  pub refuse_lem :
      (s : Serving dbl.Double) (key : Key)
      → IsServing dbl s
      → s.client.state ≡ c_header
      → Answers s key (refuse dbl s)
  unfolding refuse failed protocol_error
  refuse_lem s key h e = (refused, failed dbl s, refl, (h, e, refl))

  pub protocol_lem :
      (s : Serving dbl.Double) (value : List ℕ) (key : Key)
      → IsServing dbl s
      → s.client.state ≡ c_header
      → Answers s key (meta_protocol dbl s value)
  unfolding meta_protocol
  protocol_lem s value key h e = elim (Bool-cases (known_version (atoi value))) [
    | inl k ↦ (processed, s, rw k refl, (h, inl e, inl refl))
    | inr k ↦ let (r, after, p, a) = refuse_lem s key h e in (r, after, rw k p, a)
  ]

  pub found_lem :
      (s : Serving dbl.Double) (f : Option ℕ × List Database) (key : Key)
      → IsServing dbl s
      → s.client.state ≡ c_header
      → IsOpen f
      → Answers s key (found dbl s f)
  unfolding found with_database refuse failed protocol_error
  found_lem s (none, dbs) key (h, _) e o =
      (refused, failed dbl (with_database dbl s (none, dbs)), refl, ((h, inl refl), e, refl))
  found_lem s (some i, dbs) key (h, _) e (db, g) = (
    processed,
    with_database dbl s (some i, dbs),
    refl,
    ((h, inr (i, db, refl, g)), inl e, inl refl),
  )

  pub start_time_lem :
      (s : Serving dbl.Double) (value : List ℕ) (key : Key) (d : Option ℕ)
      → IsServing dbl s
      → s.client.state ≡ c_header
      → s.client.database ≡ d
      → Answers s key (meta_start_time dbl s value d)
  unfolding meta_start_time
  start_time_lem s value key none h e p = refuse_lem s key h e
  start_time_lem s value key (some i) (h, inl z) e p = absurd (ground (arith, z, p))
  start_time_lem s value key (some i) (h, inr (j, db, at, g)) e p =
      let same_place : j ≡ i = ground (arith, at, p) in
      let g' : get_elem? s.databases i ≡ some db =
        subst (λ k. get_elem? s.databases k ≡ some db) same_place g in
      let (dbs', q, new) = set_elem_lem s.databases i db (seeded (atoi value) db) g' in
      (
        processed,
        record {
          databases = dbs';
          client = record s.client {
            time_offset = sub_ℤ (atoi value) (seeded (atoi value) db).start_time;
          };
        },
        rw (g', q) refl,
        ((h, inr (i, seeded (atoi value) db, p, new)), inl e, inl refl),
      )

  pub sender_id_lem :
      (add : List ℕ → ℤ) (s : Serving dbl.Double) (value : List ℕ) (key : Key) (d : Option ℕ)
      → IsServing dbl s
      → s.client.state ≡ c_header
      → Answers s key (meta_sender_id dbl add s value d)
  unfolding meta_sender_id
  sender_id_lem add s value key none h e = refuse_lem s key h e
  sender_id_lem add s value key (some i) h e = (
    processed,
    record s { client = record s.client { sender_id = add value; sender_name = some value } },
    refl,
    (h, inl e, inl refl),
  )

  pub app_name_lem :
      (s : Serving dbl.Double) (value : List ℕ) (key : Key)
      → IsServing dbl s
      → s.client.state ≡ c_header
      → Answers s key (meta_app_name dbl s value)
  unfolding meta_app_name
  app_name_lem s value key h e = (
    processed,
    record s { client = record s.client { app_name = some value } },
    refl,
    (h, inl e, inl refl),
  )

  pub content_lem :
      (s : Serving dbl.Double) (value : List ℕ) (key : Key)
      → IsServing dbl s
      → s.client.state ≡ c_header
      → Answers s key (meta_content dbl s value)
  unfolding meta_content
  content_lem s value key h e = elim (Bool-cases (same value (codes "binary"))) [
    | inl b ↦ (
      processed,
      record s { client = record s.client { content = c_binary_data } },
      rw b refl,
      (h, inl e, inl refl),
    )
    | inr b ↦ elim (Bool-cases (same value (codes "text"))) [
      | inl t ↦ (
        processed,
        record s { client = record s.client { content = c_text_data } },
        rw (b, t) refl,
        (h, inl e, inl refl),
      )
      | inr t ↦ let (r, after, p, a) = refuse_lem s key h e in (r, after, rw (b, t) p, a)
    ]
  ]
