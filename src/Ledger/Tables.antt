-- ===== src/Ledger/Tables.antt =====
-- gcs_ledger_server.py: what packets do to the tables. The ledger keeps a path until another is enrolled
-- in its place, and holds no path that was not enrolled.
use post_quantum_uav_uav.Prelude.{
  ℕ, ◌≡◌, refl, sym, ap, ◌∙◌, ◌⊎◌, inl, inr, not, ◌||◌, ◌&&◌, some, none, Option, List, [], ◌∷◌,
  length, take, ltb, leb, ◌^◌, some-injective, true, false, Bool-cases, ◌==◌, ==_iff, if-cases,
  &&_iff, All, same_bytes, same_bytes→eq, ◌>>=◌,
}
use post_quantum_uav_uav.Codec.{byte_at}
use post_quantum_uav_uav.Ledger.Wire.{
  magic, op_enroll_root, op_enroll_path, op_get_root, op_get_path, op_ack,
}
use post_quantum_uav_uav.Ledger.Enrolment.{IsEnrolment, parse_path_record-IsEnrolment}
use post_quantum_uav_uav.Ledger.Served.{handle_packet_ended}
use post_quantum_uav_uav.Ledger.Server.{
  Tables, RootRow, empty_tables, upsert_root, upsert_path, is_same_path, is_same_row,
  parse_root_record, parse_path_record, parse_get_root, parse_get_path, build_ack, root_reply,
  path_reply, answer, root_answer, handle_packet,
}

-- The tables after a sequence of packets.
unfoldable pub serve : (List ℕ → List ℕ) → Tables → List (List ℕ) → Tables
serve tag tables [] = tables
serve tag tables (packet ∷ packets) = serve tag (handle_packet tag tables packet).1 packets

-- A service that runs at the end, or that answers, has run before.
pub handle_packet-running :
    (tag : List ℕ → List ℕ) (tables : Tables) (packet : List ℕ)
    → ((handle_packet tag tables packet).1.running ≡ true)
      ⊎ ((reply : List ℕ) × ((handle_packet tag tables packet).0 ≡ some reply))
    → tables.running ≡ true
handle_packet-running tag tables packet h = elim (Bool-cases tables.running) [
  | inl on ↦ on
  | inr off ↦ elim h [
    | inl runs ↦ absurd (
        cc (
          runs,
          ap (λ (r : Option (List ℕ) × Tables). r.1.running)
              (handle_packet_ended tag tables packet off),
          off,
        ))
    | inr (reply, answered) ↦ absurd (
        cc (
          answered,
          ap (λ (r : Option (List ℕ) × Tables). r.0) (handle_packet_ended tag tables packet off),
        ))
  ]
]

pub serve-running :
    (tag : List ℕ → List ℕ) (packets : List (List ℕ)) (tables : Tables)
    → (serve tag tables packets).running ≡ true
    → tables.running ≡ true
unfolding serve
serve-running tag [] tables h = h
serve-running tag (packet ∷ packets) tables h =
    handle_packet-running tag tables packet
      (inl (serve-running tag packets (handle_packet tag tables packet).1 h))

module _ (tag : List ℕ → List ℕ) where
  -- A packet leaves the tables, ends the service, or enrols a root or a path.
  pub handle_packet-cases :
      (P : Tables → Type 0) (tables : Tables) (packet : List ℕ)
      → P tables
      → P (record tables { running = false })
      → ((r : List ℕ × ℕ × RootRow) (next : Tables)
          → parse_root_record tag packet ≡ some r
          → upsert_root tables r.0 r.1 r.2 ≡ some next
          → P next)
      → ((r : List ℕ × ℕ × ℕ × List ℕ)
          → parse_path_record tag packet ≡ some r
          → P (upsert_path tables r.0 r.1 r.2 r.3))
      → P (handle_packet tag tables packet).1
  unfolding handle_packet
  handle_packet-cases P tables packet same ended roots paths =
      let op = byte_at packet 4 in
      let Q = λ (o : Option (Option (List ℕ) × Tables)). P (answer tag tables o).1 in
      if-cases (λ (r : Option (List ℕ) × Tables). P r.1) (not tables.running) _ _ (λ off. same)
        (λ on.
          if-cases (λ (r : Option (List ℕ) × Tables). P r.1)
            (ltb (length packet) 5 || not (same_bytes (take 4 packet) magic)) _ _ (λ skip. same)
            (λ go.
              if-cases Q (op == op_enroll_root) _ _
                (λ e1. root_case (parse_root_record tag packet) roots)
                (λ n1.
                  if-cases Q (op == op_enroll_path) _ _
                    (λ e2. path_case (parse_path_record tag packet) paths)
                    (λ n2.
                      if-cases Q (op == op_get_root) _ _
                        (λ e3. get_root_case (parse_get_root tag packet))
                        (λ n3.
                          if-cases Q (op == op_get_path) _ _
                            (λ e4. get_path_case (parse_get_path tag packet)) (λ n4. same))))))
    where
      upsert_case :
          (ack : List ℕ) (o : Option Tables)
          → ((next : Tables) → o ≡ some next → P next)
          → P (root_answer tag ack tables o).1
      upsert_case ack none h = ended
      upsert_case ack (some next) h = h next refl

      root_case :
          (o : Option (List ℕ × ℕ × RootRow))
          → ((r : List ℕ × ℕ × RootRow) (next : Tables)
              → o ≡ some r
              → upsert_root tables r.0 r.1 r.2 ≡ some next
              → P next)
          → P
              (answer tag tables (
                o >>= λ r. some (
                  root_answer tag
                    (build_ack tag op_ack r.0 r.1 0 0)
                    tables
                    (upsert_root tables r.0 r.1 r.2)))).1
      root_case none h = same
      root_case (some r) h =
          upsert_case (build_ack tag op_ack r.0 r.1 0 0) (upsert_root tables r.0 r.1 r.2)
            (λ next. h r next refl)

      path_case :
          (o : Option (List ℕ × ℕ × ℕ × List ℕ))
          → ((r : List ℕ × ℕ × ℕ × List ℕ) → o ≡ some r → P (upsert_path tables r.0 r.1 r.2 r.3))
          → P
              (answer tag tables (
                o >>= λ r.
                some (
                  some (build_ack tag op_ack r.0 r.1 r.2 0),
                  upsert_path tables r.0 r.1 r.2 r.3,
                ))).1
      path_case none h = same
      path_case (some r) h = h r refl

      get_root_case :
          (o : Option (List ℕ × ℕ))
          → P
              (answer tag tables (
                o >>= λ r.
                some (some (root_reply tag r.0 r.1 (tables.get_root r.0 r.1)), tables))).1
      get_root_case none = same
      get_root_case (some r) = same

      get_path_case :
          (o : Option (List ℕ × ℕ × ℕ))
          → P
              (answer tag tables (
                o >>= λ r.
                some (some (path_reply tag r.0 r.1 r.2 (tables.get_path r.0 r.1 r.2)), tables))).1
      get_path_case none = same
      get_path_case (some r) = same

-- A root changes no path.
get_path-upsert_root :
    (tables : Tables) (device_id : List ℕ) (version : ℕ) (row : RootRow) (next : Tables)
    → upsert_root tables device_id version row ≡ some next
    → next.get_path ≡ tables.get_path
unfolding upsert_root
get_path-upsert_root tables device_id version row next =
    let P = λ (o : Option Tables). o ≡ some next → next.get_path ≡ tables.get_path in
    if-cases P (is_same_row row (tables.get_root device_id version)) _ _ (λ h e. kept e)
      (λ h.
        if-cases P (leb (2 ^ 63) row.expiry_unix) _ _ (λ big e. absurd (cc (e)))
          (λ small e. kept e))
  where
    kept : {t : Tables} → some t ≡ some next → next.get_path ≡ t.get_path
    kept e = ap (λ (t : Tables). t.get_path) (sym (some-injective e))

-- What stands at a key after a path is stored: that path at its own key, the old one elsewhere.
pub upsert_path-cases :
    (tables : Tables) (device_id : List ℕ) (version q : ℕ) (path device : List ℕ) (v i : ℕ)
    → let new = (upsert_path tables device_id version q path).get_path device v i in
      (new ≡ tables.get_path device v i)
      ⊎ ((device ≡ device_id) × (v ≡ version) × (i ≡ q) × (new ≡ some path))
unfolding upsert_path
upsert_path-cases tables device_id version q path device v i =
    if-cases
      (λ (t : Tables).
        (t.get_path device v i ≡ tables.get_path device v i)
        ⊎ ((device ≡ device_id) × (v ≡ version) × (i ≡ q) × (t.get_path device v i ≡ some path)))
      (is_same_path path (tables.get_path device_id version q)) _ _ (λ same. inl refl)
      (λ other.
        if-cases
          (λ (o : Option (List ℕ)).
            (o ≡ tables.get_path device v i)
            ⊎ ((device ≡ device_id) × (v ≡ version) × (i ≡ q) × (o ≡ some path)))
          (same_bytes device device_id && (v == version) && (i == q)) _ _
          (λ hit.
            let (two, at_q) =
              (&&_iff (same_bytes device device_id && (v == version)) (i == q)).0 hit in
            let (owner, at_version) = (&&_iff (same_bytes device device_id) (v == version)).0 two in
            inr (
              same_bytes→eq device device_id owner,
              (==_iff v version).0 at_version,
              (==_iff i q).0 at_q,
              refl,
            ))
          (λ miss. inl refl))

module _ (tag : List ℕ → List ℕ) (device : List ℕ) (v i : ℕ) (path : List ℕ) where
  -- The packet enrols no other path at this key.
  abbrev pub Respects : List ℕ → Type 0
  Respects packet =
      (other : List ℕ) → parse_path_record tag packet ≡ some (device, v, i, other) → other ≡ path

  handle_packet-keeps :
      (tables : Tables) (packet : List ℕ)
      → tables.get_path device v i ≡ some path
      → Respects packet
      → (handle_packet tag tables packet).1.get_path device v i ≡ some path
  handle_packet-keeps tables packet held respects =
      handle_packet-cases tag (λ t. t.get_path device v i ≡ some path) tables packet held held
        (λ r next e stored.
          (λ k. get_path-upsert_root tables r.0 r.1 r.2 next stored k device v i) ∙ held)
        (λ r e. elim (upsert_path-cases tables r.0 r.1 r.2 r.3 device v i) [
          | inl same ↦ same ∙ held
          | inr (owner, at_version, at_q, new) ↦
              new
              ∙ ap some
                  (respects r.3 (e ∙ (λ k. some (sym owner k, sym at_version k, sym at_q k, r.3))))
        ])

  -- A path that is held stays while no other is enrolled in its place.
  pub serve-keeps :
      (packets : List (List ℕ)) (tables : Tables)
      → tables.get_path device v i ≡ some path
      → All Respects packets
      → (serve tag tables packets).get_path device v i ≡ some path
  unfolding serve
  serve-keeps [] tables held respects = held
  serve-keeps (packet ∷ packets) tables held (here, respects) =
      serve-keeps packets (handle_packet tag tables packet).1
        (handle_packet-keeps tables packet held here) respects

  -- One of the packets is an enrolment of the path at this key.
  abbrev pub Enrolled : List (List ℕ) → Type 0
  Enrolled [] = ⊥
  Enrolled (packet ∷ packets) = IsEnrolment tag device v i path packet ⊎ Enrolled packets

  serve_came :
      (packets : List (List ℕ)) (tables : Tables)
      → (serve tag tables packets).get_path device v i ≡ some path
      → (tables.get_path device v i ≡ some path) ⊎ Enrolled packets
  unfolding serve
  serve_came [] tables h = inl h
  serve_came (packet ∷ packets) tables h =
      elim (serve_came packets (handle_packet tag tables packet).1 h) [
        | inr later ↦ inr (inr later)
        | inl held ↦
            handle_packet-cases tag
              (λ t.
                t.get_path device v i ≡ some path
                → (tables.get_path device v i ≡ some path) ⊎ Enrolled (packet ∷ packets))
              tables packet (λ same. inl same) (λ same. inl same)
              (λ r next e stored same. inl (
                sym (λ k. get_path-upsert_root tables r.0 r.1 r.2 next stored k device v i) ∙ same))
              (λ r e same. elim (upsert_path-cases tables r.0 r.1 r.2 r.3 device v i) [
                | inl old ↦ inl (sym old ∙ same)
                | inr (owner, at_version, at_q, new) ↦
                    (let found : r.3 ≡ path = cc (new, same) in
                      inr (
                        inl (
                          parse_path_record-IsEnrolment tag device v i path packet (
                            e ∙ (λ k. some (sym owner k, sym at_version k, sym at_q k, found k))))))
              ])
              held
      ]

  -- A ledger that started empty holds a path only where one of its packets has 400 bytes, the magic
  -- and the operation of an enrolment, names that node, version and index (below 1024) and that
  -- path, and ends in the tag of all the bytes before.
  pub serve-Enrolled :
      (packets : List (List ℕ))
      → (serve tag empty_tables packets).get_path device v i ≡ some path
      → Enrolled packets
  serve-Enrolled packets h = elim (serve_came packets empty_tables h) [
    | inl empty ↦ absurd (cc (empty))
    | inr found ↦ found
  ]
