-- ===== src/Ledger/Enrolled.antt =====
-- GcsLedgerClient.cpp and gcs_ledger_server.py: from one node's enrolment to another node's path.
use post_quantum_uav_uav.Prelude.{
  some-injective, true, inr, ℕ, ◌^◌, ◌<◌, ◌≡◌, refl, sym, ap, subst, ◌∙◌, some, Option, List, ◌∷◌,
  All, length, arith,
}
use post_quantum_uav_uav.Codec.{IsByte}
use post_quantum_uav_uav.Crypto.{WolfCrypt, IsDocumented}
use post_quantum_uav_uav.Ledger.Wire.{op_enroll_path, op_path_record, path_record_body}
use post_quantum_uav_uav.Ledger.Client.{Client, Attempt}
use post_quantum_uav_uav.Ledger.Enroll.{path_request}
use post_quantum_uav_uav.Ledger.Fetch.{fetch_peer_path, path_query, path_awaited}
use post_quantum_uav_uav.Ledger.Heard.{IsClient}
use post_quantum_uav_uav.Ledger.Through.{IsReached}
use post_quantum_uav_uav.Ledger.Server.{Tables, handle_packet, path_reply}
use post_quantum_uav_uav.Ledger.Layout.{Agrees, packet, with_tag-packet}
use post_quantum_uav_uav.Ledger.Served.{
  path_fields, path_query_fields, path_sized, handle_packet-enrolment, handle_packet-query,
  build_path_response-packet, get_path-upsert_path,
}
use post_quantum_uav_uav.Ledger.Exchange.{IsIdentity, query_sent, fetch_peer_path-reply}
use post_quantum_uav_uav.Ledger.Tables.{
  serve, serve-keeps, serve-running, handle_packet-running, Respects,
}

module _ (w : WolfCrypt) (documented : IsDocumented w) (tag : List ℕ → List ℕ)
    (agrees : Agrees w tag) (a : Client) (owner : IsIdentity a.device_id) (version q : ℕ)
    (version_fits : version < 2 ^ 32) (q_fits : q < 1024) (path : List ℕ)
    (path_size : length path ≡ 320) (path_bytes : All IsByte path) where
  abbrev pub enrolment : List ℕ
  enrolment = packet tag (path_fields op_enroll_path a.device_id version q path) 0

  pub request_sent : path_request w a version q path ≡ some enrolment
  unfolding path_request path_record_body
  request_sent =
      with_tag-packet (path_fields op_enroll_path a.device_id version q path) 0 400
        (path_sized tag agrees.digest op_enroll_path a.device_id path version q owner.size
          path_size)
        refl w tag agrees (omega arith)

  -- The ledger's answer to a query after the enrolment.
  pub handle_packet-enrolled :
      (device peer : List ℕ) (device_size : length device ≡ 32) (tables : Tables)
      (packets : List (List ℕ))
      → peer ≡ a.device_id
      → All (Respects tag a.device_id version q path) packets
      → (serve tag tables (enrolment ∷ packets)).running ≡ true
      → (handle_packet tag
          (serve tag tables (enrolment ∷ packets))
          (packet tag (path_query_fields device peer version q) 0)).0
        ≡ some (packet tag (path_fields op_path_record peer version q path) 0)
  unfolding serve
  handle_packet-enrolled device peer device_size tables packets same respects on =
      let peer_id : IsIdentity peer = subst IsIdentity (sym same) owner in
      let running = serve-running tag (enrolment ∷ packets) tables on in
      let stored : (handle_packet tag tables enrolment).1.get_path a.device_id version q
          ≡ some path =
        ap (λ (r : Option (List ℕ) × Tables). r.1.get_path a.device_id version q)
          (handle_packet-enrolment tag agrees.digest op_enroll_path a.device_id path version q
            owner.size path_size tables running refl version_fits q_fits)
        ∙ get_path-upsert_path tables a.device_id version q path in
      let later = serve tag (handle_packet tag tables enrolment).1 packets in
      let kept : later.get_path peer version q ≡ some path =
        ap (λ t. later.get_path t version q) same
        ∙ serve-keeps tag a.device_id version q path packets (handle_packet tag tables enrolment).1
            stored respects in
      ap (λ (r : Option (List ℕ) × Tables). r.0)
        (handle_packet-query tag agrees.digest device peer version q device_size peer_id.size later
          on version_fits q_fits)
      ∙ ap (λ o. some (path_reply tag peer version q o)) kept
      ∙ ap some
          (build_path_response-packet tag agrees.digest peer path version q peer_id.size path_size)

  -- A path that one node enrols is the path that another node fetches: `a` sends its request for
  -- `path`, the ledger handles it and then other packets, none of which enrols another path for
  -- that node, version and index, and answers the query of `b`, whose peer is `a`. If the answer
  -- reaches `b` in one of its four attempts, whatever noise comes before it, `fetchPeerPath` gives
  -- that path.
  pub fetch_peer_path-enrolled :
      (b : Client) (sound : IsClient b) (device : IsIdentity b.device_id)
      → b.peer_id ≡ a.device_id
      → (tables : Tables) (packets : List (List ℕ)) (request query reply : List ℕ)
        (attempts : ℕ → Attempt)
      → path_request w a version q path ≡ some request
      → All (Respects tag a.device_id version q path) packets
      → path_query w b version q ≡ some query
      → (handle_packet tag (serve tag tables (request ∷ packets)) query).0 ≡ some reply
      → IsReached w (path_awaited version q) b.gcs_ip b.gcs_port reply attempts
      → (fetch_peer_path w version q attempts b).0 ≡ some path
  fetch_peer_path-enrolled b sound device peer tables packets request query reply attempts sent
        respects asked answered reached =
      let peer_id : IsIdentity b.peer_id = subst IsIdentity (sym peer) owner in
      let sent_same = some-injective (sym sent ∙ request_sent) in
      let asked_same = some-injective (
        sym asked
        ∙ query_sent w documented tag agrees b sound device peer_id version q version_fits q_fits
            path path_size path_bytes) in
      let on =
        subst (λ p. (serve tag tables (p ∷ packets)).running ≡ true) sent_same
          (handle_packet-running tag (serve tag tables (request ∷ packets)) query
            (inr (reply, answered))) in
      let same = some-injective (
        sym answered
        ∙ (λ k. (handle_packet tag (serve tag tables (sent_same k ∷ packets)) (asked_same k)).0)
        ∙ handle_packet-enrolled b.device_id b.peer_id device.size tables packets peer respects
            on) in
      fetch_peer_path-reply w documented tag agrees b sound device peer_id version q version_fits
        q_fits path path_size path_bytes attempts
        (subst (λ r. IsReached w (path_awaited version q) b.gcs_ip b.gcs_port r attempts) same
          reached)
