-- ===== src/Ledger/Enrolment.antt =====
-- gcs_ledger_server.py: the packets that `parse_path_record` takes.
use post_quantum_uav_uav.Prelude.{
  ℕ, ◌-◌, ◌<◌, ◌≡◌, sym, ◌∙◌, ap, subst, true, false, if◌then◌else◌, ◌==◌, some, List, length, take,
  drop, slice, arith, ltb→lt, ltb-false, ==_iff, &&_iff, same_bytes, same_bytes→eq, guard-eq-some,
  some-injective,
}
use post_quantum_uav_uav.Codec.{get_u32, byte_at}
use post_quantum_uav_uav.Ledger.Wire.{magic}
use post_quantum_uav_uav.Ledger.Server.{verify_tag, parse_path_record}

module _ (tag : List ℕ → List ℕ) (device : List ℕ) (v i : ℕ) (path : List ℕ) where
  -- A packet of 400 bytes that names this key and this path under a tag with the ledger's key.
  pub record IsEnrolment (packet : List ℕ) : Type 0 where
    pub size : length packet ≡ 400
    pub named : take 4 packet ≡ magic
    pub kind : byte_at packet 4 ≡ 2
    pub sealed : drop 368 packet ≡ tag (take 368 packet)
    pub owner : slice 8 32 packet ≡ device
    pub at_version : get_u32 (drop 40 packet) ≡ v
    pub at_index : get_u32 (drop 44 packet) ≡ i
    pub index_fits : i < 1024
    pub at_path : slice 48 320 packet ≡ path

  verify_tag-sealed :
      (packet : List ℕ)
      → length packet ≡ 400
      → verify_tag tag packet ≡ true
      → drop 368 packet ≡ tag (take 368 packet)
  unfolding verify_tag
  verify_tag-sealed packet size genuine =
      let same = λ (n : ℕ). same_bytes (drop (n - 32) packet) (tag (take (n - 32) packet)) in
      let long = ltb-false (length packet) 32 (omega (arith, size)) in
      same_bytes→eq (drop 368 packet) (tag (take 368 packet)) (
        (λ k. same (sym size k))
        ∙ (λ k. if sym long k then false else same (length packet))
        ∙ genuine)

  pub parse_path_record-IsEnrolment :
      (packet : List ℕ)
      → parse_path_record tag packet ≡ some (device, v, i, path)
      → IsEnrolment packet
  unfolding parse_path_record
  parse_path_record-IsEnrolment packet e =
      let (formed, e1) = guard-eq-some _ _ e in
      let (genuine, e2) = guard-eq-some _ _ e1 in
      let (few, e3) = guard-eq-some _ _ e2 in
      let (headed, kind) = (&&_iff _ (byte_at packet 4 == 2)).0 formed in
      let (sized, named) =
        (&&_iff (length packet == 400) (same_bytes (take 4 packet) magic)).0 headed in
      let size = (==_iff (length packet) 400).0 sized in
      let read = some-injective e3 in
      let index = ap (λ (r : List ℕ × ℕ × ℕ × List ℕ). r.2) read in
      record {
        size = size;
        named = same_bytes→eq (take 4 packet) magic named;
        kind = (==_iff (byte_at packet 4) 2).0 kind;
        sealed = verify_tag-sealed packet size genuine;
        owner = ap (λ (r : List ℕ × ℕ × ℕ × List ℕ). r.0) read;
        at_version = ap (λ (r : List ℕ × ℕ × ℕ × List ℕ). r.1) read;
        at_index = index;
        index_fits = subst (λ n. n < 1024) index (ltb→lt _ 1024 few);
        at_path = ap (λ (r : List ℕ × ℕ × ℕ × List ℕ). r.3) read;
      }
