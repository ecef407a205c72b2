-- ===== src/Protocol/Trust.antt =====
-- ProposedUavProtocol.cpp: a node accepts what its peer signs.
use post_quantum_uav_uav.Prelude.{
  ℕ, ◌<◌, ◌≡◌, refl, ap, ◌∙◌, subst, Bool, true, Option, some, List, [], length, arith, take-all,
  >>=-eq-some, Sized,
}
use post_quantum_uav_uav.Crypto.{IsDocumented}
use post_quantum_uav_uav.Lms.Tree.{Lms, initialize, build_tree, root, sign, extract_path}
use post_quantum_uav_uav.Lms.SignVerify.{verify-sign}
use post_quantum_uav_uav.Lms.Sizes.{length-sign, sign-lt, length-extract_path, extract_path_total}
use post_quantum_uav_uav.Protocol.Config.{PathDeliveryMode, signer_carried, repository_assisted}
use post_quantum_uav_uav.Protocol.Peer.{obtain_peer_path, timed_runtime_seed}
use post_quantum_uav_uav.Protocol.Session.{
  Services, Node, sign_input, check_signature, own_path, path_field,
}
use post_quantum_uav_uav.Protocol.Read.{sent_path}

-- The node set up its tree from the seed that its PUF gives again at run time.
pub record IsProvisioned (s : Services) (node : Node) : Type 0 where
  pub allocated : Bool
  pub old : Lms
  pub start : Lms
  pub identifier : List ℕ
  pub seed : List ℕ
  pub set_up : initialize allocated old (some identifier) (some seed) ≡ (true, start)
  pub finished : build_tree s.w start ≡ (true, node.lms)
  pub runtime : timed_runtime_seed s.w node.config s.puf ≡ some seed

-- `checker` holds the public record of `signer`, and its repository hands out the signer's paths.
pub record Knows (s : Services) (signer : Node) (provisioned : IsProvisioned s signer)
    (checker : Node) (fetch : ℕ → ℕ → Option (List ℕ)) : Type 0 where
  pub identifier : checker.peer_record.identifier ≡ provisioned.identifier
  pub root : root signer.lms ≡ some checker.peer_record.root
  pub mode : checker.config.path_mode ≡ signer.config.path_mode
  pub paths : (q : ℕ) → fetch signer.config.credential_version q ≡ extract_path signer.lms q

module _ (s : Services) (documented : IsDocumented s.w) (signer checker : Node)
    (provisioned : IsProvisioned s signer) (fetch : ℕ → ℕ → Option (List ℕ)) (puf : Option (List ℕ))
    (now : ℕ) (knows : Knows s signer provisioned checker fetch) (q : ℕ)
    (input random signature path : List ℕ) (hr : length random ≡ 32)
    (signed : sign_input s signer q input random ≡ some (signature, path)) where
  -- What the signer's calls gave.
  parts :
      (sign s.w signer.lms q (some input) (some provisioned.seed) random ≡ some signature)
      × (own_path signer q ≡ some path)
  unfolding sign_input
  parts =
      let (seed, hseed, e1) = >>=-eq-some (timed_runtime_seed s.w signer.config s.puf) _ signed in
      let same : provisioned.seed ≡ seed = cc (provisioned.runtime, hseed) in
      let (found, hs, e2) =
        >>=-eq-some (sign s.w signer.lms q (some input) (some seed) random) _ e1 in
      let (own, hp, e3) = >>=-eq-some (own_path signer q) _ e2 in
      let this : found ≡ signature = cc in
      let that : own ≡ path = cc in
      (
        ap (λ x. sign s.w signer.lms q (some input) (some x) random) same ∙ hs ∙ ap some this,
        hp ∙ ap some that,
      )

  -- The path that the checker obtains.
  obtained :
      (mode : PathDeliveryMode)
      → signer.config.path_mode ≡ mode
      → (p : List ℕ) × (extract_path signer.lms q ≡ some p)
        × (obtain_peer_path checker.config fetch signer.config.credential_version q
              (sent_path mode path)
            ≡ some p)
  unfolding obtain_peer_path
  obtained signer_carried hm =
      let own : extract_path signer.lms q ≡ some path =
        subst
          (λ m.
            (elim m [ signer_carried ↦ extract_path signer.lms q | repository_assisted ↦ some [] ])
            ≡ some path)
          hm parts.1 in
      (
        path,
        own,
        rw (knows.mode ∙ hm) (
            ap some (
              take-all 320 path (
                omega (
                  arith,
                  length-extract_path s.w documented provisioned.allocated provisioned.old
                      provisioned.start signer.lms provisioned.identifier provisioned.seed q path
                      provisioned.set_up provisioned.finished own,
                )))),
      )
  obtained repository_assisted hm =
      let (p, own) =
        extract_path_total s.w provisioned.allocated provisioned.old provisioned.start signer.lms
          provisioned.identifier provisioned.seed q provisioned.set_up provisioned.finished
          (sign-lt s.w signer.lms q input provisioned.seed random signature parts.0) in
      (p, own, rw (knows.mode ∙ hm) (knows.paths q ∙ own))

  -- The checker, with its own repository, PUF and clock.
  abbrev pub other : Services
  other = record s { fetch_peer_path = fetch; puf = puf; now = now }

  pub check_signature-sign_input :
      check_signature other checker signer.config.credential_version q
        (sent_path signer.config.path_mode path)
        input
        signature
      ≡ some tt
  unfolding check_signature
  check_signature-sign_input =
      let (p, own, got) = obtained signer.config.path_mode refl in
      rw
        (
          got,
          knows.identifier,
          verify-sign s.w documented provisioned.allocated provisioned.old provisioned.start
              signer.lms provisioned.identifier provisioned.seed q input random signature p
              checker.peer_record.root provisioned.set_up provisioned.finished hr parts.0 own
              knows.root,
        )
        refl

  -- What a signature looks like.
  pub sign_input-sizes :
      (length signature ≡ 2180) × (q < 1024) × Sized (path_field signer.config.path_mode path)
  sign_input-sizes = (
    length-sign s.w documented signer.lms q input provisioned.seed random signature hr parts.0,
    sign-lt s.w signer.lms q input provisioned.seed random signature parts.0,
    sized signer.config.path_mode refl,
  )
    where
      sized :
          (mode : PathDeliveryMode) → signer.config.path_mode ≡ mode → Sized (path_field mode path)
      sized signer_carried hm =
          let own : extract_path signer.lms q ≡ some path =
            subst
              (λ m.
                (elim m [
                  | signer_carried ↦ extract_path signer.lms q
                  | repository_assisted ↦ some []
                ])
                ≡ some path)
              hm parts.1 in
          (
            length-extract_path s.w documented provisioned.allocated provisioned.old
                provisioned.start signer.lms provisioned.identifier provisioned.seed q path
                provisioned.set_up provisioned.finished own,
            tt,
          )
      sized repository_assisted hm = tt
