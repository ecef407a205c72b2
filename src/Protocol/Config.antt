-- ===== src/Protocol/Config.antt =====
-- ProtocolConstants.h: roles, modes, sizes, tags and the node's configuration.
use post_quantum_uav_uav.Prelude.{ℕ, Bool, List}

pub data PathDeliveryMode : Type 0 where
  repository_assisted signer_carried : PathDeliveryMode

pub data Role : Type 0 where
  initiator responder : Role

abbrev pub suite_id_for_mode : PathDeliveryMode → ℕ
suite_id_for_mode signer_carried = 0x00010002
suite_id_for_mode repository_assisted = 0x00010001

abbrev pub m2_bytes_for_mode : PathDeliveryMode → ℕ
m2_bytes_for_mode signer_carried = 3342
m2_bytes_for_mode repository_assisted = 3022

abbrev pub m3_inner_bytes_for_mode : PathDeliveryMode → ℕ
m3_inner_bytes_for_mode signer_carried = 3310
m3_inner_bytes_for_mode repository_assisted = 2990

abbrev pub m3_bytes_for_mode : PathDeliveryMode → ℕ
m3_bytes_for_mode signer_carried = 3378
m3_bytes_for_mode repository_assisted = 3058

-- The fields of `NodeConfig` but for the Wi-Fi strings and the name of the store. An address is a
-- number.
pub record NodeConfig : Type 0 where
  pub role : Role
  pub path_mode : PathDeliveryMode
  pub gcs_ip : ℕ
  pub responder_ip : ℕ
  pub protocol_port : ℕ
  pub gcs_port : ℕ
  pub gcs_local_port : ℕ
  pub device_id : List ℕ
  pub peer_id : List ℕ
  pub hardcoded_puf_root : List ℕ
  pub hardcoded_helper_data : List ℕ
  pub lms_identifier : List ℕ
  pub credential_version : ℕ
  pub peer_credential_version : ℕ
  pub credential_expiry_unix : ℕ
  pub first_q : ℕ
  pub number_of_sessions : ℕ
  pub reset_q_counter : Bool
