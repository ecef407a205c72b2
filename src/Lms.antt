-- ===== src/Lms.antt =====
-- ESP32_Proposed_Protocol_Complete_v4/Arduino/libraries/ProposedUavProtocol/library/src/LmotsLms.cpp:
-- LM-OTS one-time signatures (n = 32, w = 4) under a Merkle tree of height 10.
pub mod Ots
pub mod Tree
pub mod Chain
pub mod Checksum
pub mod Merkle
pub mod SignVerify
pub mod Total
pub mod Sizes
