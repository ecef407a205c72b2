-- ===== src/Transport.antt =====
-- ESP32_Proposed_Protocol_Complete_v4/Arduino/libraries/ProposedUavProtocol/library/src/
-- FragmentedUdp.cpp: messages in fragments over UDP.
pub mod Fragment
pub mod Send
pub mod Receive
pub mod Parse
pub mod Sent
pub mod Assemble
pub mod Progress
pub mod Deliver
pub mod Bounds
pub mod Hollow
