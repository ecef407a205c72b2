-- ===== src/Protocol.antt =====
-- ESP32_Proposed_Protocol_Complete_v4/Arduino/libraries/ProposedUavProtocol/library/src/
-- ProposedUavProtocol.cpp and the sizes, modes and tags of ProtocolConstants.h: the counter of one-time
-- keys, the messages and what is signed and hashed, and the two roles' sessions.
pub mod Config
pub mod Counter
pub mod Reserve
pub mod Hello
pub mod Greet
pub mod Accept
pub mod Signed
pub mod Domains
pub mod Bind
pub mod Transcript
pub mod Encoding
pub mod Agreement
pub mod Keys
pub mod Peer
pub mod Session
pub mod Respond
pub mod Read
pub mod Trust
pub mod Offer
pub mod Honest
pub mod Answer
pub mod Answered
pub mod Confirm
pub mod KeyAgreement
pub mod Live
pub mod Complete
pub mod Agree
pub mod Begin
pub mod SetUp
pub mod Ready
pub mod Start
pub mod Started
pub mod Messages
