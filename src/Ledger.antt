-- ===== src/Ledger.antt =====
-- ESP32_Proposed_Protocol_Complete_v4/Arduino/libraries/ProposedUavProtocol/library/src/
-- GcsLedgerClient.cpp, the client of the ledger that holds the nodes' roots and paths, and the part of
-- ESP32_Proposed_Protocol_Complete_v4/laptop_server/gcs_ledger_server.py that answers it.
pub mod Wire
pub mod Client
pub mod Enroll
pub mod Enrolment
pub mod Fetch
pub mod Heard
pub mod Loop
pub mod Authentic
pub mod Origin
pub mod RootOrigin
pub mod Deliver
pub mod Through
pub mod Server
pub mod Layout
pub mod Served
pub mod Exchange
pub mod Tables
pub mod Enrolled
pub mod Acknowledged
pub mod OwnPaths
pub mod Kept
pub mod RootReply
pub mod RootAck
