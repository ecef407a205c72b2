-- ===== src/Lib.antt =====
-- A key-agreement protocol between two unmanned aircraft, on ESP32 boards, and the theorems that
-- make its code correct. All paths below start at the repository's root; the code modelled is the
-- C++ of
--   ESP32_Proposed_Protocol_Complete_v4/Arduino/libraries/ProposedUavProtocol/library/src/
--
-- The program. Two nodes, an initiator and a responder, exchange M0 to M4 over UDP. Each signs with
-- the one-time keys of a Merkle tree (LM-OTS and LMS of RFC 8554, with a tree of 1024 leaves), the
-- initiator sends an ML-KEM key, the responder answers with a ciphertext, both hash the transcript
-- and derive a session key and two confirmation keys from it. A ledger on a ground station holds
-- the trees' roots and paths: the nodes enrol theirs and fetch each other's.
--
-- Files and code:
--   Prelude    helpers: native numbers, lists, byte buffers (`slice`, `write_at`, fields side by
--              side), bit operations, chains of partial results.
--   Codec      ProtocolConstants.h, putU16 to getU64 and constantTimeEqual (put_u16 to get_u64,
--              constant_time_equal). Integers: round trips. Compare: the comparison.
--   Crypto     CryptoHelpers.cpp: sha256, hmacSha256, hkdfSha256, deriveLmsSeed, helperDataDigest
--              and secureZero, under the same names in lower case. Sha: sizes of digests. Total:
--              calls that succeed. Hkdf: the specification rfc5869 and the proof against it.
--   Lms        LmotsLms.cpp. Ots: coefficientW4, derivePrivateElement, chainHash,
--              hashMessageWithChecksum, lmotsPublicHash, lmotsCandidatePublicHash and sign's loop.
--              Tree: class LmotsLms as the record Lms, and its methods. Chain, Merkle, SignVerify:
--              the way to the correctness of signatures. Checksum: what the checksum prevents.
--              Total: that building and signing end with a result.
--   Transport  FragmentedUdp.cpp. Fragment: the wire format and readOneDatagram. Send: sendMessage.
--              Receive: receiveMessage, its local variables as the record Assembly. Parse, Sent,
--              Assemble, Progress, Deliver: from sendMessage to receiveMessage. Bounds: any
--              traffic. Hollow: fragments without the bytes they announce.
--   Protocol   ProposedUavProtocol.cpp and the constants of ProtocolConstants.h. Config:
--              NodeConfig, modes and sizes. Counter: initializePersistentCounter and reserveQ;
--              Reserve: their theorems. Hello: buildM0, validateM0, buildM1, validateM1; Greet,
--              Accept: their theorems. Signed: buildM2SignedInput and buildM3SignedInput; Domains,
--              Bind: their theorems. Transcript: computeSid0, timedTranscriptHash,
--              deriveSessionKeys, computeConfirmationTag; Encoding, Agreement, Keys: their
--              theorems. Peer: validatePeerRecord, obtainPeerPath, timedRuntimeSeed and the ML-KEM
--              calls. Session: runInitiatorSession up to M2; Respond: runResponderOnce from M2 to
--              M3 and on M4, runInitiatorSession from M3 to M4. Read, Trust, Offer, Honest, Answer,
--              Answered, Confirm, KeyAgreement: a session between two honest nodes. Live, Complete,
--              Agree: that such a session goes through. Begin: the class as the record State,
--              prepareLmsAndLedger, begin and loop. Messages: sendProtocolMessage,
--              receiveProtocolMessage. SetUp, Ready: what a start that succeeded leaves. Start,
--              Started: that it succeeds.
--   Ledger     GcsLedgerClient.cpp, and ESP32_Proposed_Protocol_Complete_v4/laptop_server/
--              gcs_ledger_server.py. Wire: the packets and computeTag. Client: the class as the
--              record Client, and sendAndReceive. Enroll: enrollOwnRoot, enrollOwnPaths. Fetch:
--              fetchPeerRoot, fetchPeerPath. Server: the service, its two tables and main's
--              running as the record Tables, main's loop body as handle_packet. Enrolment: what
--              parse_path_record takes. Heard, Loop, Authentic, Origin,
--              RootOrigin: where what is read came from. Deliver, Through: a response that reaches
--              the client. Layout, Served: packets by their fields. Exchange, Enrolled: a path from
--              one node through the service to another. Tables: what the service holds.
--              Acknowledged, OwnPaths, RootAck: enrolments that succeed. RootReply: a root that is
--              fetched. Kept: what enrolments leave alone.
--   Tests      runs of the definitions, a toy wolfSSL, and each theorem at a concrete input.
--
-- How state and errors are modelled. A class is a record of its fields, a method a function from
-- the state to its result and the state it leaves. A method that returns false is `none` where it
-- has an output, and `false` with the state otherwise; the helpers of CryptoHelpers.cpp give a
-- Result with the error code. A byte array is a list of numbers, a pointer an Option of it.
-- Integers are natural numbers, reduced (`% 2 ^ w`) where the source's type wraps.
--
-- Loops. A loop over a count recurses on the rounds to go. hkdfSha256's loop, which ends when the
-- output is full, gets as many rounds as there are bytes to write: each round writes at least one.
-- The rounds of receiveMessage before its timeout are the list of what the socket brings, one
-- arrival for each; so are those of each attempt of sendAndReceive, which makes at most four, as
-- the source does.
--
-- Parameters. wolfSSL is the record WolfCrypt: init, update and final calls with their return
-- codes. What its documentation says is in IsDocumented (digests are 32 bytes), IsReliable (no call
-- reports an error), IsReliableHmac (the same for HMAC) and IsIncremental (updates take a string in
-- parts); ML-KEM is the record MlKem with IsMlKem. The service's HMAC is Python's, a function of
-- its own, which Agrees says is wolfSSL's. A theorem names those that it needs. Random bytes, the
-- clock, the PUF, the repository of paths, the answers of the UDP stack and of the flash store, and
-- the datagrams that come are arguments. A call of reserveQ has a FlashAnswer: whether flash can be
-- read, and whether the write is stored. SQLite's tables are functions from their keys; an integer
-- that SQLite cannot hold ends the service (upsert_root is `none`), which then answers nothing.
--
-- Not modelled: timers, time statistics and output to the serial port; Wi-Fi; the scratch buffers of
-- LmotsLms; the experiments' loop over sessions and the measurement message RESULT
-- (ProposedUavProtocol.cpp), the service's audit chain and database file, and the second protocol
-- under APQE_CDA_Complete_v4. PufFeProvider is declared, and its code is not in the repository.
pub mod Prelude
pub mod Codec
pub mod Crypto
pub mod Lms
pub mod Transport
pub mod Protocol
pub mod Ledger
pub mod Tests
