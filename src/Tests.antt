-- ===== src/Tests.antt =====
-- Runs of the definitions on small inputs, and the theorems at concrete inputs.
mod Toy
mod Lms
mod Bytes
mod Transport
mod Protocol
mod Ledger
mod Session
mod Enroll
mod Begin
