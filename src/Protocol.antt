-- ===== src/Protocol.antt =====
-- What signer.py writes, verifier.py reads: the two ends of the protocol together.
pub mod Pieces
pub mod Values
pub mod Params
pub mod Members
pub mod Signatures
pub mod Headers
pub mod Lowered
pub mod Written
pub mod Chosen
pub mod Base
pub mod Accepted
pub mod Sent
pub mod RoundTrip
