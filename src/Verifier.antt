-- ===== src/Verifier.antt =====
-- The parts of verifier.py.
pub mod Nonces
pub mod Parse
pub mod Checks
pub mod Verify
pub mod Keys
pub mod Directory
pub mod Middleware
