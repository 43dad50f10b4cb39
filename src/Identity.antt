-- ===== src/Identity.antt =====
-- identity.py: the agent's key pairs, their files, and the rotation of keys.
pub mod Keys
pub mod Files
pub mod Kept
pub mod Agent
pub mod Rotation
pub mod Race
