-- ===== src/Policy.antt =====
-- policy/: what a site allows, and the components that find it out.
pub mod Types
pub mod Errors
pub mod Verdict
pub mod Cache
pub mod Guard
pub mod Inspector
pub mod Parsers
