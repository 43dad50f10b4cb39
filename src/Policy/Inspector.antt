-- ===== src/Policy/Inspector.antt =====
-- policy/inspector.py: fetching, vetting and caching the four policy files of an origin.
pub mod Private
pub mod Fetch
pub mod Build
pub mod Endpoints
pub mod Round
pub mod Run
