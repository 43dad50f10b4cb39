-- ===== src/Policy/Cache.antt =====
-- `PolicyCache` of policy/cache.py: entries with a time to live, and the store of entries that
-- have validators. Times are milliseconds; `mono` is `time.monotonic()`, `wall` is `time.time()`.
pub mod Host
pub mod Control
pub mod Store
pub mod Entries
pub mod Laws
pub mod Spellings
pub mod Lifetimes
pub mod Saved
unfoldable pub use Entries.*
