-- ===== src/Tests.antt =====
-- Runs of the model at concrete inputs, and the theorems at inputs that meet their hypotheses.
mod Fetching
mod Verdicts
mod Pacing
mod Caching
mod Signing
mod Nonces
mod Parsing
mod Verifying
mod Adapting
mod Rotating
mod Serving
mod Memory
mod Inspecting
mod Sending
mod Saving
mod Exchanging
mod Reading
mod Publishing
mod Exiting
