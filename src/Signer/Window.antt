-- ===== src/Signer/Window.antt =====
-- The validity window that `sign` writes.
use wbauth.Prelude.{ℕ, ◌+◌, ◌≤◌, ◌<◌, ◌≡◌, true, arith}
use wbauth.Signer.{expiry_in_range, whole_seconds}

-- An accepted window, in the whole seconds that are written, is at most an hour, and it is not
-- empty if it was asked to last a second or more.
whole_seconds_window :
    (created after : ℕ)
    → expiry_in_range after ≡ true
    → (whole_seconds (created + after) ≤ whole_seconds created + 3600)
      × (1000000 ≤ after → whole_seconds created < whole_seconds (created + after))
unfolding expiry_in_range
whole_seconds_window created after h = ground arith
