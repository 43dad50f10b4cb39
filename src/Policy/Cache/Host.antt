-- ===== src/Policy/Cache/Host.antt =====
-- `normalize_host` of policy/cache.py: the host part of a cache key.
use wbauth.Prelude.{◌-◌, ◌++◌, ◌==◌, if◌then◌else◌, length, take, drop}
use wbauth.Text.{Text, str, starts_with, ends_with, lower, strip, rstrip_of}

-- `h[: -len(suffix)]` behind `h.endswith(suffix)`
unfoldable pub without_suffix : Text → Text → Text
unfolding ends_with
without_suffix h suffix = if ends_with h suffix then take (length h - length suffix) h else h

-- `h.rstrip(".")`
abbrev pub without_dots : Text → Text
without_dots h = rstrip_of (λ c. c == b'.') h

unfoldable pub normalize_host : Text → Text
unfolding without_suffix starts_with lower strip rstrip_of
normalize_host host =
    let h = lower (strip host) in
    if starts_with h (str "http://")
    then str "http://" ++ without_dots (without_suffix (drop 7 h) (str ":80"))
    else without_dots (without_suffix h (str ":443"))
