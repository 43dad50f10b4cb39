-- ===== src/Policy/Cache/Control.antt =====
-- `_parse_cache_control` of policy/cache.py.
use wbauth.Prelude.{
  ℕ, Bool, true, false, ◌||◌, Option, none, some, [], ◌∷◌, ◌==◌, if◌then◌else◌, or_else, is_empty,
}
use wbauth.Text.{Text, str, contains, lower, is_space}
use wbauth.Matching.{◌>>=◌, word, spaces?, optional, digits}

-- `_MAX_AGE_RE` behind its first group
abbrev directive : Text → Option ℕ
directive s = do
  s ← or_else (word (str "s-maxage") s) (word (str "max-age") s)
  s ← word (str "=") (spaces? s)
  digits (optional 0x22 (spaces? s))

-- the directive behind a comma or a space
abbrev listed : Text → Option ℕ
listed [] = none
listed (c ∷ s) =
    let later = listed s in
    let here = or_else (directive s) later in if c == b',' || is_space c then here else later

-- `_MAX_AGE_RE.search(h)`, as a number of seconds
unfoldable pub max_age : Text → Option ℕ
max_age h = or_else (directive h) (listed h)

-- `(cacheable, max_age)`, for a header that is there and not empty
unfoldable pub parse_header : Text → Bool × Option ℕ
unfolding contains lower
parse_header header =
    let h = lower header in
    if contains h (str "no-store") || contains h (str "no-cache")
    then (false, none)
    else (true, max_age h)

unfoldable pub parse_cache_control : Option Text → Bool × Option ℕ
unfolding parse_header
parse_cache_control none = (true, none)
parse_cache_control (some header) = if is_empty header then (true, none) else parse_header header
