-- ===== src/Urls.antt =====
-- `urllib.parse.urlsplit` as a parameter, and `normalize_authority` of signer.py over it.
use wbauth.Prelude.{
  ℕ, Bool, false, Option, none, some, [], ◌++◌, ◌==◌, if◌then◌else◌, is_empty, any,
}
use wbauth.Text.{Text, str, text_eq, lower, decimal}

-- `parts.port` raises `ValueError` where the text behind the colon is no port.
pub data Port : Type 0 where
  no_port bad_port : Port
  port : ℕ → Port

pub record Split : Type 0 where
  pub scheme : Text
  pub hostname : Option Text
  pub port_of : Port
  pub path : Text

-- `none`: the function raises `ValueError`.
abbrev pub UrlSplit : Type 0
UrlSplit = Text → Option Split

-- a host name that is absent or empty is false
abbrev pub host_name : Split → Text
host_name parts = elim parts.hostname [ none ↦ [] | some h ↦ h ]

abbrev pub bracketed : Text → Text
bracketed host = if any (λ c. c == b':') host then str "[" ++ host ++ str "]" else host

-- `_DEFAULT_PORTS.get(scheme)`
unfoldable pub is_default_port : Text → ℕ → Bool
is_default_port scheme p =
    if text_eq scheme (str "https")
    then p == 443
    else if text_eq scheme (str "http")
    then p == 80
    else false

abbrev with_port : Text → Text → Port → Option Text
with_port scheme host no_port = some host
with_port scheme host bad_port = none
with_port scheme host (port p) =
    if is_default_port scheme p then some host else some (host ++ str ":" ++ decimal p)

abbrev authority_of : Split → Option Text
authority_of parts =
    if is_empty (host_name parts)
    then none
    else with_port (lower parts.scheme) (bracketed (host_name parts)) parts.port_of

-- `normalize_authority`; `none` is a `ValueError`
unfoldable pub normalize_authority : UrlSplit → Text → Option Text
normalize_authority urlsplit url = elim (urlsplit url) [
  | none ↦ none
  | some parts ↦ authority_of parts
]
