-- ===== src/Policy/Inspector/Private.antt =====
-- `_ip_is_private`, `_is_private_host` and `_resolves_private` of policy/inspector.py. The modules
-- `ipaddress` and `socket` and the resolver are a parameter.
use wbauth.Prelude.{
  ℕ, Bool, false, not, ◌&&◌, ◌||◌, Option, none, some, List, ◌∷◌, ◌==◌, leb, if◌then◌else◌, any,
  all, is_empty, length,
}
use wbauth.Text.{Text, str, text_eq, ends_with, lower, rstrip_of, split_on, is_digit}
use wbauth.Prelude.{drop_while}

-- `ip_address` and `inet_aton` answer `none` where they raise; `tests` are the six properties
-- `is_private` to `is_unspecified`. `getaddrinfo` may answer otherwise each time it is asked.
pub record Addresses : Type 1 where
  pub Ip : Type 0
  pub ip_address : Text → Option Ip
  pub inet_aton : Text → Option Ip
  pub ipv4_mapped : Ip → Option Ip
  pub tests : List (Ip → Bool)
  pub getaddrinfo : ℕ → Text → Option (List Text)

-- `host.strip("[]")`
abbrev is_bracket : ℕ → Bool
is_bracket c = c == b'[' || c == b']'

unfoldable pub unbracketed : Text → Text
unfolding rstrip_of
unbracketed host = rstrip_of is_bracket (drop_while is_bracket host)

-- `(0x[0-9a-f]+|[0-9]+)`, whole
abbrev is_hex : ℕ → Bool
is_hex c = is_digit c || (leb b'a' c && leb c b'f')

abbrev hex_part : Text → Bool
hex_part (zero_digit ∷ (x ∷ (d ∷ s))) = zero_digit == b'0' && x == b'x' && all is_hex (d ∷ s)
hex_part s = false

abbrev number_part : Text → Bool
number_part part = hex_part part || (not (is_empty part) && all is_digit part)

-- `_LEGACY_V4_RE.match(h)`: one to four such parts
unfoldable pub legacy_v4 : Text → Bool
unfolding split_on
legacy_v4 h = let parts = split_on b'.' h in leb (length parts) 4 && all number_part parts

module _ (A : Addresses) where
  open A use {Ip, ip_address, inet_aton, ipv4_mapped, tests, getaddrinfo}

  abbrev unmapped : Ip → Ip
  unmapped ip = elim (ipv4_mapped ip) [ none ↦ ip | some v4 ↦ v4 ]

  unfoldable pub ip_is_private : Ip → Bool
  ip_is_private ip = let v4 = unmapped ip in any (λ test. test v4) tests

  unfoldable pub parsed_ip : Text → Option Ip
  unfolding legacy_v4
  parsed_ip h = elim (ip_address h) [
    | some ip ↦ some ip
    | none ↦ if legacy_v4 h then inet_aton h else none
  ]

  abbrev local_name : Text → Bool
  local_name h =
      text_eq h (str "localhost")
      || ends_with h (str ".localhost")
      || ends_with h (str ".local")
      || ends_with h (str ".internal")

  abbrev private_ip : Option Ip → Bool
  private_ip none = false
  private_ip (some ip) = ip_is_private ip

  unfoldable pub is_private_host : Text → Bool
  unfolding unbracketed lower rstrip_of text_eq ends_with parsed_ip ip_is_private
  is_private_host host =
      let h = rstrip_of (λ c. c == b'.') (lower (unbracketed host)) in
      local_name h || private_ip (parsed_ip h)

  abbrev any_private : Option (List Text) → Bool
  any_private none = false
  any_private (some answers) = any (λ a. private_ip (ip_address a)) answers

  -- `_resolves_private`, asked at a moment
  unfoldable pub resolves_private : ℕ → Text → Bool
  unfolding is_private_host
  resolves_private moment host =
      is_private_host host || any_private (getaddrinfo moment (unbracketed host))
