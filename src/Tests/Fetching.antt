-- ===== src/Tests/Fetching.antt =====
-- A robots.txt behind one redirect, with a validator, over a network of two hosts.
use wbauth.Prelude.{
  true, false, ◌≡◌, ◌⊎◌, refl, none, some, [], ◌∷◌, arith, All, length, if◌then◌else◌,
}
use wbauth.Text.{Text, str, text_eq, starts_with, ends_with, lower, rstrip_of, split_on}
use wbauth.Dict.{text_keys, get, put, remove, update}
use wbauth.Policy.Errors.{private_address_error}
use wbauth.Policy.Types.{robots}
use wbauth.Policy.Inspector.Private.{
  Addresses, is_private_host, resolves_private, unbracketed, parsed_ip, legacy_v4, ip_is_private,
}
use wbauth.Policy.Inspector.Fetch.{
  Network, Headers, streams, raised, fetch_one, fetch_hops, hop, redirected, redirect_target,
  finish, read_body, whole_lines, without_validators, http_scheme,
}
use wbauth.Policy.Inspector.Fetch.Vetting.{fetch_one-Public, fetch_one-Vetted, Public}
use wbauth.Policy.Inspector.Fetch.Validators.{fetch_one-home_validators, has_validator, IsFading}
use wbauth.Policy.Inspector.Fetch.Bodies.{fetch_one-Sound, read_body-Read, Sound, Read}

-- Addresses are texts; those that begin with "10." are private.
abbrev pub addresses : Addresses
addresses = record {
  Ip = Text;
  ip_address = λ t. if starts_with t (str "10.") then some t else none;
  inet_aton = λ t. none;
  ipv4_mapped = λ ip. none;
  tests = (λ ip. starts_with ip (str "10.")) ∷ [];
  getaddrinfo = λ moment host.
      if text_eq host (str "inner.example") then some (str "10.0.0.1" ∷ []) else none;
}

pub record Url : Type 0 where
  pub scheme : Text
  pub host : Text

abbrev pub first : Url
first = record { scheme = str "https"; host = str "a.example" }

abbrev pub second : Url
second = record { scheme = str "https"; host = str "b.example" }

abbrev inner_url : Url
inner_url = record { scheme = str "http"; host = str "inner.example" }

-- The first host redirects, to the second or to the private one; all others answer.
abbrev pub network : Url → Network
network target = record {
  Url = Url;
  scheme = λ u. u.scheme;
  host = λ u. u.host;
  join = λ u location. target;
  answer = λ left u headers.
      if text_eq u.host (str "a.example")
      then streams 302 ((str "location", str "/") ∷ []) [] none
      else streams 200 [] (str "User-agent: *" ∷ []) none;
}

abbrev validators : Headers
validators = (str "If-None-Match", str "\"1\"") ∷ []

redirect_is_followed :
    length (fetch_one addresses (network second) robots first (str "ua") validators false).1 ≡ 2
unfolding fetch_one fetch_hops hop redirected redirect_target finish read_body whole_lines
    without_validators text_eq starts_with ends_with lower rstrip_of split_on get put remove update
    resolves_private is_private_host unbracketed parsed_ip legacy_v4 ip_is_private
redirect_is_followed = refl

redirect_inside_is_refused :
    (fetch_one addresses (network inner_url) robots first (str "ua") validators true).0
    ≡ raised (private_address_error (str "inner.example"))
unfolding fetch_one fetch_hops hop redirected redirect_target finish read_body whole_lines
    without_validators text_eq starts_with ends_with lower rstrip_of split_on get put remove update
    resolves_private is_private_host unbracketed parsed_ip legacy_v4 ip_is_private
redirect_inside_is_refused = refl

fetch_one-Public_example :
    All
      (λ r. Public addresses (network second) r.url)
      (fetch_one addresses (network second) robots first (str "ua") validators false).1
fetch_one-Public_example =
    fetch_one-Public addresses (network second) robots first (str "ua") validators

fetch_one-Vetted_example :
    All
      (λ r.
        (r.url ≡ first)
        ⊎ ((http_scheme addresses (network second) r.url ≡ true)
            × Public addresses (network second) r.url))
      (fetch_one addresses (network second) robots first (str "ua") validators true).1
unfolding is_private_host unbracketed parsed_ip legacy_v4 ip_is_private text_eq starts_with
    ends_with lower rstrip_of split_on
fetch_one-Vetted_example =
    fetch_one-Vetted addresses (network second) robots first (str "ua") validators true refl

fetch_one-home_validators_example :
    All
      (λ r.
        has_validator addresses (network second) r.headers ≡ true → r.url.host ≡ str "a.example")
      (fetch_one addresses (network second) robots first (str "ua") validators true).1
    × IsFading addresses
        (network second)
        (fetch_one addresses (network second) robots first (str "ua") validators true).1
fetch_one-home_validators_example =
    fetch_one-home_validators addresses (network second) robots first (str "ua") validators true

fetch_one-Sound_example :
    Sound robots (fetch_one addresses (network second) robots first (str "ua") validators true).0
fetch_one-Sound_example =
    fetch_one-Sound addresses (network second) robots first (str "ua") validators true

read_body-Read_example : Read robots none (str "User-agent: *") (str "User-agent: *")
unfolding read_body
read_body-Read_example =
    read_body-Read robots none [] (str "User-agent: *") (str "User-" ∷ str "agent: *" ∷ [])
      (omega arith) refl
