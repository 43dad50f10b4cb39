-- ===== src/Adapters.antt =====
-- adapters/_utils.py: which URLs are signed, and the headers around a signature.
pub mod Hosts
pub mod Sending
use wbauth.Prelude.{
  ℕ, Bool, true, false, not, ◌&&◌, ◌||◌, Option, none, some, List, [], ◌∷◌, ◌++◌, ◌==◌,
  if◌then◌else◌, any, drop, filter, find, is_empty,
}
use wbauth.Text.{Text, str, text_eq, starts_with, ends_with, lower, rstrip_of}
use wbauth.Dict.{Dict, text_keys, get, put, remove}
use wbauth.Urls.{UrlSplit, Split, host_name}
use wbauth.Signer.{Headers, is_resign_header}
use wbauth.Verifier.Verify.{digest_from}

-- `hostname.lower().rstrip(".")`
unfoldable pub plain_host : Text → Text
unfolding lower rstrip_of
plain_host h = rstrip_of (λ c. c == b'.') (lower h)

-- one pattern of `host_matches`, both sides lowered
unfoldable pub pattern_matches : (host : Text) → (a : Text) → Bool
unfolding starts_with ends_with text_eq
pattern_matches h a =
    if starts_with a (str "*.")
    then text_eq h (drop 2 a) || ends_with h (str "." ++ drop 2 a)
    else text_eq h a

-- `host_matches`
unfoldable pub host_matches : Text → List Text → Bool
unfolding plain_host pattern_matches
host_matches hostname allow =
    any (λ raw. pattern_matches (plain_host hostname) (plain_host raw)) allow

-- the arguments of `make_sign_decider`
pub record Decider : Type 0 where
  pub hosts : Option (List Text)
  pub should_sign : Option (Text → Bool)
  pub allow_insecure : Bool

abbrev pub listed : Decider → Text → Text → Bool
listed d url host = elim d.should_sign [
  | some f ↦ f url
  | none ↦ elim d.hosts [ some allow ↦ host_matches host allow | none ↦ true ]
]

abbrev pub decide_parts : Decider → Text → Split → Bool
decide_parts d url parts =
    let http = text_eq (lower parts.scheme) (str "http") in
    let https = text_eq (lower parts.scheme) (str "https") in
    if not (http || https) || is_empty (host_name parts)
    then false
    else if http && not d.allow_insecure
    then false
    else listed d url (host_name parts)

-- `decide`; `none`: `urlsplit` raises
unfoldable pub decide : UrlSplit → Decider → Text → Option Bool
unfolding host_matches
decide urlsplit d url = elim (urlsplit url) [
  | none ↦ none
  | some parts ↦ some (decide_parts d url parts)
]

-- `strip_signature_headers`
unfoldable pub strip_signature_headers : Headers → Headers
unfolding is_resign_header
strip_signature_headers headers = filter (λ h. not (is_resign_header h.0)) headers

abbrev pub content_digest : Headers → Option (Text × Text)
content_digest headers = find (λ h. text_eq (lower h.0) (str "content-digest")) headers

module _ (sha256_base64 : Text → Text) where
  abbrev pub digest_value : Text → Text
  digest_value body = str "sha-256=:" ++ sha256_base64 body ++ str ":"

  -- the header that is there: another algorithm or the right value stays
  abbrev pub renewed : Text → Headers → Text × Text → Headers
  renewed body headers (k, v) = elim (digest_from true v) [
    | none ↦ headers
    | some d ↦
        if text_eq d (sha256_base64 body)
        then headers
        else put (str "Content-Digest") (digest_value body) (remove k headers)
  ]

  -- `ensure_content_digest`
  unfoldable pub ensure_content_digest : Headers → Option Text → Headers
  unfolding put remove digest_from
  ensure_content_digest headers none = headers
  ensure_content_digest headers (some []) = headers
  ensure_content_digest headers (some (b ∷ body)) = elim (content_digest headers) [
    | none ↦ put (str "Content-Digest") (digest_value (b ∷ body)) headers
    | some h ↦ renewed (b ∷ body) headers h
  ]
