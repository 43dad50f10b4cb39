-- ===== src/Tests/Verifying.antt =====
-- A verifier with a resolver that gives the key id as the key, and a signature that is right where
-- it is the text YES=.
use wbauth.Prelude.{◌≡◌, ◌≢◌, true, false, refl, none, some, List, In, [], ◌∷◌, ◌++◌, arith}
use wbauth.Text.{Text, str, text_eq}
use wbauth.Dict.{text_keys}
use wbauth.Json.{Json, string, obj, end, member}
use wbauth.Urls.{normalize_authority, no_port}
use wbauth.Verifier.Nonces.{NonceStore, seen, make_room}
use wbauth.Verifier.Parse.{parse_signature, parse_signature_input, param_of, Candidate}
use wbauth.Verifier.Checks.{
  lower_headers, chosen, ◌>>=◌, window_fault, agent_of, accepted, refused, expired, replayed,
  Incoming, Services, Settings,
}
use wbauth.Verifier.Verify.{VerifiedAgent, verify}
use wbauth.Verifier.Verify.Authentic.{IsAuthentic, verify-IsAuthentic}
use wbauth.Verifier.Verify.Replayed.{verify_no_replay}
use wbauth.Verifier.Keys.{key_among, Source, resolve}
use wbauth.Verifier.Keys.Published.{IsNamed, resolve-IsNamed}

abbrev pub services : Services
services = record {
  urlsplit = λ u.
      some
        (record { scheme = str "https"; hostname = some (str "h"); port_of = no_port; path = [] });
  http_url = λ u. some (record { scheme = str "https"; whole = u; raw_path = []; query = [] });
  b64decode = λ s. some s;
  sha256 = λ s. s;
  find_key = λ kid agent. accepted kid;
  key_verifies = λ x sig base. text_eq sig (str "YES=");
}

abbrev pub settings : Settings
settings = record { skew = 5000000; require_nonce = true }

abbrev request_with : Text → Incoming
request_with nonce = record {
  method = str "GET";
  url = str "https://h/";
  headers =
      (str "Signature", str "s=:YES=:")
      ∷ (
        str "Signature-Input",
        str "s=(\"@authority\");created=3;keyid=\"k\";expires=60;tag=\"web-bot-auth\";nonce="
            ++ nonce,
      )
      ∷ [];
  body = none;
  authority = none;
}

abbrev pub agent_with : Text → VerifiedAgent
agent_with nonce = record {
  kid = str "k";
  signature_agent_url = none;
  label = str "s";
  created = (3, 0);
  expires = (60, 0);
  nonce = some nonce;
  covered = str "@authority" ∷ [];
}

abbrev pub store : NonceStore
store = record { entries = []; maxsize = 12 }

abbrev pub one_nonce : NonceStore
one_nonce = record { entries = (str "a", 65000000) ∷ []; maxsize = 12 }

abbrev two_nonces : NonceStore
two_nonces = record { entries = (str "a", 65000000) ∷ (str "b", 65000000) ∷ []; maxsize = 12 }

first_is_accepted :
    verify services settings 9000000 9000000 (request_with (str "\"a\"")) store
    ≡ (accepted (agent_with (str "a")), one_nonce)
unfolding verify ◌>>=◌ text_eq parse_signature parse_signature_input param_of window_fault agent_of
    normalize_authority make_room
first_is_accepted = refl

second_is_accepted :
    verify services settings 9000000 9000000 (request_with (str "\"b\"")) one_nonce
    ≡ (accepted (agent_with (str "b")), two_nonces)
unfolding verify ◌>>=◌ text_eq parse_signature parse_signature_input param_of window_fault agent_of
    normalize_authority make_room
second_is_accepted = refl

replay_is_refused :
    (verify services settings 9000001 9000001 (request_with (str "\"a\"")) one_nonce).0
    ≡ refused replayed
unfolding verify ◌>>=◌ text_eq parse_signature parse_signature_input param_of window_fault agent_of
    normalize_authority make_room
replay_is_refused = refl

late_is_refused :
    (verify services settings 65000001 65000001 (request_with (str "\"a\"")) store).0
    ≡ refused expired
unfolding verify ◌>>=◌ text_eq parse_signature parse_signature_input param_of window_fault agent_of
    normalize_authority make_room
late_is_refused = refl

verify-IsAuthentic_example :
    ((c : Candidate) × (sig : Text) × (chosen services
          (lower_headers (request_with (str "\"a\"")).headers [])
        ≡ accepted (c, sig))
      × IsAuthentic services settings 9000000
          (request_with (str "\"a\""))
          (lower_headers (request_with (str "\"a\"")).headers [])
          c
          sig
          (agent_with (str "a")))
    × ((n : Text) → some (str "a") ≡ some n → seen 9000000 n 65000000 store ≡ (false, one_nonce))
verify-IsAuthentic_example =
    verify-IsAuthentic services settings 9000000 9000000 (request_with (str "\"a\"")) store
      one_nonce (agent_with (str "a")) first_is_accepted

verify_no_replay_example : some (str "b") ≢ some (str "a")
verify_no_replay_example =
    verify_no_replay services services settings settings 9000000 9000000 9000000 9000000
      (request_with (str "\"a\"")) (request_with (str "\"b\"")) store one_nonce two_nonces
      (agent_with (str "a")) (agent_with (str "b")) (str "a") [] first_is_accepted refl
      (omega arith) tt (omega arith) second_is_accepted

abbrev pub published_key : Json
published_key = obj (
    member (str "kty") (string (str "OKP"))
      (member (str "crv") (string (str "Ed25519")) (member (str "x") (string (str "abc")) end)))

abbrev source : Source
source = record {
  key_resolver = none;
  published = λ agent. accepted (published_key ∷ []);
  dumps = λ j. str "\"abc\"";
  hash = λ s. str "thumb";
}

key_is_found : resolve source (str "thumb") (some (str "https://a/")) ≡ accepted published_key
unfolding resolve ◌>>=◌ key_among text_eq
key_is_found = refl

resolve-IsNamed_example :
    (a : Text) × (ks : List Json) × (some (str "https://a/") ≡ some a)
    × (source.published a ≡ accepted ks)
    × In published_key ks
    × IsNamed source (str "thumb") published_key
resolve-IsNamed_example =
    resolve-IsNamed source (str "thumb") (some (str "https://a/")) published_key refl key_is_found
