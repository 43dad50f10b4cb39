-- ===== src/Verifier/Checks.antt =====
-- `Verifier.verify` of verifier.py up to the store of nonces: the checks on the candidate that it
-- chooses, in the order of the source. Times are microseconds, and an `int` is a difference of two
-- natural numbers.
use wbauth.Prelude.{
  ℕ, zero, suc, ◌+◌, ◌*◌, Bool, true, false, ◌||◌, Option, none, some, List, [], ◌∷◌, ◌++◌, ltb,
  leb, if◌then◌else◌, any, find,
}
use wbauth.Text.{Text, str, text_eq, lower, strip, decimal}
use wbauth.Dict.{text_keys, get, put}
use wbauth.Urls.{UrlSplit}
use wbauth.StructuredFields.{unquote}
use wbauth.Signer.{Headers, web_bot_auth_tag}
use wbauth.Verifier.Parse.{
  Param, flag, pos, negsuc, text, Candidate, parse_signature, parse_signature_input,
}

-- Why `verify` raises: a `VerificationError` by its message, or another exception.
pub data Refusal : Type 0 where
  not_signed malformed no_tag no_member bad_alg no_params from_future expired bad_window : Refusal
  authority_not_covered agent_not_covered digest_not_covered digest_mismatch : Refusal
  directory_insecure directory_private directory_refused directory_too_large : Refusal
  directory_unreachable not_a_jwks : Refusal
  nonce_required unsupported_component header_missing unknown_key not_verified replayed : Refusal
  other_exception : Refusal

pub data Checked (A : Type 0) : Type 0 where
  accepted : A → Checked A
  refused : Refusal → Checked A

infixl 5 ◌>>=◌
unfoldable pub ◌>>=◌ : {A B : Type 0} → Checked A → (A → Checked B) → Checked B
accepted a >>= f = f a
refused e >>= f = refused e

abbrev pub required : {A : Type 0} → Refusal → Option A → Checked A
required e none = refused e
required e (some a) = accepted a

-- the request goes on where there is no fault
abbrev pub faultless : Option Refusal → Checked Bool
faultless none = accepted true
faultless (some e) = refused e

-- What `verify` is called with. `authority` may override that of the URL.
pub record Incoming : Type 0 where
  pub method : Text
  pub url : Text
  pub headers : Headers
  pub body : Option Text
  pub authority : Option Text

-- `httpx.URL`, as far as it is read.
pub record UrlParts : Type 0 where
  pub scheme : Text
  pub whole : Text
  pub raw_path : Text
  pub query : Text

-- The code around it. `find_key` is the choice of a key for a key id and a Signature-Agent: the
-- `x` of that key. `key_verifies x signature base` is Ed25519.
pub record Services : Type 0 where
  pub urlsplit : UrlSplit
  pub http_url : Text → Option UrlParts
  pub b64decode : Text → Option Text
  pub sha256 : Text → Text
  pub find_key : Text → Option Text → Checked Text
  pub key_verifies : Text → Text → Text → Bool

pub record Settings : Type 0 where
  pub skew : ℕ
  pub require_nonce : Bool

-- the value of a repeated header
abbrev pub joined_value : Option Text → Text → Text
joined_value none v = strip v
joined_value (some u) v = u ++ str ", " ++ strip v

-- `_lower`
unfoldable pub lower_headers : Headers → Headers → Headers
unfolding get put lower strip
lower_headers [] out = out
lower_headers ((k, v) ∷ headers) out =
    lower_headers headers (put (lower k) (joined_value (get (lower k) out) v) out)

abbrev pub tagged : Candidate → Bool
tagged c = elim (get (str "tag") c.params_of) [
  | some (text t) ↦ text_eq t web_bot_auth_tag
  | _ ↦ false
]

-- the first candidate with the tag, and its signature
unfoldable pub chosen : Services → Headers → Checked (Candidate × Text)
unfolding get
chosen S h = do
  input ← required not_signed (get (str "signature-input") h)
  signature ← required not_signed (get (str "signature") h)
  sigs ← required other_exception (parse_signature S.b64decode signature)
  candidates ← required malformed (parse_signature_input input)
  c ← required no_tag (find tagged candidates)
  sig ← required no_member (get c.label sigs)
  accepted (c, sig)

-- `params.get("alg", "ed25519") != "ed25519"`
abbrev pub alg_fault : Option Param → Option Refusal
alg_fault none = none
alg_fault (some (text t)) = if text_eq t (str "ed25519") then none else some bad_alg
alg_fault (some p) = some bad_alg

-- `isinstance(v, int)`: the pair's difference is the number, and `True` is 1
abbrev pub int_of : Option Param → Option (ℕ × ℕ)
int_of (some (pos n)) = some (n, 0)
int_of (some (negsuc n)) = some (0, suc n)
int_of (some flag) = some (1, 0)
int_of _ = none

abbrev pub text_of : Option Param → Option Text
text_of (some (text t)) = some t
text_of _ = none

-- the nonce, if it is true, as `str` gives it
abbrev pub nonce_of : Option Param → Option Text
nonce_of (some (text [])) = none
nonce_of (some (text (a ∷ t))) = some (a ∷ t)
nonce_of (some (pos zero)) = none
nonce_of (some (pos (suc n))) = some (decimal (suc n))
nonce_of (some (negsuc n)) = some (b'-' ∷ decimal (suc n))
nonce_of (some flag) = some (str "True")
nonce_of none = none

abbrev pub micro : ℕ
micro = 1000000

-- the three tests on the times
unfoldable pub window_fault : (t skew : ℕ) → (created expires : ℕ × ℕ) → Option Refusal
window_fault t skew c e =
    if ltb (t + skew + c.1 * micro) (c.0 * micro)
    then some from_future
    else if ltb (e.0 * micro + skew) (t + e.1 * micro)
    then some expired
    else if ltb (3600 + c.0 + e.1) (e.0 + c.1) || leb (e.0 + c.1) (c.0 + e.1)
    then some bad_window
    else none

abbrev pub covers : Text → List Text → Bool
covers name comps = any (λ c. text_eq c name) comps

-- the value of Signature-Agent
unfoldable pub agent_of : Headers → List Text → Checked (Option Text)
unfolding get
agent_of h comps = elim (get (str "signature-agent") h) [
  | none ↦ accepted none
  | some v ↦
      if covers (str "signature-agent") comps
      then accepted (some (unquote (strip v)))
      else refused agent_not_covered
]
