-- ===== src/Verifier/Verify.antt =====
-- The second half of `Verifier.verify` of verifier.py: the body's digest, the signature base
-- rebuilt from the request, the signature, and the nonce.
pub mod Authentic
pub mod Replayed
use wbauth.Prelude.{
  ℕ, ◌+◌, ◌-◌, ◌*◌, Bool, true, false, not, ◌&&◌, Option, none, some, List, [], ◌∷◌, ◌++◌, ◌==◌,
  if◌then◌else◌, is_empty, is_some, map, drop, drop_while, take_while,
}
use wbauth.Text.{Text, str, text_eq, starts_with, lower, upper, join, decimal}
use wbauth.Dict.{Dict, text_keys, get}
use wbauth.Matching.{spaces?}
use wbauth.Urls.{normalize_authority}
use wbauth.Signer.{Headers, base_line}
use wbauth.Verifier.Nonces.{NonceStore, seen}
use wbauth.Verifier.Parse.{Param, Candidate, base64_code, code}
use wbauth.Verifier.Checks.{
  Refusal, no_params, unsupported_component, header_missing, authority_not_covered,
  digest_not_covered, digest_mismatch, nonce_required, not_verified, replayed, other_exception,
  Checked, accepted, refused, ◌>>=◌, required, faultless, Incoming, UrlParts, Services, Settings,
  lower_headers, chosen, alg_fault, int_of, text_of, nonce_of, micro, window_fault, covers,
  agent_of,
}

-- `([A-Za-z0-9+/=]+):`
abbrev pub digest_value : Text → Option Text
digest_value s =
    if not (is_empty (take_while base64_code s)) && is_some (code b':' (drop_while base64_code s))
    then some (take_while base64_code s)
    else none

-- `\s*sha-256=:([A-Za-z0-9+/=]+):`
unfoldable pub digest_here : Text → Option Text
unfolding starts_with
digest_here s =
    if starts_with (spaces? s) (str "sha-256=:") then digest_value (drop 9 (spaces? s)) else none

-- `re.search` for it at the start or behind a comma
unfoldable pub digest_from : Bool → Text → Option Text
unfolding digest_here
digest_from start [] = none
digest_from start (a ∷ s) =
    let later = digest_from (a == b',') s in
    let here = digest_here (a ∷ s) in if start && is_some here then here else later

abbrev pub found : Option Text → Option Text
found none = none
found (some value) = digest_from true value

-- the test on the body
unfoldable pub digest_fault : Services → Headers → List Text → Option Text → Option Refusal
unfolding get digest_from
digest_fault S h comps none = none
digest_fault S h comps (some []) = none
digest_fault S h comps (some (b ∷ body)) =
    if not (covers (str "content-digest") comps)
    then some digest_not_covered
    else elim (found (get (str "content-digest") h)) [
      | none ↦ some digest_mismatch
      | some d ↦ elim (S.b64decode d) [
        | none ↦ some other_exception
        | some raw ↦ if text_eq raw (S.sha256 (b ∷ body)) then none else some digest_mismatch
      ]
    ]

-- `raw_path.split(b"?", 1)[0] or "/"`
abbrev pub path_of : UrlParts → Text
path_of parts =
    let path = take_while (λ c. not (c == b'?')) parts.raw_path in
    if is_empty path then str "/" else path

-- `authority or normalize_authority(url)`
abbrev pub authority_value : Services → Incoming → Checked Text
authority_value S r =
    let own = required other_exception (normalize_authority S.urlsplit r.url) in
    elim r.authority [ none ↦ own | some a ↦ if is_empty a then own else accepted a ]

abbrev pub header_value : Text → Headers → Checked Text
header_value name h =
    if starts_with name (str "@")
    then refused unsupported_component
    else required header_missing (get name h)

-- the ladder of names
unfoldable pub component_of :
    Services → Incoming → Headers → (name : Text) → UrlParts → Checked Text
unfolding get starts_with upper lower
component_of S r h name parts =
    if text_eq name (str "@authority")
    then authority_value S r
    else if text_eq name (str "@method")
    then accepted (upper r.method)
    else if text_eq name (str "@scheme")
    then accepted (lower parts.scheme)
    else if text_eq name (str "@target-uri")
    then accepted parts.whole
    else if text_eq name (str "@path")
    then accepted (path_of parts)
    else if text_eq name (str "@query")
    then accepted (str "?" ++ parts.query)
    else header_value name h

-- `_component_value`
unfoldable pub component_value : Services → Incoming → Headers → Text → Checked Text
unfolding component_of
component_value S r h name = required other_exception (S.http_url r.url) >>= component_of S r h name

-- the covered components with their values
unfoldable pub component_lines :
    Services → Incoming → Headers → List Text → Checked (List (Text × Text))
unfolding component_value
component_lines S r h [] = accepted []
component_lines S r h (c ∷ cs) = do
  value ← component_value S r h c
  more ← component_lines S r h cs
  accepted ((c, value) ∷ more)

-- the signature base
unfoldable pub verified_base : List (Text × Text) → (raw_params : Text) → Text
verified_base values raw_params =
    join (10 ∷ []) (map base_line values ++ (str "\"@signature-params\": " ++ raw_params) ∷ [])

pub record VerifiedAgent : Type 0 where
  pub kid : Text
  pub signature_agent_url : Option Text
  pub label : Text
  pub created : ℕ × ℕ
  pub expires : ℕ × ℕ
  pub nonce : Option Text
  pub covered : List Text

abbrev pub authority_fault : List Text → Option Refusal
authority_fault comps = if covers (str "@authority") comps then none else some authority_not_covered

abbrev pub nonce_fault : Settings → Option Text → Option Refusal
nonce_fault settings nonce =
    if settings.require_nonce && not (is_some nonce) then some nonce_required else none

abbrev pub signature_fault : Services → Text → Text → Text → Option Refusal
signature_fault S x sig base = if S.key_verifies x sig base then none else some not_verified

-- the checks on the chosen candidate
unfoldable pub check_candidate :
    Services → Settings → ℕ → Incoming → Headers → Candidate → (sig : Text) → Checked VerifiedAgent
unfolding get digest_fault component_lines
check_candidate S settings t r h c sig = do
  alg ← faultless (alg_fault (get (str "alg") c.params_of))
  created ← required no_params (int_of (get (str "created") c.params_of))
  expires ← required no_params (int_of (get (str "expires") c.params_of))
  kid ← required no_params (text_of (get (str "keyid") c.params_of))
  timely ← faultless (window_fault t settings.skew created expires)
  bound ← faultless (authority_fault c.covered)
  agent ← agent_of h c.covered
  intact ← faultless (digest_fault S h c.covered r.body)
  let nonce = nonce_of (get (str "nonce") c.params_of)
  given ← faultless (nonce_fault settings nonce)
  values ← component_lines S r h c.covered
  x ← S.find_key kid agent
  signed ← faultless (signature_fault S x sig (verified_base values c.raw_params))
  accepted (record {
    kid = kid;
    signature_agent_url = agent;
    label = c.label;
    created = created;
    expires = expires;
    nonce = nonce;
    covered = c.covered;
  })

-- `expires + self._skew`: the window has been checked, so the difference is not cut
abbrev pub forgotten_at : Settings → ℕ × ℕ → ℕ
forgotten_at settings e = e.0 * micro + settings.skew - e.1 * micro

abbrev pub unless_seen : VerifiedAgent → Bool × NonceStore → Checked VerifiedAgent × NonceStore
unless_seen agent (true, store) = (refused replayed, store)
unless_seen agent (false, store) = (accepted agent, store)

abbrev pub use_nonce :
    Settings → ℕ → VerifiedAgent → Option Text → NonceStore → Checked VerifiedAgent × NonceStore
use_nonce settings clock agent none store = (accepted agent, store)
use_nonce settings clock agent (some nonce) store =
    unless_seen agent (seen clock nonce (forgotten_at settings agent.expires) store)

abbrev pub record_use :
    Settings → ℕ → Checked VerifiedAgent → NonceStore → Checked VerifiedAgent × NonceStore
record_use settings clock (refused e) store = (refused e, store)
record_use settings clock (accepted agent) store = use_nonce settings clock agent agent.nonce store

-- `verify` at the time `t`; the store of nonces reads its own clock
unfoldable pub verify :
    Services → Settings → (t clock : ℕ) → Incoming → NonceStore → Checked VerifiedAgent × NonceStore
unfolding seen chosen check_candidate lower_headers
verify S settings t clock r store =
    let h = lower_headers r.headers [] in
    record_use settings clock
      (chosen S h >>= λ found. check_candidate S settings t r h found.0 found.1) store
