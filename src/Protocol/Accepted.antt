-- ===== src/Protocol/Accepted.antt =====
-- The checks of `Verifier.verify` of verifier.py on what `sign` of signer.py wrote.
use wbauth.Prelude.{
  ℕ, Bool, true, false, ◌≡◌, refl, Option, none, some, List, [], ◌∷◌, arith, is_empty,
}
use wbauth.Text.{Text, str, text_eq, strip, starts_with}
use wbauth.Dict.{text_keys, get}
use wbauth.Urls.{normalize_authority}
use wbauth.StructuredFields.{unquote}
use wbauth.Signer.{Headers, components_for}
use wbauth.Verifier.Checks.{
  accepted, ◌>>=◌, Incoming, UrlParts, Services, Settings, agent_of, window_fault, nonce_of,
}
use wbauth.Verifier.Parse.{text}
use wbauth.Verifier.Verify.{
  VerifiedAgent, verified_base, component_lines, digest_fault, authority_fault, nonce_fault,
  check_candidate, found,
}
use wbauth.Protocol.Base.{authority_line, header_line}
use wbauth.Protocol.Chosen.{read_member}

-- what the verifier reads of a digest line
abbrev pub DigestRead : Bool → Headers → List (Text × Text) → Type 0
DigestRead false h line = line ≡ []
DigestRead true h line =
    (v : Text) × (get (str "content-digest") h ≡ some v) × (line ≡ (str "content-digest", v) ∷ [])

module _ (S : Services) (r : Incoming) (h : Headers) (parts : UrlParts)
    (url_of : S.http_url r.url ≡ some parts) (own : r.authority ≡ none) (authority agent : Text)
    (authority_of : normalize_authority S.urlsplit r.url ≡ some authority)
    (agent_header : get (str "signature-agent") h ≡ some agent) where
  pub component_lines-components_for :
      (digest : Bool) (line : List (Text × Text))
      → DigestRead digest h line
      → component_lines S r h (components_for digest)
        ≡ accepted ((str "@authority", authority) ∷ (str "signature-agent", agent) ∷ line)
  unfolding component_lines ◌>>=◌ text_eq starts_with
  component_lines-components_for false line d =
      let first = authority_line S r h parts url_of authority own authority_of in
      let second =
        header_line S r h parts url_of (str "signature-agent") agent refl refl refl refl refl refl
          refl agent_header in
      rw (first, second, d) refl
  component_lines-components_for true line (v, found, same) =
      let first = authority_line S r h parts url_of authority own authority_of in
      let second =
        header_line S r h parts url_of (str "signature-agent") agent refl refl refl refl refl refl
          refl agent_header in
      let third =
        header_line S r h parts url_of (str "content-digest") v refl refl refl refl refl refl refl
          found in
      rw (first, second, third, same) refl

pub agent_of-components_for :
    (h : Headers) (digest : Bool) (wire : Text)
    → get (str "signature-agent") h ≡ some wire
    → agent_of h (components_for digest) ≡ accepted (some (unquote (strip wire)))
unfolding agent_of text_eq
agent_of-components_for h false wire e = rw (agent_of, e) refl
agent_of-components_for h true wire e = rw (agent_of, e) refl

pub digest_fault_of_get :
    (S : Services) (h g : Headers) (comps : List Text) (body : Option Text)
    → get (str "content-digest") h ≡ get (str "content-digest") g
    → digest_fault S h comps body ≡ digest_fault S g comps body
unfolding digest_fault
digest_fault_of_get S h g comps none e = refl
digest_fault_of_get S h g comps (some []) e = refl
digest_fault_of_get S h g comps (some (b ∷ body)) e = rw e refl

authority_fault-components_for : (digest : Bool) → authority_fault (components_for digest) ≡ none
unfolding text_eq
authority_fault-components_for false = refl
authority_fault-components_for true = refl

nonce_fault-some : (settings : Settings) (n : Text) → nonce_fault settings (some n) ≡ none
nonce_fault-some settings n = ground arith

nonce_of-text : (nonce : Text) → is_empty nonce ≡ false → nonce_of (some (text nonce)) ≡ some nonce
nonce_of-text [] h = absurd (cc)
nonce_of-text (a ∷ n) h = refl

module _ (S : Services) (settings : Settings) (t : ℕ) (r : Incoming) (h : Headers) (digest : Bool)
    (label ps kid nonce agent_url x sig : Text) (c e : ℕ) (lines : List (Text × Text)) where
  abbrev pub agent_written : VerifiedAgent
  agent_written = record {
    kid = kid;
    signature_agent_url = some agent_url;
    label = label;
    created = (c, 0);
    expires = (e, 0);
    nonce = some nonce;
    covered = components_for digest;
  }

  pub check_candidate-written :
      is_empty nonce ≡ false
      → window_fault t settings.skew (c, 0) (e, 0) ≡ none
      → agent_of h (components_for digest) ≡ accepted (some agent_url)
      → digest_fault S h (components_for digest) r.body ≡ none
      → component_lines S r h (components_for digest) ≡ accepted lines
      → S.find_key kid (some agent_url) ≡ accepted x
      → S.key_verifies x sig
          (verified_base lines (read_member label digest ps c e kid nonce).raw_params)
        ≡ true
      → check_candidate S settings t r h (read_member label digest ps c e kid nonce) sig
        ≡ accepted agent_written
  unfolding check_candidate ◌>>=◌ get text_eq
  check_candidate-written some_nonce timely agent intact rebuilt key signed =
      rw (timely, authority_fault-components_for digest, agent, intact)
        (rw (nonce_of-text nonce some_nonce, nonce_fault-some settings nonce)
          (rw (rebuilt, key, signed) refl))
