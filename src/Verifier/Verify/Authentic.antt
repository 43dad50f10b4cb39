-- ===== src/Verifier/Verify/Authentic.antt =====
-- What it takes for `Verifier.verify` to accept a request.
use wbauth.Prelude.{
  ℕ, ◌+◌, ◌*◌, ◌≤◌, ◌<◌, Bool, true, false, ◌⊎◌, inl, inr, ◌≡◌, refl, sym, ap, ◌∙◌, Option, none,
  some, List, [], ◌∷◌, arith, Option-cases,
}
use wbauth.Text.{Text, str}
use wbauth.Text.Laws.{text_eq_iff}
use wbauth.Dict.{text_keys, get}
use wbauth.Signer.{Headers}
use wbauth.Verifier.Nonces.{NonceStore, seen}
use wbauth.Verifier.Parse.{Candidate}
use wbauth.Verifier.Checks.{
  Refusal, Checked, accepted, refused, ◌>>=◌, required, faultless, Incoming, Services, Settings,
  lower_headers, chosen, alg_fault, int_of, text_of, nonce_of, micro, window_fault, covers,
  agent_of,
}
use wbauth.Verifier.Verify.{
  VerifiedAgent, check_candidate, component_lines, digest_fault, verified_base, record_use, verify,
  found, authority_fault, signature_fault, unless_seen, use_nonce, forgotten_at,
}

pub bind-accepted :
    {A B : Type 0} (m : Checked A) (f : A → Checked B) (b : B)
    → (m >>= f) ≡ accepted b
    → (a : A) × (m ≡ accepted a) × (f a ≡ accepted b)
unfolding ◌>>=◌
bind-accepted (accepted a) f b h = (a, refl, h)
bind-accepted (refused e) f b h = absurd (cc)

pub required-accepted :
    {A : Type 0} (e : Refusal) (o : Option A) (a : A) → required e o ≡ accepted a → o ≡ some a
required-accepted e none a h = absurd (cc)
required-accepted e (some b) a h = ground arith

faultless-accepted : (o : Option Refusal) (a : Bool) → faultless o ≡ accepted a → o ≡ none
faultless-accepted none a h = refl
faultless-accepted (some e) a h = absurd (cc)

-- The signature is in its window: it began, has not ended, and lasts no longer than an hour, each
-- end with the allowed skew.
pub record IsTimely (t skew : ℕ) (created expires : ℕ × ℕ) : Type 0 where
  pub begun : created.0 * micro ≤ t + skew + created.1 * micro
  pub lasting : t + expires.1 * micro ≤ expires.0 * micro + skew
  pub forward : created.0 + expires.1 < expires.0 + created.1
  pub short : expires.0 + created.1 ≤ 3600 + created.0 + expires.1

window_fault-IsTimely :
    (t skew : ℕ) (c e : ℕ × ℕ) → window_fault t skew c e ≡ none → IsTimely t skew c e
unfolding window_fault
window_fault-IsTimely t skew c e h = record {
  begun = ground arith;
  lasting = ground arith;
  forward = ground arith;
  short = ground arith;
}

-- A body that is not empty is bound: its hash stands in the Content-Digest header, and the
-- signature covers that header.
abbrev pub IsBound : Services → Headers → List Text → Option Text → Type 0
IsBound S h comps none = Unit
IsBound S h comps (some []) = Unit
IsBound S h comps (some (b ∷ body)) =
    (covers (str "content-digest") comps ≡ true)
    × ((d : Text) × (found (get (str "content-digest") h) ≡ some d)
        × (S.b64decode d ≡ some (S.sha256 (b ∷ body))))

digest_fault-IsBound :
    (S : Services) (h : Headers) (comps : List Text) (body : Option Text)
    → digest_fault S h comps body ≡ none
    → IsBound S h comps body
unfolding digest_fault
digest_fault-IsBound S h comps none e = tt
digest_fault-IsBound S h comps (some []) e = tt
digest_fault-IsBound S h comps (some (b ∷ body)) e =
    elim (Option-cases (found (get (str "content-digest") h))) [
      | inl missing ↦ absurd (ground (arith, missing))
      | inr (d, there) ↦ elim (Option-cases (S.b64decode d)) [
        | inl bad ↦ absurd (ground (arith, there, bad))
        | inr (raw, decoded) ↦
            let same : raw ≡ S.sha256 (b ∷ body) =
              ground (arith, there, decoded, text_eq_iff raw (S.sha256 (b ∷ body))) in
            (ground (arith, there, decoded), (d, there, decoded ∙ ap some same))
      ]
    ]

-- Signature-Agent is covered, if it is sent.
agent_of-covered :
    (h : Headers) (comps : List Text) (agent : Option Text)
    → agent_of h comps ≡ accepted agent
    → (get (str "signature-agent") h ≡ none) ⊎ (covers (str "signature-agent") comps ≡ true)
unfolding agent_of
agent_of-covered h comps agent e = ground arith

-- What an accepted request has shown, with the candidate that was chosen and its signature.
pub record IsAuthentic (S : Services) (settings : Settings) (t : ℕ) (r : Incoming) (h : Headers)
    (c : Candidate) (sig : Text) (agent : VerifiedAgent) : Type 0 where
  pub covered_of : agent.covered ≡ c.covered
  pub label_of : agent.label ≡ c.label
  pub created_of : int_of (get (str "created") c.params_of) ≡ some agent.created
  pub expires_of : int_of (get (str "expires") c.params_of) ≡ some agent.expires
  pub key_id : text_of (get (str "keyid") c.params_of) ≡ some agent.kid
  pub nonce_is : agent.nonce ≡ nonce_of (get (str "nonce") c.params_of)
  pub algorithm : alg_fault (get (str "alg") c.params_of) ≡ none
  pub timely : IsTimely t settings.skew agent.created agent.expires
  pub authority_covered : covers (str "@authority") c.covered ≡ true
  pub agent_of_header : agent_of h c.covered ≡ accepted agent.signature_agent_url
  pub agent_covered :
      (get (str "signature-agent") h ≡ none) ⊎ (covers (str "signature-agent") c.covered ≡ true)
  pub bound : IsBound S h c.covered r.body
  pub signed :
      (x : Text) × (values : List (Text × Text)) × (S.find_key agent.kid agent.signature_agent_url
        ≡ accepted x)
      × (component_lines S r h c.covered ≡ accepted values)
      × (S.key_verifies x sig (verified_base values c.raw_params) ≡ true)

-- the parts of an accepted request
checked-IsAuthentic :
    (S : Services) (settings : Settings) (t : ℕ) (r : Incoming) (h : Headers) (c : Candidate)
    (sig : Text) (kid : Text) (url : Option Text) (created expires : ℕ × ℕ) (agent : VerifiedAgent)
    (x : Text) (values : List (Text × Text))
    → alg_fault (get (str "alg") c.params_of) ≡ none
    → int_of (get (str "created") c.params_of) ≡ some created
    → int_of (get (str "expires") c.params_of) ≡ some expires
    → text_of (get (str "keyid") c.params_of) ≡ some kid
    → window_fault t settings.skew created expires ≡ none
    → authority_fault c.covered ≡ none
    → agent_of h c.covered ≡ accepted url
    → digest_fault S h c.covered r.body ≡ none
    → component_lines S r h c.covered ≡ accepted values
    → S.find_key kid url ≡ accepted x
    → signature_fault S x sig (verified_base values c.raw_params) ≡ none
    → agent ≡ record {
      kid = kid;
      signature_agent_url = url;
      label = c.label;
      created = created;
      expires = expires;
      nonce = nonce_of (get (str "nonce") c.params_of);
      covered = c.covered;
    }
    → IsAuthentic S settings t r h c sig agent
checked-IsAuthentic S settings t r h c sig kid url created expires agent x values alg ci ei k w a u
      d v f g e =
    rw e (record {
      covered_of = refl;
      label_of = refl;
      created_of = ci;
      expires_of = ei;
      agent_of_header = u;
      key_id = k;
      nonce_is = refl;
      algorithm = alg;
      timely = window_fault-IsTimely t settings.skew created expires w;
      authority_covered = ground arith;
      agent_covered = agent_of-covered h c.covered url u;
      bound = digest_fault-IsBound S h c.covered r.body d;
      signed = (x, values, f, v, ground arith);
    })

abbrev agent_or : VerifiedAgent → Checked VerifiedAgent → VerifiedAgent
agent_or d (accepted a) = a
agent_or d (refused e) = d

check_candidate-IsAuthentic :
    (S : Services) (settings : Settings) (t : ℕ) (r : Incoming) (h : Headers) (c : Candidate)
    (sig : Text) (agent : VerifiedAgent)
    → check_candidate S settings t r h c sig ≡ accepted agent
    → IsAuthentic S settings t r h c sig agent
unfolding check_candidate
check_candidate-IsAuthentic S settings t r h c sig agent e =
    let (a₁, alg, e₁) = bind-accepted _ _ _ e in
    let (created, c_is, e₂) = bind-accepted _ _ _ e₁ in
    let (expires, x_is, e₃) = bind-accepted _ _ _ e₂ in
    let (kid, k_is, e₄) = bind-accepted _ _ _ e₃ in
    let (a₂, timely, e₅) = bind-accepted _ _ _ e₄ in
    let (a₃, bound, e₆) = bind-accepted _ _ _ e₅ in
    let (url, u_is, e₇) = bind-accepted _ _ _ e₆ in
    let (a₄, intact, e₈) = bind-accepted _ _ _ e₇ in
    let (a₅, given, e₉) = bind-accepted _ _ _ e₈ in
    let (values, v_is, e₁₀) = bind-accepted _ _ _ e₉ in
    let (x, key, e₁₁) = bind-accepted _ _ _ e₁₀ in
    let (a₆, signed, e₁₂) = bind-accepted _ _ _ e₁₁ in
    checked-IsAuthentic S settings t r h c sig kid url created expires agent x values
      (faultless-accepted _ a₁ alg) (required-accepted _ _ created c_is)
      (required-accepted _ _ expires x_is) (required-accepted _ _ kid k_is)
      (faultless-accepted _ a₂ timely) (faultless-accepted _ a₃ bound) u_is
      (faultless-accepted _ a₄ intact) v_is key (faultless-accepted _ a₆ signed)
      (sym (ap (agent_or agent) e₁₂))

unless_seen-accepted :
    (a agent : VerifiedAgent) (p : Bool × NonceStore) (store : NonceStore)
    → unless_seen a p ≡ (accepted agent, store)
    → (a ≡ agent) × (p ≡ (false, store))
unless_seen-accepted a agent (true, s) store e = absurd (cc)
unless_seen-accepted a agent (false, s) store e =
    (ap (λ m. agent_or agent m.0) e, ap (λ m. (false, m.1)) e)

use_nonce-accepted :
    (settings : Settings) (clock : ℕ) (a agent : VerifiedAgent) (o : Option Text)
    (store store' : NonceStore)
    → use_nonce settings clock a o store ≡ (accepted agent, store')
    → (a ≡ agent)
      × ((n : Text)
          → o ≡ some n
          → seen clock n (forgotten_at settings a.expires) store ≡ (false, store'))
use_nonce-accepted settings clock a agent none store store' e =
    (ap (λ m. agent_or agent m.0) e, λ n u. absurd (cc))
use_nonce-accepted settings clock a agent (some nonce) store store' e =
    let (same, fresh) =
      unless_seen-accepted a agent (seen clock nonce (forgotten_at settings a.expires) store) store'
        e in
    (same, λ n u. let one : nonce ≡ n = ground (arith, u) in rw (← one) fresh)

record_use-accepted :
    (settings : Settings) (clock : ℕ) (m : Checked VerifiedAgent) (store store' : NonceStore)
    (agent : VerifiedAgent)
    → record_use settings clock m store ≡ (accepted agent, store')
    → (m ≡ accepted agent)
      × ((n : Text)
          → agent.nonce ≡ some n
          → seen clock n (forgotten_at settings agent.expires) store ≡ (false, store'))
record_use-accepted settings clock (refused x) store store' agent e = absurd (cc)
record_use-accepted settings clock (accepted a) store store' agent e =
    let (same, fresh) = use_nonce-accepted settings clock a agent a.nonce store store' e in
    (ap accepted same, λ n u. rw (← same) (fresh n (rw same u)))

-- A request that is accepted has a signature with the tag of the profile, chosen from its headers
-- as `verify` lowers them. The key of the agent that is returned verifies it over the base that is
-- rebuilt from the request and the parameters of the signature. The agent has the label, the key
-- id, the dates and the nonce that the signature itself gives, and the URL of the Signature-Agent
-- header. The signature is in the window of these dates, and covers the authority, the Signature-Agent header if there is one, and the hash of the body if there is
-- one. Its nonce, if it has one, was not reported as seen, and is in the store that is left.
pub verify-IsAuthentic :
    (S : Services) (settings : Settings) (t clock : ℕ) (r : Incoming) (store store' : NonceStore)
    (agent : VerifiedAgent)
    → verify S settings t clock r store ≡ (accepted agent, store')
    → ((c : Candidate) × (sig : Text) × (chosen S (lower_headers r.headers []) ≡ accepted (c, sig))
        × IsAuthentic S settings t r (lower_headers r.headers []) c sig agent)
      × ((n : Text)
          → agent.nonce ≡ some n
          → seen clock n (forgotten_at settings agent.expires) store ≡ (false, store'))
unfolding verify
verify-IsAuthentic S settings t clock r store store' agent e =
    let h = lower_headers r.headers [] in
    let (made, fresh) =
      record_use-accepted settings clock
        (chosen S h >>= λ found. check_candidate S settings t r h found.0 found.1) store store'
        agent e in
    let (p, choice, rest) = bind-accepted _ _ _ made in
    ((p.0, p.1, choice, check_candidate-IsAuthentic S settings t r h p.0 p.1 agent rest), fresh)
