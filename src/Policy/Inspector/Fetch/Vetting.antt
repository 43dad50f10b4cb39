-- ===== src/Policy/Inspector/Fetch/Vetting.antt =====
-- What the redirect loop sends requests to, and with which headers.
use wbauth.Prelude.{
  ℕ, zero, suc, ◌≤◌, Bool, true, false, not, ◌&&◌, ◌≡◌, ◌⊎◌, inl, inr, refl, [], ◌∷◌, arith, length,
  All, Bool-cases, Option-cases,
}
use wbauth.Text.{Text}
use wbauth.Dict.{text_keys}
use wbauth.Policy.Types.{Endpoint}
use wbauth.Policy.Inspector.Private.{Addresses, is_private_host, resolves_private}
use wbauth.Policy.Inspector.Fetch.{
  Network, Headers, Fetched, hop, fetch_hops, fetch_one, redirected, redirect_target, http_scheme,
  moved_headers, Answer, raises, streams, answered, Hop, stop, follow,
}

module _ (A : Addresses) (N : Network) where
  open N use {Url, host, answer}

  -- The redirect was vetted: its scheme is http or https, and its host was found public at a
  -- moment, unless the origin itself is private and allowed.
  abbrev pub Vetted : Bool → Url → Type 0
  Vetted origin_private url =
      (http_scheme A N url ≡ true)
      × ((origin_private ≡ true) ⊎ ((m : ℕ) × (resolves_private A m (host url) ≡ false)))

  redirected-Vetted :
      (origin_private : Bool) (left : ℕ) (nxt url : Url)
      → redirected A N origin_private left nxt ≡ follow url
      → Vetted origin_private url
  unfolding redirected
  redirected-Vetted p zero nxt url h = cc
  redirected-Vetted p (suc left) nxt url h = elim (Bool-cases p) [
    | inl private ↦ (ground arith, inl private)
    | inr public ↦ (ground arith, inr (left, ground arith))
  ]

  answered-Vetted :
      (name : Endpoint) (p : Bool) (left : ℕ) (current : Url) (a : Answer) (url : Url)
      → answered A N name p left current a ≡ follow url
      → Vetted p url
  answered-Vetted name p left current (raises e) url h = cc
  answered-Vetted name p left current (streams status headers chunks failure) url h =
      elim (Option-cases (redirect_target status headers)) [
        | inl still ↦ absurd (ground arith)
        | inr (location, moved) ↦
            redirected-Vetted p left (N.join current location) url (ground arith)
      ]

  hop-Vetted :
      (name : Endpoint) (p : Bool) (left : ℕ) (current : Url) (headers : Headers) (url : Url)
      → hop A N name p left current headers ≡ follow url
      → Vetted p url
  unfolding hop
  hop-Vetted name p left current headers url h =
      answered-Vetted name p left current (answer left current headers) url h

  pub Hop-cases :
      (h : Hop A N) → ((outcome : Fetched) × (h ≡ stop outcome)) ⊎ ((url : Url) × (h ≡ follow url))
  Hop-cases (stop outcome) = inl (outcome, refl)
  Hop-cases (follow url) = inr (url, refl)

  module _ (name : Endpoint) (p : Bool) (left : ℕ) (current : Url) (headers : Headers) where
    pub fetch_hops-stop :
        (outcome : Fetched)
        → hop A N name p left current headers ≡ stop outcome
        → fetch_hops A N name p (suc left) current headers
          ≡ (outcome, record { url = current; headers = headers } ∷ [])
    unfolding fetch_hops
    fetch_hops-stop outcome e = rw e

    pub fetch_hops-follow :
        (nxt : Url)
        → hop A N name p left current headers ≡ follow nxt
        → fetch_hops A N name p (suc left) current headers ≡ (
          (fetch_hops A N name p left nxt (moved_headers A N current nxt headers)).0,
          record { url = current; headers = headers }
              ∷ (fetch_hops A N name p left nxt (moved_headers A N current nxt headers)).1,
        )
    unfolding fetch_hops
    fetch_hops-follow nxt e = rw e

  -- What holds at the first hop and is kept by every vetted redirect holds of each request.
  module _ (name : Endpoint) (p : Bool) (I : Url → Headers → Type 0)
      (keep : (u v : Url) (h : Headers) → I u h → Vetted p v → I v (moved_headers A N u v h)) where
    pub fetch_hops_induction :
        (hops : ℕ) (current : Url) (headers : Headers)
        → I current headers
        → All (λ r. I r.url r.headers) (fetch_hops A N name p hops current headers).1
    fetch_hops_induction zero current headers i = unfold fetch_hops in tt
    fetch_hops_induction (suc left) current headers i =
        elim (Hop-cases (hop A N name p left current headers)) [
          | inl (outcome, e) ↦ rw (fetch_hops-stop name p left current headers outcome e) (i, tt)
          | inr (nxt, e) ↦ rw (fetch_hops-follow name p left current headers nxt e) (
            i,
            fetch_hops_induction left nxt (moved_headers A N current nxt headers)
                (keep current nxt headers i (hop-Vetted name p left current headers nxt e)),
          )
        ]

  length-fetch_hops :
      (name : Endpoint) (p : Bool) (hops : ℕ) (current : Url) (headers : Headers)
      → length (fetch_hops A N name p hops current headers).1 ≤ hops
  length-fetch_hops name p zero current headers = unfold fetch_hops in omega arith
  length-fetch_hops name p (suc left) current headers =
      elim (Hop-cases (hop A N name p left current headers)) [
        | inl (outcome, e) ↦
            rw (fetch_hops-stop name p left current headers outcome e) (omega arith)
        | inr (nxt, e) ↦ rw (fetch_hops-follow name p left current headers nxt e) (
            omega
              (arith, length-fetch_hops name p left nxt (moved_headers A N current nxt headers)))
      ]

  -- No fetch sends more than six requests: the first and five redirects.
  length-fetch_one :
      (name : Endpoint) (url : Url) (ua : Text) (validators : Headers) (allow_private : Bool)
      → length (fetch_one A N name url ua validators allow_private).1 ≤ 6
  unfolding fetch_one
  length-fetch_one name url ua validators allow_private =
      elim (Bool-cases (not allow_private && resolves_private A 6 (host url))) [
        | inl refused ↦ rw refused (omega arith)
        | inr sent ↦ rw sent (length-fetch_hops name _ 6 url _)
      ]

  abbrev pub Public : Url → Type 0
  Public url = (m : ℕ) × (resolves_private A m (host url) ≡ false)

  vetting_found :
      (p : Bool) (v : Url)
      → p ≡ false
      → (p ≡ true) ⊎ ((m : ℕ) × (resolves_private A m (host v) ≡ false))
      → Public v
  vetting_found p v e (inl t) = absurd (ground arith)
  vetting_found p v e (inr found) = found

  -- Where private addresses are not allowed, every host that a request goes to, the origin's and
  -- each redirect's, was found to be public first.
  pub fetch_one-Public :
      (name : Endpoint) (url : Url) (ua : Text) (validators : Headers)
      → All (λ r. Public r.url) (fetch_one A N name url ua validators false).1
  unfolding fetch_one
  fetch_one-Public name url ua validators = elim (Bool-cases (resolves_private A 6 (host url))) [
    | inl refused ↦ rw refused tt
    | inr sent ↦ rw sent (
        fetch_hops_induction name false (λ u h. Public u)
          (λ u v h i w. vetting_found false v refl w.1) 6 url _ (6, sent))
  ]

  -- Whatever is allowed, a fetch from an origin that is not itself a private name goes to its own
  -- URL and from there to http(s) URLs of hosts that were found to be public.
  pub fetch_one-Vetted :
      (name : Endpoint) (url : Url) (ua : Text) (validators : Headers) (allow_private : Bool)
      → is_private_host A (host url) ≡ false
      → All
          (λ r. (r.url ≡ url) ⊎ ((http_scheme A N r.url ≡ true) × Public r.url))
          (fetch_one A N name url ua validators allow_private).1
  unfolding fetch_one
  fetch_one-Vetted name url ua validators allow_private h =
      let p = allow_private && is_private_host A (host url) in
      let public : p ≡ false = ground arith in
      elim (Bool-cases (not allow_private && resolves_private A 6 (host url))) [
        | inl refused ↦ rw refused tt
        | inr sent ↦ rw sent (
            fetch_hops_induction name p (λ u h. (u ≡ url) ⊎ ((http_scheme A N u ≡ true) × Public u))
              (λ u v h i w. inr (w.0, vetting_found p v public w.1)) 6 url _ (inl refl))
      ]
