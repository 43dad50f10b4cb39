-- ===== src/Policy/Inspector/Round/Apart.antt =====
-- What `settle` of a round of policy/inspector.py writes: one thing, at its own endpoint.
use wbauth.Prelude.{false, ◌==◌, ◌≡◌, refl, sym, ap, ◌∙◌, inl, inr, Option, none, some, Bool-cases}
use wbauth.Text.{Text, str}
use wbauth.Dict.{get}
use wbauth.Dict.Laws.{get-put}
use wbauth.Policy.Errors.{
  Exception, http_status_error, asyncio_timeout_error, timeout_exception, base_exception, other,
  robots_parse_error, private_address_error, fetch_error, too_many_redirects, request_error,
}
use wbauth.Policy.Types.{Endpoint, endpoint_eq, endpoint_beq}
use wbauth.Policy.Verdict.{is_unavailable_status}
use wbauth.Policy.Cache.Entries.{Value, parsed, CacheEntry, Key}
use wbauth.Policy.Cache.Store.{StoreLaws}
use wbauth.Policy.Inspector.Private.{Addresses}
use wbauth.Policy.Inspector.Fetch.{Network, Fetched, raised, fetched, Response}
use wbauth.Policy.Inspector.Endpoints.{Item, Parsers, ParseOutcome, read, fails, parse_text}
use wbauth.Policy.Inspector.Round.{
  Around, Findings, note_error, note_value, settle_raised, settle_not_modified, settle_parsed,
  settle, header,
}

module _ {Source : Type 0} (A : Addresses) (N : Network) (parsers : Parsers Source)
    (L : StoreLaws Key (CacheEntry (Item Source)))
    (U : StoreLaws Key (CacheEntry (Item Source))) where
  abbrev Found : Type 0
  Found = Findings A N parsers L U

  -- Two states have the same value and the same error of an endpoint.
  pub record Agree (ep : Endpoint) (f g : Found) : Type 0 where
    pub same_value : get ep f.raw ≡ get ep g.raw
    pub same_error : get ep f.errors ≡ get ep g.errors

  pub Agree-refl : (ep : Endpoint) (f : Found) → Agree ep f f
  Agree-refl ep f = record { same_value = refl; same_error = refl }

  pub Agree-sym : (ep : Endpoint) (f g : Found) → Agree ep f g → Agree ep g f
  Agree-sym ep f g h = record { same_value = sym h.same_value; same_error = sym h.same_error }

  pub Agree-trans : (ep : Endpoint) (f g h : Found) → Agree ep f g → Agree ep g h → Agree ep f h
  Agree-trans ep f g h p q = record {
    same_value = p.same_value ∙ q.same_value;
    same_error = p.same_error ∙ q.same_error;
  }

  -- What a step writes at its endpoint.
  data Effect : Type 0 where
    error_of : Exception → Effect
    value_of : Value (Item Source) → Effect

  abbrev written : Endpoint → Effect → Found → Found
  written ep (error_of e) f = note_error A N parsers L U ep e f
  written ep (value_of v) f = note_value A N parsers L U ep v f

  -- Up to the cache, a step writes one thing, which does not depend on the state.
  abbrev Writes : Endpoint → (Found → Found) → Type 0
  Writes ep step =
      (effect : Effect) × ((f : Found)
        → ((step f).raw ≡ (written ep effect f).raw)
          × ((step f).errors ≡ (written ep effect f).errors))

  settle_raised-Writes :
      (around : Around N) (host : Text) (ep : Endpoint) (e : Exception)
      → Writes ep (settle_raised A N parsers L U around host ep e)
  unfolding settle_raised
  settle_raised-Writes around host ep asyncio_timeout_error =
      (error_of timeout_exception, λ f. (refl, refl))
  settle_raised-Writes around host ep (http_status_error status) =
      elim (Bool-cases (is_unavailable_status status)) [
        | inl gone ↦ (error_of (http_status_error status), λ f. (simp (gone), simp (gone)))
        | inr bad ↦ (error_of (http_status_error status), λ f. (simp (bad), simp (bad)))
      ]
  settle_raised-Writes around host ep (base_exception name) =
      (error_of (other name), λ f. (refl, refl))
  settle_raised-Writes around host ep robots_parse_error =
      (error_of robots_parse_error, λ f. (refl, refl))
  settle_raised-Writes around host ep (private_address_error t) =
      (error_of (private_address_error t), λ f. (refl, refl))
  settle_raised-Writes around host ep (fetch_error t) =
      (error_of (fetch_error t), λ f. (refl, refl))
  settle_raised-Writes around host ep too_many_redirects =
      (error_of too_many_redirects, λ f. (refl, refl))
  settle_raised-Writes around host ep timeout_exception =
      (error_of timeout_exception, λ f. (refl, refl))
  settle_raised-Writes around host ep (request_error t) =
      (error_of (request_error t), λ f. (refl, refl))
  settle_raised-Writes around host ep (other t) = (error_of (other t), λ f. (refl, refl))

  settle_not_modified-Writes :
      (around : Around N) (host : Text) (ep : Endpoint) (r : Response)
      (old : Option (CacheEntry (Item Source)))
      → Writes ep (settle_not_modified A N parsers L U around host ep r old)
  unfolding settle_not_modified
  settle_not_modified-Writes around host ep r none =
      (error_of (fetch_error (str "unexpected 304 without a cached body")), λ f. (refl, refl))
  settle_not_modified-Writes around host ep r (some old) = (value_of old.value, λ f. (refl, refl))

  settle_parsed-Writes :
      (around : Around N) (host : Text) (ep : Endpoint) (r : Response)
      (outcome : ParseOutcome (Item Source))
      → Writes ep (settle_parsed A N parsers L U around host ep r outcome)
  settle_parsed-Writes around host ep r (fails e) = (error_of e, λ f. (refl, refl))
  settle_parsed-Writes around host ep r (read v) = (value_of (parsed v), λ f. (refl, refl))

  settle-Writes :
      (around : Around N) (host : Text) (ep : Endpoint) (old : Option (CacheEntry (Item Source)))
      (answer : Fetched)
      → Writes ep (settle A N parsers L U around host ep old answer)
  unfolding settle
  settle-Writes around host ep old (raised e) = settle_raised-Writes around host ep e
  settle-Writes around host ep old (fetched r) = elim (Bool-cases (r.status_code == 304)) [
    | inl unchanged ↦
        let (effect, h) = settle_not_modified-Writes around host ep r old in
        (effect, λ f. (simp (unchanged, (h f).0), simp (unchanged, (h f).1)))
    | inr new ↦
        let (effect, h) =
          settle_parsed-Writes around host ep r
            (parse_text parsers ep (around.text r) (header (str "content-type") r)) in
        (effect, λ f. (simp (new, (h f).0), simp (new, (h f).1)))
  ]

  written-Agree :
      (ep at : Endpoint) (effect : Effect) (f g : Found)
      → Agree ep f g
      → Agree ep (written at effect f) (written at effect g)
  written-Agree ep at (error_of e) f g h = record {
    same_value = h.same_value;
    same_error = rw (get-put at ep e f.errors, get-put at ep e g.errors, h.same_error) refl;
  }
  written-Agree ep at (value_of v) f g h = record {
    same_value = rw (get-put at ep v f.raw, get-put at ep v g.raw, h.same_value) refl;
    same_error = h.same_error;
  }

  written-apart :
      (ep at : Endpoint) (effect : Effect) (f : Found)
      → endpoint_beq at ep ≡ false
      → Agree ep (written at effect f) f
  written-apart ep at (error_of e) f h = record {
    same_value = refl;
    same_error = rw (get-put at ep e f.errors, h) refl;
  }
  written-apart ep at (value_of v) f h = record {
    same_value = rw (get-put at ep v f.raw, h) refl;
    same_error = refl;
  }

  written-step :
      (ep at : Endpoint) (step : Found → Found) (effect : Effect)
      → ((f : Found)
          → ((step f).raw ≡ (written at effect f).raw)
            × ((step f).errors ≡ (written at effect f).errors))
      → (f : Found) → Agree ep (step f) (written at effect f)
  written-step ep at step effect h f = record {
    same_value = ap (λ d. get ep d) (h f).0;
    same_error = ap (λ d. get ep d) (h f).1;
  }

  -- A step gives equal results from states that agree at the endpoint.
  pub settle-Agree :
      (around : Around N) (host : Text) (ep at : Endpoint) (old : Option (CacheEntry (Item Source)))
      (answer : Fetched) (f g : Found)
      → Agree ep f g
      → Agree ep
          (settle A N parsers L U around host at old answer f)
          (settle A N parsers L U around host at old answer g)
  settle-Agree around host ep at old answer f g same =
      let (effect, h) = settle-Writes around host at old answer in
      let step = settle A N parsers L U around host at old answer in
      Agree-trans ep (step f) (written at effect f) (step g) (written-step ep at step effect h f) (
        Agree-trans ep (written at effect f) (written at effect g) (step g)
          (written-Agree ep at effect f g same)
          (Agree-sym ep (step g) (written at effect g) (written-step ep at step effect h g)))

  -- A step leaves the other endpoints as they are.
  pub settle-apart :
      (around : Around N) (host : Text) (ep at : Endpoint) (old : Option (CacheEntry (Item Source)))
      (answer : Fetched) (f : Found)
      → endpoint_beq at ep ≡ false
      → Agree ep (settle A N parsers L U around host at old answer f) f
  settle-apart around host ep at old answer f apart =
      let (effect, h) = settle-Writes around host at old answer in
      let step = settle A N parsers L U around host at old answer in
      Agree-trans ep (step f) (written at effect f) f (written-step ep at step effect h f)
        (written-apart ep at effect f apart)
