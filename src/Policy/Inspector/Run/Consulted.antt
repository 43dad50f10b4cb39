-- ===== src/Policy/Inspector/Run/Consulted.antt =====
-- The endpoints that `inspect` in policy/inspector.py is not asked for.
use mathlib.Core.Path.{subst}
use wbauth.Prelude.{
  ℕ, Bool, true, false, ◌&&◌, ◌≡◌, inl, inr, refl, Option, none, some, List, [], ◌∷◌, any, is_some,
  Bool-cases, arith, if◌then◌else◌,
}
use wbauth.Text.{Text}
use wbauth.Dict.{get}
use wbauth.Urls.{UrlSplit}
use wbauth.Policy.Types.{
  Endpoint, robots, ai_txt, llms_txt, signing_directory, endpoint_eq, endpoint_beq,
  endpoint_beq_iff, RobotsResult, SitePolicy, Reason,
}
use wbauth.Policy.Cache.Entries.{CacheEntry, Key, Now, PolicyCache}
use wbauth.Policy.Cache.Store.{StoreLaws}
use wbauth.Policy.Inspector.Private.{Addresses}
use wbauth.Policy.Inspector.Fetch.{Network}
use wbauth.Policy.Inspector.Build.{build_policy}
use wbauth.Policy.Inspector.Endpoints.{Item, Parsers, wanted_of}
use wbauth.Policy.Inspector.Round.{Around, Findings, inspect_fetch}
use wbauth.Policy.Inspector.Round.Apart.{Agree, Agree-refl, Agree-trans}
use wbauth.Policy.Inspector.Round.Whole.{inspect_fetch-apart, any-filter}
use wbauth.Policy.Inspector.Run.{
  Request, agent_name, without_first, parsed_of, forbids, nothing_found, robots_first, early_stop,
  concluded, inspect,
}
use wbauth.Policy.Inspector.Run.Choices.{
  looked_up, looked_up-missing, looked_up-apart, held, inspect-concluded, inspect-host,
}

any-without_first :
    (p : Endpoint → Bool) (ep : Endpoint) (eps : List Endpoint)
    → any p eps ≡ false
    → any p (without_first ep eps) ≡ false
unfolding without_first
any-without_first p ep [] h = refl
any-without_first p ep (e ∷ eps) h = ground (arith, h, any-without_first p ep eps)

any-both :
    (p q : Endpoint → Bool) (eps : List Endpoint)
    → any p eps ≡ false
    → any (λ e. p e && q e) eps ≡ false
any-both p q [] h = refl
any-both p q (e ∷ eps) h = ground (arith, h, any-both p q eps)

-- One endpoint is among names and the other is not: they differ.
beq-apart :
    (ep at : Endpoint) (eps : List Endpoint)
    → any (endpoint_beq ep) eps ≡ false
    → any (endpoint_beq at) eps ≡ true
    → endpoint_beq ep at ≡ false
beq-apart ep at eps absent_one there = elim (Bool-cases (endpoint_beq ep at)) [
  | inr apart ↦ apart
  | inl same ↦ let eq = (endpoint_beq_iff ep at).0 same in absurd (cc (rw (eq) at absent_one))
]

-- whether a policy has the section of an endpoint
abbrev pub has_section : Endpoint → SitePolicy → Bool
has_section robots p = is_some p.robots
has_section ai_txt p = is_some p.ai_txt
has_section llms_txt p = is_some p.llms_txt
has_section signing_directory p = is_some p.signing_directory

module _ {Source : Type 0} (A : Addresses) (N : Network) (urlsplit : UrlSplit)
    (parsers : Parsers Source) (evaluate : Source → Text → Text → RobotsResult)
    (default_user_agent : Text) (L : StoreLaws Key (CacheEntry (Item Source)))
    (U : StoreLaws Key (CacheEntry (Item Source))) where
  abbrev State : Type 0
  State = Findings A N parsers L U

  -- Neither the state nor the names that are left have to do with an endpoint.
  abbrev IsClear : Endpoint → State → Option Reason × List Endpoint × State → Type 0
  IsClear ep f (skipped, left, g) =
      Agree A N parsers L U ep g f × (any (endpoint_beq ep) left ≡ false)

  if-IsClear :
      (ep : Endpoint) (f : State) (b : Bool) (x y : Option Reason × List Endpoint × State)
      → (b ≡ true → IsClear ep f x)
      → IsClear ep f y
      → IsClear ep f (if b then x else y)
  if-IsClear ep f true x y p q = p refl
  if-IsClear ep f false x y p q = q

  early_stop-IsClear :
      (around : Around N) (request : Request) (host ua : Text) (missing : List Endpoint)
      (ep : Endpoint) (f : State)
      → any (endpoint_beq ep) missing ≡ false
      → IsClear ep f (
          early_stop A N urlsplit parsers evaluate default_user_agent L U around request host ua
            missing f)
  unfolding early_stop
  early_stop-IsClear around request host ua missing ep f h =
      let after =
        inspect_fetch A N parsers L U around host (robots ∷ []) ua request.allow_private f in
      let rest = without_first robots missing in
      let clear = any-without_first (endpoint_beq ep) robots missing h in
      if-IsClear ep f _
        (robots_first A N urlsplit parsers evaluate default_user_agent L U around request host ua
          missing f)
        (if request.stop_on_forbidden
            && forbids A N urlsplit parsers evaluate default_user_agent L U request.url ua f
          then (some (Reason.stop_on_forbidden []), [], f)
          else (none, missing, f))
        (λ led.
          let other : any (endpoint_beq ep) (robots ∷ []) ≡ false =
            rw (beq-apart ep robots missing h (ground (arith, led))) refl in
          let same =
            inspect_fetch-apart A N parsers L U around host (robots ∷ []) ua request.allow_private
              ep f other in
          if-IsClear ep f _ (some (Reason.stop_on_forbidden rest), [], after) (none, rest, after)
            (λ x. (same, refl)) (same, clear))
        (if-IsClear ep f _ (some (Reason.stop_on_forbidden []), [], f) (none, missing, f)
          (λ x. (Agree-refl A N parsers L U ep f, refl)) (Agree-refl A N parsers L U ep f, h))

  section_free :
      (request : Request) (ua : Text) (built_at : ℕ) (skipped : Option Reason) (ep : Endpoint)
      (f : State)
      → get ep f.raw ≡ none
      → has_section ep (
          build_policy urlsplit evaluate request.url ua (parsed_of f.raw) f.errors skipped built_at)
        ≡ false
  unfolding parsed_of build_policy
  section_free request ua built_at skipped robots f h = rw (h) refl
  section_free request ua built_at skipped ai_txt f h = rw (h) refl
  section_free request ua built_at skipped llms_txt f h = rw (h) refl
  section_free request ua built_at skipped signing_directory f h = rw (h) refl

  -- An endpoint that an inspection is not asked for is neither an error of the policy nor one of its
  -- sections, whatever the cache holds.
  pub inspect-skipped :
      (first second : Around N) (now : Now) (built_at : ℕ) (request : Request)
      (cache c : PolicyCache L U) (p : SitePolicy) (wanted : List Endpoint) (ep : Endpoint)
      → wanted_of request.endpoints ≡ some wanted
      → any (endpoint_beq ep) wanted ≡ false
      → inspect A N urlsplit parsers evaluate default_user_agent L U first second now built_at
          request cache
        ≡ some (p, c)
      → (get ep p.errors ≡ none) × (has_section ep p ≡ false)
  unfolding concluded get build_policy
  inspect-skipped first second now built_at request cache c p wanted ep w h e =
      let (host, named) =
        inspect-host A N urlsplit parsers evaluate default_user_agent L U first second now built_at
          request cache c p e in
      let ua = agent_name default_user_agent request.user_agent in
      let f = nothing_found A N urlsplit parsers evaluate default_user_agent L U cache in
      let (missing, g) =
        looked_up A N urlsplit parsers evaluate default_user_agent L U now host wanted cache in
      let looked =
        looked_up-apart A N urlsplit parsers evaluate default_user_agent L U now host ep wanted
          cache
          (any-both (endpoint_beq ep)
            (λ x.
              is_some (held A N urlsplit parsers evaluate default_user_agent L U now host cache x))
            wanted h) in
      let names =
        looked_up-missing A N urlsplit parsers evaluate default_user_agent L U now host wanted
          cache in
      let clear : any (endpoint_beq ep) missing ≡ false =
        rw (names) (any-filter A N parsers L U (endpoint_beq ep) _ wanted h) in
      let (skipped, left, early) =
        early_stop A N urlsplit parsers evaluate default_user_agent L U first request host ua
          missing g in
      let (same, none_left) = early_stop-IsClear first request host ua missing ep g clear in
      let late = inspect_fetch A N parsers L U second host left ua request.allow_private early in
      let last =
        Agree-trans A N parsers L U ep late early f
          (inspect_fetch-apart A N parsers L U second host left ua request.allow_private ep early
            none_left)
          (Agree-trans A N parsers L U ep early g f same looked) in
      subst (λ r. (get ep r.0.errors ≡ none) × (has_section ep r.0 ≡ false))
        (inspect-concluded A N urlsplit parsers evaluate default_user_agent L U first second now
          built_at request cache c p host wanted named w e)
        (last.same_error, section_free request ua built_at skipped ep late last.same_value)
