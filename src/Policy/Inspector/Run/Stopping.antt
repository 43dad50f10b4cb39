-- ===== src/Policy/Inspector/Run/Stopping.antt =====
-- `stop_on_forbidden` of `inspect` in policy/inspector.py: what the early stop changes.
use mathlib.Core.Path.{subst}
use wbauth.Prelude.{
  ℕ, Bool, true, false, ◌≡◌, ◌⊎◌, inl, inr, refl, sym, Option, none, some, List, [], ◌∷◌, any, ltb,
  lt→ltb, length, arith, if◌then◌else◌,
}
use wbauth.Text.{Text}
use wbauth.Dict.{get}
use wbauth.Urls.{UrlSplit}
use wbauth.Policy.Types.{
  Endpoint, robots, endpoint_eq, endpoint_beq, RobotsResult, SitePolicy, Reason, forbidden,
}
use wbauth.Policy.Verdict.{
  compose, signing_section, llms_section, ai_section, applicable, robots_section,
}
use wbauth.Policy.Cache.Entries.{CacheEntry, Key}
use wbauth.Policy.Cache.Store.{StoreLaws}
use wbauth.Policy.Inspector.Private.{Addresses}
use wbauth.Policy.Inspector.Fetch.{Network}
use wbauth.Policy.Inspector.Build.{robots_forbids, build_policy, robots_forbids_iff}
use wbauth.Policy.Inspector.Endpoints.{Item, Parsers}
use wbauth.Policy.Inspector.Round.{Around, Findings, inspect_fetch}
use wbauth.Policy.Inspector.Round.Apart.{Agree, Agree-refl, Agree-sym, Agree-trans}
use wbauth.Policy.Inspector.Round.Whole.{inspect_fetch-apart, inspect_fetch-first}
use wbauth.Policy.Inspector.Run.{Request, without_first, parsed_of, forbids, early_stop}

module _ {Source : Type 0} (A : Addresses) (N : Network) (urlsplit : UrlSplit)
    (parsers : Parsers Source) (evaluate : Source → Text → Text → RobotsResult)
    (default_user_agent : Text) (L : StoreLaws Key (CacheEntry (Item Source)))
    (U : StoreLaws Key (CacheEntry (Item Source))) where
  abbrev State : Type 0
  State = Findings A N parsers L U

  -- the fetches after the early stop
  abbrev pub final :
      Around N → Request → Text → Text → Option Reason × List Endpoint × State → State
  final around request host ua (skipped, left, f) =
      inspect_fetch A N parsers L U around host left ua request.allow_private f

  -- Nothing is known of robots.txt yet.
  abbrev pub IsUnknown : State → Type 0
  IsUnknown f = (get robots f.raw ≡ none) × (get robots f.errors ≡ none)

  abbrev pub stopping : Bool → Request → Request
  stopping stop request = record request { stop_on_forbidden = stop }

  abbrev pub stop_early :
      Around N
      → Request
      → Text
      → Text
      → List Endpoint
      → State
      → Option Reason × List Endpoint × State
  stop_early around request host ua missing f =
      early_stop A N urlsplit parsers evaluate default_user_agent L U around (stopping true request)
        host ua missing f

  abbrev pub ForRobots : State → State → Type 0
  ForRobots f g = Agree A N parsers L U robots f g

  if-ForRobots :
      (around : Around N) (request : Request) (host ua : Text) (b : Bool)
      (x y : Option Reason × List Endpoint × State) (g : State)
      → ForRobots (final around request host ua x) g
      → ForRobots (final around request host ua y) g
      → ForRobots (final around request host ua (if b then x else y)) g
  if-ForRobots around request host ua true x y g p q = p
  if-ForRobots around request host ua false x y g p q = q

  -- Fetches of the other endpoints
  others-ForRobots :
      (around : Around N) (request : Request) (host ua : Text) (rest : List Endpoint) (f : State)
      → any (endpoint_beq robots) rest ≡ false
      → ForRobots (inspect_fetch A N parsers L U around host rest ua request.allow_private f) f
  others-ForRobots around request host ua rest f alone =
      inspect_fetch-apart A N parsers L U around host rest ua request.allow_private robots f alone

  -- robots.txt alone, and at the head of others
  first-ForRobots :
      (around : Around N) (request : Request) (host ua : Text) (rest : List Endpoint) (f : State)
      → ForRobots
          (inspect_fetch A N parsers L U around host (robots ∷ []) ua request.allow_private f)
          (inspect_fetch A N parsers L U around host (robots ∷ rest) ua request.allow_private f)
  first-ForRobots around request host ua rest f =
      Agree-trans A N parsers L U robots _ _ _
        (inspect_fetch-first A N parsers L U around host robots [] ua request.allow_private f)
        (Agree-sym A N parsers L U robots _ _
          (inspect_fetch-first A N parsers L U around host robots rest ua request.allow_private f))

  no_robots-ForRobots :
      (around : Around N) (request : Request) (host ua : Text) (missing : List Endpoint) (f : State)
      → any (endpoint_beq robots) missing ≡ false
      → ForRobots
          (final around request host ua (stop_early around request host ua missing f))
          (final around request host ua (none, missing, f))
  unfolding early_stop
  no_robots-ForRobots around request host ua missing f alone =
      let stopped : Option Reason × List Endpoint × State =
        (some (Reason.stop_on_forbidden []), [], f) in
      let same : stop_early around request host ua missing f ≡ (
          if forbids A N urlsplit parsers evaluate default_user_agent L U request.url ua f
          then stopped
          else (none, missing, f)) =
        simp (alone) in
      let goal =
        if-ForRobots around request host ua
          (forbids A N urlsplit parsers evaluate default_user_agent L U request.url ua f) stopped
          (none, missing, f) (final around request host ua (none, missing, f))
          (Agree-trans A N parsers L U robots _ _ _
            (others-ForRobots around request host ua [] f refl)
            (Agree-sym A N parsers L U robots _ _
              (others-ForRobots around request host ua missing f alone)))
          (Agree-refl A N parsers L U robots _) in
      subst
        (λ x.
          ForRobots (final around request host ua x)
            (final around request host ua (none, missing, f)))
        (sym same) goal

  unknown-forbids :
      (url ua : Text) (f : State)
      → IsUnknown f
      → forbids A N urlsplit parsers evaluate default_user_agent L U url ua f ≡ false
  unfolding robots_forbids compose signing_section llms_section ai_section applicable robots_section
  unknown-forbids url ua f (p, q) = rw (p, q) refl

  robots_alone-ForRobots :
      (around : Around N) (request : Request) (host ua : Text) (f : State)
      → IsUnknown f
      → ForRobots
          (final around request host ua (stop_early around request host ua (robots ∷ []) f))
          (final around request host ua (none, robots ∷ [], f))
  unfolding early_stop
  robots_alone-ForRobots around request host ua f unknown =
      let same : stop_early around request host ua (robots ∷ []) f ≡ (none, robots ∷ [], f) =
        simp (unknown-forbids request.url ua f unknown) in
      subst
        (λ x.
          ForRobots (final around request host ua x)
            (final around request host ua (none, robots ∷ [], f)))
        (sym same) (Agree-refl A N parsers L U robots _)

  robots_led-ForRobots :
      (around : Around N) (request : Request) (host ua : Text) (r : Endpoint) (rs : List Endpoint)
      (f : State)
      → any (endpoint_beq robots) (r ∷ rs) ≡ false
      → ForRobots
          (final around request host ua (stop_early around request host ua (robots ∷ (r ∷ rs)) f))
          (final around request host ua (none, robots ∷ (r ∷ rs), f))
  unfolding early_stop without_first
  robots_led-ForRobots around request host ua r rs f alone =
      let after =
        inspect_fetch A N parsers L U around host (robots ∷ []) ua request.allow_private f in
      let there = first-ForRobots around request host ua (r ∷ rs) f in
      let forbidding =
        forbids A N urlsplit parsers evaluate default_user_agent L U request.url ua after in
      let stopped : Option Reason × List Endpoint × State =
        (some (Reason.stop_on_forbidden (r ∷ rs)), [], after) in
      let long : ltb 1 (length (robots ∷ (r ∷ rs))) ≡ true =
        lt→ltb 1 (length (robots ∷ (r ∷ rs))) (omega arith) in
      let same : stop_early around request host ua (robots ∷ (r ∷ rs)) f
          ≡ (if forbidding then stopped else (none, r ∷ rs, after)) =
        simp (long) in
      let goal =
        if-ForRobots around request host ua forbidding stopped (none, r ∷ rs, after)
          (final around request host ua (none, robots ∷ (r ∷ rs), f))
          (Agree-trans A N parsers L U robots _ _ _
            (others-ForRobots around request host ua [] after refl) there)
          (Agree-trans A N parsers L U robots _ _ _
            (others-ForRobots around request host ua (r ∷ rs) after alone) there) in
      subst
        (λ x.
          ForRobots (final around request host ua x)
            (final around request host ua (none, robots ∷ (r ∷ rs), f)))
        (sym same) goal

  -- Names among which robots.txt can only be the first, and then nothing is known of it.
  abbrev pub IsLed : List Endpoint → State → Type 0
  IsLed missing f =
      (any (endpoint_beq robots) missing ≡ false)
      ⊎ ((rest : List Endpoint) × (missing ≡ robots ∷ rest)
          × (any (endpoint_beq robots) rest ≡ false)
          × IsUnknown f)

  -- Whatever the early stop does, what is found of robots.txt is the same.
  pub final-ForRobots :
      (around : Around N) (request : Request) (host ua : Text) (missing : List Endpoint) (f : State)
      → IsLed missing f
      → ForRobots
          (final around request host ua (stop_early around request host ua missing f))
          (final around request host ua (none, missing, f))
  final-ForRobots around request host ua missing f (inl alone) =
      no_robots-ForRobots around request host ua missing f alone
  final-ForRobots around request host ua missing f (inr ([], led, alone, unknown)) =
      subst
        (λ m.
          ForRobots (final around request host ua (stop_early around request host ua m f))
            (final around request host ua (none, m, f)))
        (sym led) (robots_alone-ForRobots around request host ua f unknown)
  final-ForRobots around request host ua missing f (inr (r ∷ rs, led, alone, unknown)) =
      subst
        (λ m.
          ForRobots (final around request host ua (stop_early around request host ua m f))
            (final around request host ua (none, m, f)))
        (sym led) (robots_led-ForRobots around request host ua r rs f alone)

  -- Whether the policy is forbidden depends on what is found of robots.txt.
  abbrev pub policy_of : Request → Text → ℕ → Option Reason → State → SitePolicy
  policy_of request ua built_at skipped f =
      build_policy urlsplit evaluate request.url ua (parsed_of f.raw) f.errors skipped built_at

  pub policy_of-ForRobots :
      (request : Request) (ua : Text) (built_at : ℕ) (s t : Option Reason) (f g : State)
      → ForRobots f g
      → (policy_of request ua built_at s f).verdict ≡ forbidden
      → (policy_of request ua built_at t g).verdict ≡ forbidden
  unfolding parsed_of
  policy_of-ForRobots request ua built_at s t f g same h =
      let (to_f, from_f) =
        robots_forbids_iff urlsplit evaluate request.url ua (parsed_of f.raw) f.errors s built_at in
      let (to_g, from_g) =
        robots_forbids_iff urlsplit evaluate request.url ua (parsed_of g.raw) g.errors t built_at in
      to_g (rw (← same.same_value, ← same.same_error) (from_f h))
