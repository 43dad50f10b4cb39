-- ===== src/Policy/Inspector/Run/Choices.antt =====
-- What the arguments `stop_on_forbidden` and `endpoints` of `inspect` in policy/inspector.py change.
use mathlib.Core.Path.{subst}
use wbauth.Prelude.{
  ℕ, true, false, ◌&&◌, ◌≡◌, ◌↔◌, inl, inr, refl, sym, ◌∙◌, Option, none, some, List, [], ◌∷◌, any,
  filter, is_some, Option-cases,
}
use wbauth.Text.{Text}
use wbauth.Dict.{get}
use wbauth.Urls.{UrlSplit}
use wbauth.Policy.Types.{
  Endpoint, robots, ai_txt, llms_txt, signing_directory, endpoint_eq, endpoint_beq, RobotsResult,
  SitePolicy, forbidden,
}
use wbauth.Policy.Cache.Entries.{CacheEntry, Key, Now, PolicyCache}
use wbauth.Policy.Cache.Host.{normalize_host}
use wbauth.Policy.Cache.Store.{StoreLaws}
use wbauth.Policy.Inspector.Private.{Addresses}
use wbauth.Policy.Inspector.Fetch.{Network}
use wbauth.Policy.Inspector.Endpoints.{Item, Parsers, origin_host, endpoint_names, wanted_of}
use wbauth.Policy.Inspector.Round.{Around, Findings}
use wbauth.Policy.Inspector.Round.Apart.{Agree, Agree-sym}
use wbauth.Policy.Inspector.Round.Whole.{any-filter}
use wbauth.Policy.Inspector.Run.{
  Request, agent_name, look_up, nothing_found, early_stop, concluded, inspect,
}
use wbauth.Policy.Inspector.Run.Looking.{look_up-missing, look_up-apart, is_missing}
use wbauth.Policy.Inspector.Run.Stopping.{
  IsLed, stopping, final, stop_early, final-ForRobots, policy_of-ForRobots,
}

module _ {Source : Type 0} (A : Addresses) (N : Network) (urlsplit : UrlSplit)
    (parsers : Parsers Source) (evaluate : Source → Text → Text → RobotsResult)
    (default_user_agent : Text) (L : StoreLaws Key (CacheEntry (Item Source)))
    (U : StoreLaws Key (CacheEntry (Item Source))) where
  abbrev State : Type 0
  State = Findings A N parsers L U

  abbrev pub inspects :
      (first second : Around N)
      → Now
      → ℕ
      → Request
      → PolicyCache L U
      → Option (SitePolicy × PolicyCache L U)
  inspects = inspect A N urlsplit parsers evaluate default_user_agent L U

  -- the state behind the loop over the cache
  abbrev pub looked_up : Now → Text → List Endpoint → PolicyCache L U → List Endpoint × State
  looked_up now host wanted cache =
      look_up A N urlsplit parsers evaluate default_user_agent L U now host wanted
        ([], nothing_found A N urlsplit parsers evaluate default_user_agent L U cache)

  abbrev pub held : Now → Text → PolicyCache L U → Endpoint → Option (CacheEntry (Item Source))
  held now host cache ep = L.read now.mono (normalize_host host, ep) cache.cache

  pub looked_up-missing :
      (now : Now) (host : Text) (wanted : List Endpoint) (cache : PolicyCache L U)
      → (looked_up now host wanted cache).0
        ≡ filter
            (is_missing A N urlsplit parsers evaluate default_user_agent L U (held now host cache))
            wanted
  looked_up-missing now host wanted cache =
      look_up-missing A N urlsplit parsers evaluate default_user_agent L U now host
        (held now host cache) wanted []
        (nothing_found A N urlsplit parsers evaluate default_user_agent L U cache) (λ ep. refl)

  pub looked_up-apart :
      (now : Now) (host : Text) (ep : Endpoint) (wanted : List Endpoint) (cache : PolicyCache L U)
      → any (λ e. endpoint_beq ep e && is_some (held now host cache e)) wanted ≡ false
      → Agree A N parsers L U ep
          (looked_up now host wanted cache).1
          (nothing_found A N urlsplit parsers evaluate default_user_agent L U cache)
  looked_up-apart now host ep wanted cache h =
      look_up-apart A N urlsplit parsers evaluate default_user_agent L U now host
        (held now host cache) ep wanted []
        (nothing_found A N urlsplit parsers evaluate default_user_agent L U cache) (λ x. refl) h

  looked_up-IsLed :
      (now : Now) (host : Text) (cache : PolicyCache L U)
      → let state = looked_up now host endpoint_names cache in
        IsLed A N urlsplit parsers evaluate default_user_agent L U state.0 state.1
  unfolding get
  looked_up-IsLed now host cache =
      let others = ai_txt ∷ (llms_txt ∷ (signing_directory ∷ [])) in
      let m =
        is_missing A N urlsplit parsers evaluate default_user_agent L U (held now host cache) in
      let names = looked_up-missing now host endpoint_names cache in
      let alone = any-filter A N parsers L U (endpoint_beq robots) m others refl in
      elim (Option-cases (held now host cache robots)) [
        | inl no_entry ↦
            let unknown =
              looked_up-apart now host robots endpoint_names cache (rw (no_entry) refl) in
            inr (
              filter m others,
              names ∙ rw (no_entry) refl,
              alone,
              (unknown.same_value, unknown.same_error),
            )
        | inr (entry, there) ↦ inl (rw (names, there) alone)
      ]

  pub inspect-concluded :
      (first second : Around N) (now : Now) (built_at : ℕ) (request : Request)
      (cache c : PolicyCache L U) (p : SitePolicy) (host : Text) (wanted : List Endpoint)
      → origin_host urlsplit request.url ≡ some host
      → wanted_of request.endpoints ≡ some wanted
      → inspects first second now built_at request cache ≡ some (p, c)
      → concluded A N urlsplit parsers evaluate default_user_agent L U first second built_at request
          host
          (agent_name default_user_agent request.user_agent)
          (looked_up now host wanted cache)
        ≡ (p, c)
  unfolding inspect
  inspect-concluded first second now built_at request cache c p host wanted h w e =
      cc (rw (inspects, inspect, h, w) at e)

  pub inspect-host :
      (first second : Around N) (now : Now) (built_at : ℕ) (request : Request)
      (cache c : PolicyCache L U) (p : SitePolicy)
      → inspects first second now built_at request cache ≡ some (p, c)
      → (host : Text) × (origin_host urlsplit request.url ≡ some host)
  unfolding inspect
  inspect-host first second now built_at request cache c p e =
      elim (Option-cases (origin_host urlsplit request.url)) [
        | inl no_host ↦ absurd (cc (rw (inspects, inspect, no_host) at e))
        | inr host ↦ host
      ]

  -- Whether a site is forbidden does not depend on the early stop: with `stop_on_forbidden` and
  -- without, the same answers to an inspection of all endpoints lead to a forbidden policy or not.
  pub stop_on_forbidden_iff :
      (around : Around N) (now : Now) (built_at : ℕ) (request : Request)
      (cache c d : PolicyCache L U) (p q : SitePolicy)
      → request.endpoints ≡ none
      → inspects around around now built_at (record request { stop_on_forbidden = true }) cache
        ≡ some (p, c)
      → inspects around around now built_at (record request { stop_on_forbidden = false }) cache
        ≡ some (q, d)
      → (p.verdict ≡ forbidden) ↔ (q.verdict ≡ forbidden)
  unfolding concluded early_stop
  stop_on_forbidden_iff around now built_at request cache c d p q named e g =
      let (host, h) =
        inspect-host around around now built_at
          (stopping A N urlsplit parsers evaluate default_user_agent L U true request) cache c p
          e in
      let w : wanted_of request.endpoints ≡ some endpoint_names = rw (named) refl in
      let ua = agent_name default_user_agent request.user_agent in
      let (missing, f) = looked_up now host endpoint_names cache in
      let stopped =
        inspect-concluded around around now built_at (record request { stop_on_forbidden = true })
          cache c p host endpoint_names h w e in
      let whole =
        inspect-concluded around around now built_at (record request { stop_on_forbidden = false })
          cache d q host endpoint_names h w g in
      let same =
        final-ForRobots A N urlsplit parsers evaluate default_user_agent L U around request host ua
          missing f (looked_up-IsLed now host cache) in
      let early =
        final A N urlsplit parsers evaluate default_user_agent L U around request host ua (
          stop_early A N urlsplit parsers evaluate default_user_agent L U around request host ua
            missing f) in
      let late =
        final A N urlsplit parsers evaluate default_user_agent L U around request host ua
          (none, missing, f) in
      let skipped =
        (stop_early A N urlsplit parsers evaluate default_user_agent L U around request host ua
          missing f).0 in
      (
        λ x.
            subst (λ r. r.0.verdict ≡ forbidden) whole
              (policy_of-ForRobots A N urlsplit parsers evaluate default_user_agent L U request ua
                built_at skipped none early late same
                (subst (λ r. r.0.verdict ≡ forbidden) (sym stopped) x)),
        λ x.
            subst (λ r. r.0.verdict ≡ forbidden) stopped
              (policy_of-ForRobots A N urlsplit parsers evaluate default_user_agent L U request ua
                built_at none skipped late early (Agree-sym A N parsers L U robots early late same)
                (subst (λ r. r.0.verdict ≡ forbidden) (sym whole) x)),
      )
