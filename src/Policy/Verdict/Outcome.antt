-- ===== src/Policy/Verdict/Outcome.antt =====
-- When `compute_verdict` forbids, in terms of what was fetched.
use wbauth.Prelude.{
  ℕ, ◌≤◌, ◌<◌, Bool, true, false, ◌≡◌, ◌≢◌, ◌↔◌, sym, ap, ◌∙◌, Option, none, some, arith, is_empty,
  not, is_some, ◌&&◌, ◌||◌,
}
use wbauth.Text.{Text}
use wbauth.Dict.{Dict, get}
use wbauth.Policy.Errors.{
  Exception, robots_parse_error, private_address_error, http_status_error, timeout_exception,
  request_error,
}
use wbauth.Policy.Types.{
  Endpoint, robots, endpoint_eq, RobotsResult, AiTxtResult, LlmsTxtResult, SigningDirectoryResult,
  forbidden,
}
use wbauth.Policy.Verdict.{
  Signals, no_signals, is_unavailable_status, robots_error, robots_section, ai_section,
  llms_section, signing_section, compose, compute_verdict, signals,
}

-- The status of a policy file that is not published: no restriction follows from it.
abbrev pub Unavailable : ℕ → Type 0
Unavailable status = (400 ≤ status) × (status < 500) × (status ≢ 429)

-- robots.txt stands against the request: it disallows the path, it could not be trusted, or it
-- could not be reached.
abbrev pub RobotsForbids : Option Exception → Option RobotsResult → Type 0
RobotsForbids (some robots_parse_error) r = Unit
RobotsForbids (some (private_address_error m)) r = Unit
RobotsForbids (some (http_status_error status)) r = (Unavailable status → ⊥)
RobotsForbids (some timeout_exception) r = Unit
RobotsForbids (some (request_error m)) r = Unit
RobotsForbids (some _) r = ⊥
RobotsForbids none none = ⊥
RobotsForbids none (some r) = r.can_fetch_url ≡ false

abbrev pub forbids : Signals → Bool
forbids s = not (is_empty s.forbidden_signals)

pub is_unavailable_status_iff :
    (status : ℕ) → (is_unavailable_status status ≡ true) ↔ Unavailable status
unfolding is_unavailable_status
is_unavailable_status_iff status = (λ h. ground arith, λ h. ground arith)

pub forbids-robots_section :
    (e : Option Exception) (r : Option RobotsResult)
    → (forbids (robots_section e r no_signals) ≡ true) ↔ RobotsForbids e r
unfolding robots_section robots_error
forbids-robots_section (some (http_status_error status)) r = (
  λ h u. ground (arith, is_unavailable_status_iff status),
  λ h. ground (arith, is_unavailable_status_iff status),
)
forbids-robots_section (some robots_parse_error) r = (λ h. tt, λ h. ground arith)
forbids-robots_section none (some r) = (λ h. ground arith, λ h. ground arith)
forbids-robots_section e r = (λ h. ground arith, λ h. ground arith)

forbids-ai_section :
    (a : Option AiTxtResult) (path : Option Text) (s : Signals)
    → (ai_section a path s).forbidden_signals ≡ s.forbidden_signals
unfolding ai_section
forbids-ai_section a path s = ground arith

forbids-llms_section :
    (l : Option LlmsTxtResult) (s : Signals)
    → (llms_section l s).forbidden_signals ≡ s.forbidden_signals
unfolding llms_section
forbids-llms_section l s = ground arith

forbids-signing_section :
    (d : Option SigningDirectoryResult) (s : Signals)
    → (signing_section d s).forbidden_signals ≡ s.forbidden_signals
unfolding signing_section
forbids-signing_section d s = ground arith

module _ (e : Option Exception) (r : Option RobotsResult) (a : Option AiTxtResult)
    (l : Option LlmsTxtResult) (d : Option SigningDirectoryResult) (path : Option Text) where
  pub forbids-signals : forbids (signals e r a l d path) ≡ forbids (robots_section e r no_signals)
  forbids-signals =
      let s = robots_section e r no_signals in
      let s' = ai_section a path s in
      ap (λ rs. not (is_empty rs))
        (forbids-signing_section d (llms_section l s')
          ∙ forbids-llms_section l s'
          ∙ forbids-ai_section a path s)

forbids-compose :
    (clean partial : Bool) (errors : Dict Endpoint Exception) (s : Signals)
    → ((compose clean partial errors s).0 ≡ forbidden) ↔ (forbids s ≡ true)
unfolding compose
forbids-compose clean partial errors s = (λ h. ground arith, λ h. ground arith)

-- The verdict is `forbidden` exactly when robots.txt stands against the request, whatever the other
-- endpoints say: it was fetched and disallows the path, or its fetch failed with a page that is no
-- robots.txt, a refused address, a status that is not 4xx or is 429, a timeout, or another
-- `RequestError` that is not `TooManyRedirects`.
pub compute_verdict-forbidden_iff :
    (r : Option RobotsResult) (a : Option AiTxtResult) (l : Option LlmsTxtResult)
    (d : Option SigningDirectoryResult) (errors : Dict Endpoint Exception) (partial : Bool)
    (path : Option Text)
    → ((compute_verdict r a l d errors partial path).0 ≡ forbidden)
      ↔ RobotsForbids (get robots errors) r
unfolding compute_verdict
compute_verdict-forbidden_iff r a l d errors partial path =
    let e = get robots errors in
    let s = signals e r a l d path in
    let (down, up) =
      forbids-compose ((is_some r && not (is_some e)) || s.unavailable) partial errors s in
    let (there, back) = forbids-robots_section e r in
    let same = forbids-signals e r a l d path in
    (λ h. there (sym same ∙ down h), λ h. up (same ∙ back h))
