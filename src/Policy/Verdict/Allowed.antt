-- ===== src/Policy/Verdict/Allowed.antt =====
-- When `compute_verdict` allows, in terms of what was fetched.
use wbauth.Prelude.{
  Bool, true, false, ◌≡◌, ◌↔◌, refl, ◌∙◌, Option, none, some, List, [], ◌∷◌, ◌++◌, arith,
  if◌then◌else◌, is_empty, length, not, is_some, ◌&&◌, ◌||◌, All, filter,
}
use wbauth.Text.{Text}
use wbauth.Dict.{Dict, get}
use wbauth.Policy.Errors.{Exception, robots_parse_error, http_status_error, too_many_redirects}
use wbauth.Policy.Types.{
  Endpoint, robots, endpoint_eq, RobotsResult, AiTxtResult, LlmsTxtResult, SigningDirectoryResult,
  Reason, allowed,
}
use wbauth.Policy.Verdict.{
  Signals, no_signals, restrict, reason, snippet, robots_error, robots_section, applicable,
  ai_applicable, ai_section, llms_phrase, llms_section, signing_section, compose, compute_verdict,
  signals,
}
use wbauth.Policy.Verdict.Paths.{restriction_applies}
use wbauth.Policy.Verdict.Phrases.{restrictive_phrase}
use wbauth.Policy.Verdict.Outcome.{Unavailable, is_unavailable_status_iff, forbids, forbids-signals}

-- robots.txt allows the path, or is not published.
abbrev pub RobotsClears : Option Exception → Option RobotsResult → Type 0
RobotsClears (some (http_status_error status)) r = Unavailable status
RobotsClears (some too_many_redirects) r = Unit
RobotsClears (some _) r = ⊥
RobotsClears none none = ⊥
RobotsClears none (some r) = r.can_fetch_url ≡ true

abbrev pub AiClears : Option AiTxtResult → Option Text → Type 0
AiClears none path = Unit
AiClears (some a) path = All (λ rule. restriction_applies rule path ≡ false) a.restrictions

abbrev pub LlmsClears : Option LlmsTxtResult → Type 0
LlmsClears none = Unit
LlmsClears (some l) = restrictive_phrase l.description ≡ none

abbrev clears : Signals → Bool
clears s = is_empty s.restricted_signals

ai_clears-nil :
    (rules : List Text) (path : Option Text)
    → (filter (λ r. restriction_applies r path) rules ≡ [])
      ↔ All (λ rule. restriction_applies rule path ≡ false) rules
ai_clears-nil [] path = (λ h. tt, λ h. refl)
ai_clears-nil (rule ∷ rules) path =
    let (to, from) = ai_clears-nil rules path in
    (λ h. ground (arith, to), λ h. ground (arith, from))

is_empty-concat : {A : Type 0} (xs : List A) (x : A) → is_empty (xs ++ x ∷ []) ≡ false
is_empty-concat [] x = refl
is_empty-concat (y ∷ xs) x = refl

clears-restrict : (r : Reason) (s : Signals) → clears (restrict r s) ≡ false
clears-restrict r s = is_empty-concat s.restricted_signals r

clears-ai_applicable :
    (rules : List Text) (a : Option AiTxtResult) (s : Signals)
    → (clears (ai_applicable rules a s) ≡ true) ↔ ((clears s ≡ true) × (rules ≡ []))
unfolding ai_applicable
clears-ai_applicable [] a s = (λ h. ground arith, λ h. ground arith)
clears-ai_applicable (first ∷ more) a s = (
  λ h. cc (
      is_empty-concat s.restricted_signals
        (Reason.ai_restrictions (snippet first) (length (first ∷ more)))),
  λ h. cc (h.1),
)

clears-ai_section :
    (a : Option AiTxtResult) (path : Option Text) (s : Signals)
    → (clears (ai_section a path s) ≡ true) ↔ ((clears s ≡ true) × AiClears a path)
unfolding ai_section applicable
clears-ai_section none path s =
    let (to, from) = clears-ai_applicable [] none s in (λ h. ((to h).0, tt), λ h. from (h.0, refl))
clears-ai_section (some a) path s =
    let (to, from) = clears-ai_applicable (applicable (some a) path) (some a) s in
    let (each, none_left) = ai_clears-nil a.restrictions path in
    (λ h. ((to h).0, each (to h).1), λ h. from (h.0, none_left h.1))

clears-llms_phrase :
    (phrase : Option Text) (s : Signals)
    → (clears (llms_phrase phrase s) ≡ true) ↔ ((clears s ≡ true) × (phrase ≡ none))
unfolding llms_phrase
clears-llms_phrase none s = (λ h. (h, refl), λ h. h.0)
clears-llms_phrase (some phrase) s = (
  λ h. cc (is_empty-concat s.restricted_signals (Reason.llms_no_automated_access phrase)),
  λ h. cc (h.1),
)

phrase-nil : restrictive_phrase [] ≡ none
unfolding restrictive_phrase
phrase-nil = refl

clears-described :
    (description : Text) (s : Signals)
    → (clears (if is_empty description then s else llms_phrase (restrictive_phrase description) s)
        ≡ true)
      ↔ ((clears s ≡ true) × (restrictive_phrase description ≡ none))
clears-described [] s = (λ h. (h, phrase-nil), λ h. h.0)
clears-described (c ∷ t) s = clears-llms_phrase (restrictive_phrase (c ∷ t)) s

clears-llms_section :
    (l : Option LlmsTxtResult) (s : Signals)
    → (clears (llms_section l s) ≡ true) ↔ ((clears s ≡ true) × LlmsClears l)
unfolding llms_section
clears-llms_section none s = (λ h. (h, tt), λ h. h.0)
clears-llms_section (some l) s = clears-described l.description (reason Reason.llms_present s)

clears-signing_section :
    (d : Option SigningDirectoryResult) (s : Signals) → clears (signing_section d s) ≡ clears s
unfolding signing_section
clears-signing_section d s = ground arith

unavailable-signing_section :
    (d : Option SigningDirectoryResult) (s : Signals)
    → (signing_section d s).unavailable ≡ s.unavailable
unfolding signing_section
unavailable-signing_section d s = ground arith

unavailable-llms_section :
    (l : Option LlmsTxtResult) (s : Signals) → (llms_section l s).unavailable ≡ s.unavailable
unfolding llms_section
unavailable-llms_section l s = ground arith

unavailable-ai_section :
    (a : Option AiTxtResult) (path : Option Text) (s : Signals)
    → (ai_section a path s).unavailable ≡ s.unavailable
unfolding ai_section
unavailable-ai_section a path s = ground arith

unavailable-sections :
    (a : Option AiTxtResult) (l : Option LlmsTxtResult) (d : Option SigningDirectoryResult)
    (path : Option Text) (s : Signals)
    → (signing_section d (llms_section l (ai_section a path s))).unavailable ≡ s.unavailable
unavailable-sections a l d path s =
    unavailable-signing_section d (llms_section l (ai_section a path s))
    ∙ unavailable-llms_section l (ai_section a path s)
    ∙ unavailable-ai_section a path s

-- robots.txt stands for the request exactly when it adds no signal and was read or not published.
robots_clears :
    (e : Option Exception) (r : Option RobotsResult)
    → ((forbids (robots_section e r no_signals) ≡ false)
        × (clears (robots_section e r no_signals) ≡ true)
        × (((is_some r && not (is_some e)) || (robots_section e r no_signals).unavailable) ≡ true))
      ↔ RobotsClears e r
unfolding robots_section robots_error
robots_clears (some (http_status_error status)) r = (
  λ h. ground (arith, is_unavailable_status_iff status),
  λ h. ground (arith, is_unavailable_status_iff status),
)
robots_clears (some robots_parse_error) r = (λ h. ground arith, λ h. absurd h)
robots_clears none (some r) = (λ h. ground arith, λ h. ground arith)
robots_clears e r = (λ h. ground arith, λ h. ground arith)

allowed-compose :
    (clean partial : Bool) (errors : Dict Endpoint Exception) (s : Signals)
    → ((compose clean partial errors s).0 ≡ allowed)
      ↔ ((forbids s ≡ false) × (clears s ≡ true) × (clean ≡ true) × (partial ≡ false))
unfolding compose
allowed-compose clean partial errors s = (λ h. ground arith, λ h. ground arith)

-- The verdict is `allowed` exactly when nothing failed that counts as partial, robots.txt was
-- fetched and allows the path, or is not published (4xx but 429, or too many redirects), no
-- ai.txt restriction applies to the path, and the llms.txt description holds no phrase against
-- automated access.
pub compute_verdict-allowed_iff :
    (r : Option RobotsResult) (a : Option AiTxtResult) (l : Option LlmsTxtResult)
    (d : Option SigningDirectoryResult) (errors : Dict Endpoint Exception) (partial : Bool)
    (path : Option Text)
    → ((compute_verdict r a l d errors partial path).0 ≡ allowed)
      ↔ (RobotsClears (get robots errors) r × AiClears a path × LlmsClears l × (partial ≡ false))
unfolding compute_verdict
compute_verdict-allowed_iff r a l d errors partial path =
    let e = get robots errors in
    let s₀ = robots_section e r no_signals in
    let s₁ = ai_section a path s₀ in
    let s₂ = llms_section l s₁ in
    let s = signals e r a l d path in
    ground (
      arith,
      allowed-compose ((is_some r && not (is_some e)) || s.unavailable) partial errors s,
      robots_clears e r,
      forbids-signals e r a l d path,
      clears-signing_section d s₂,
      clears-llms_section l s₁,
      clears-ai_section a path s₀,
      unavailable-sections a l d path s₀,
    )
