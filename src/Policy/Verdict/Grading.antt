-- ===== src/Policy/Verdict/Grading.antt =====
-- Each section of `compute_verdict` puts its reasons where their weight says.
use wbauth.Prelude.{
  ℕ, Bool, true, false, ◌≡◌, refl, Option, none, some, List, [], ◌∷◌, ◌++◌, arith, if◌then◌else◌,
  is_empty, length, not, is_some, ◌&&◌, ◌||◌,
}
use wbauth.Text.{Text}
use wbauth.Dict.{Dict, get}
use wbauth.Policy.Errors.{
  Exception, robots_parse_error, private_address_error, http_status_error, too_many_redirects,
  timeout_exception, request_error,
}
use wbauth.Policy.Types.{
  Endpoint, robots, endpoint_eq, RobotsResult, AiTxtResult, LlmsTxtResult, SigningDirectoryResult,
  Reason,
}
use wbauth.Policy.Verdict.{
  Signals, no_signals, is_unavailable_status, robots_error, robots_section, crawl_delay_reason,
  applicable, ai_otherwise, ai_applicable, ai_section, llms_phrase, llms_section, signing_section,
  compose, compute_verdict, signals, sorted_names,
}
use wbauth.Policy.Verdict.Phrases.{restrictive_phrase}
use wbauth.Policy.Verdict.Reasons.{
  severity, worst, worst-append, IsGraded, reason-IsGraded, forbid-IsGraded, restrict-IsGraded,
}

no_signals-IsGraded : IsGraded no_signals
no_signals-IsGraded = record { light = refl; heavy = refl; middle = refl }

if-IsGraded : (b : Bool) {s t : Signals} → IsGraded s → IsGraded t → IsGraded (if b then s else t)
if-IsGraded true g h = g
if-IsGraded false g h = h

unavailable-IsGraded : {s : Signals} → IsGraded s → IsGraded (record s { unavailable = true })
unavailable-IsGraded g = record { light = g.light; heavy = g.heavy; middle = g.middle }

crawl_delay-IsGraded : (d : Option ℕ) {s : Signals} → IsGraded s → IsGraded (crawl_delay_reason d s)
crawl_delay-IsGraded none g = g
crawl_delay-IsGraded (some d) g = if-IsGraded _ g (reason-IsGraded _ refl g)

robots_error-IsGraded :
    (e : Option Exception) (r : Option RobotsResult) {s : Signals}
    → IsGraded s
    → IsGraded (robots_error e r s)
unfolding robots_error
robots_error-IsGraded (some robots_parse_error) r g = forbid-IsGraded _ refl g
robots_error-IsGraded (some (private_address_error m)) r g = forbid-IsGraded _ refl g
robots_error-IsGraded (some (http_status_error status)) r g =
    if-IsGraded (is_unavailable_status status) (unavailable-IsGraded (reason-IsGraded _ refl g))
      (forbid-IsGraded _ refl g)
robots_error-IsGraded (some too_many_redirects) r g =
    unavailable-IsGraded (reason-IsGraded _ refl g)
robots_error-IsGraded (some timeout_exception) r g = forbid-IsGraded _ refl g
robots_error-IsGraded (some (request_error m)) r g = forbid-IsGraded _ refl g
robots_error-IsGraded (some e) r g = restrict-IsGraded _ refl g
robots_error-IsGraded none none g = g
robots_error-IsGraded none (some r) g =
    crawl_delay-IsGraded r.crawl_delay
      (if-IsGraded r.can_fetch_url (reason-IsGraded _ refl g) (forbid-IsGraded _ refl g))

robots_section-IsGraded :
    (e : Option Exception) (r : Option RobotsResult) {s : Signals}
    → IsGraded s
    → IsGraded (robots_section e r s)
unfolding robots_section
robots_section-IsGraded e none g = robots_error-IsGraded e none g
robots_section-IsGraded e (some r) g =
    let h = robots_error-IsGraded e (some r) g in
    record { light = omega (arith, h.light); heavy = h.heavy; middle = h.middle }

ai_otherwise-IsGraded :
    (a : Option AiTxtResult) {s : Signals} → IsGraded s → IsGraded (ai_otherwise a s)
unfolding ai_otherwise
ai_otherwise-IsGraded none g = g
ai_otherwise-IsGraded (some a) g =
    if-IsGraded (not (is_empty a.restrictions))
      (reason-IsGraded (Reason.ai_restrictions_elsewhere (length a.restrictions)) refl g)
      (if-IsGraded (not (is_empty a.permissions)) (reason-IsGraded Reason.ai_permissions refl g) g)

ai_applicable-IsGraded :
    (rules : List Text) (a : Option AiTxtResult) {s : Signals}
    → IsGraded s
    → IsGraded (ai_applicable rules a s)
unfolding ai_applicable
ai_applicable-IsGraded [] a g = ai_otherwise-IsGraded a g
ai_applicable-IsGraded (first ∷ more) a g = restrict-IsGraded _ refl g

llms_phrase-IsGraded :
    (phrase : Option Text) {s : Signals} → IsGraded s → IsGraded (llms_phrase phrase s)
unfolding llms_phrase
llms_phrase-IsGraded none g = g
llms_phrase-IsGraded (some phrase) g = restrict-IsGraded _ refl g

llms_section-IsGraded :
    (l : Option LlmsTxtResult) {s : Signals} → IsGraded s → IsGraded (llms_section l s)
unfolding llms_section
llms_section-IsGraded none g = g
llms_section-IsGraded (some l) g =
    let h = reason-IsGraded Reason.llms_present refl g in
    if-IsGraded (is_empty l.description) h
      (llms_phrase-IsGraded (restrictive_phrase l.description) h)

signing_section-IsGraded :
    (d : Option SigningDirectoryResult) {s : Signals} → IsGraded s → IsGraded (signing_section d s)
unfolding signing_section
signing_section-IsGraded none g = g
signing_section-IsGraded (some d) g = if-IsGraded d.present (reason-IsGraded _ refl g) g

signals-IsGraded :
    (e : Option Exception) (r : Option RobotsResult) (a : Option AiTxtResult)
    (l : Option LlmsTxtResult) (d : Option SigningDirectoryResult) (path : Option Text)
    → IsGraded (signals e r a l d path)
unfolding ai_section
signals-IsGraded e r a l d path = signing_section-IsGraded d (
    llms_section-IsGraded l (
      ai_applicable-IsGraded (applicable a path) a
        (robots_section-IsGraded e r no_signals-IsGraded)))

-- The last part of the function reads the lists in the order of their weight.
compose-severity :
    (clean partial : Bool) (errors : Dict Endpoint Exception) (s : Signals)
    → IsGraded s
    → severity (compose clean partial errors s).0 ≡ worst (compose clean partial errors s).1
unfolding compose
compose-severity clean partial errors s g = ground (
  arith,
  g.light,
  g.heavy,
  g.middle,
  worst-append s.reasons s.forbidden_signals,
  worst-append (s.reasons ++ s.forbidden_signals) s.restricted_signals,
  worst-append s.reasons s.restricted_signals,
  worst-append s.reasons (Reason.partial_fetch (sorted_names errors) ∷ []),
  worst-append s.reasons (Reason.insufficient_signal ∷ []),
)

-- The verdict is as strict as the strictest of the reasons given with it.
pub compute_verdict-IsExplained :
    (r : Option RobotsResult) (a : Option AiTxtResult) (l : Option LlmsTxtResult)
    (d : Option SigningDirectoryResult) (errors : Dict Endpoint Exception) (partial : Bool)
    (path : Option Text)
    → severity (compute_verdict r a l d errors partial path).0
      ≡ worst (compute_verdict r a l d errors partial path).1
unfolding compute_verdict
compute_verdict-IsExplained r a l d errors partial path =
    let e = get robots errors in
    let s = signals e r a l d path in
    compose-severity ((is_some r && not (is_some e)) || s.unavailable) partial errors s
      (signals-IsGraded e r a l d path)
