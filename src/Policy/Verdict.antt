-- ===== src/Policy/Verdict.antt =====
-- `compute_verdict` of policy/verdict.py, branch by branch: each section of the function adds to
-- the three lists of signals, and the composition reads them.
pub mod Paths
pub mod Phrases
pub mod Reasons
pub mod Grading
pub mod Outcome
pub mod Allowed
use wbauth.Prelude.{
  ℕ, ◌-◌, Bool, true, false, not, ◌&&◌, ◌||◌, Option, none, some, List, [], ◌∷◌, ◌++◌, arith, ltb,
  leb, ◌==◌, if◌then◌else◌, filter, length, take, is_empty, is_some,
}
use wbauth.Text.{Text, str}
use wbauth.Dict.{Dict, get, has}
use wbauth.Policy.Errors.{
  Exception, robots_parse_error, private_address_error, fetch_error, http_status_error,
  too_many_redirects, timeout_exception, request_error, other,
}
use wbauth.Policy.Types
use wbauth.Policy.Types.{
  Endpoint, robots, ai_txt, llms_txt, signing_directory, endpoint_eq, RobotsResult, AiTxtResult,
  LlmsTxtResult, SigningDirectoryResult, Verdict, allowed, restricted, forbidden, Reason,
}
use Paths.{restriction_applies}
use Phrases.{restrictive_phrase}

-- RFC 9309: 4xx, but 429, is "unavailable".
unfoldable pub is_unavailable_status : ℕ → Bool
is_unavailable_status status = leb 400 status && ltb status 500 && not (status == 429)

-- The local variables of `compute_verdict`.
pub record Signals : Type 0 where
  pub reasons : List Reason
  pub forbidden_signals : List Reason
  pub restricted_signals : List Reason
  pub unavailable : Bool

abbrev pub no_signals : Signals
no_signals = record {
  reasons = [];
  forbidden_signals = [];
  restricted_signals = [];
  unavailable = false;
}

abbrev pub reason : Reason → Signals → Signals
reason r s = record s { reasons = s.reasons ++ r ∷ [] }

abbrev pub forbid : Reason → Signals → Signals
forbid r s = record s { forbidden_signals = s.forbidden_signals ++ r ∷ [] }

abbrev pub restrict : Reason → Signals → Signals
restrict r s = record s { restricted_signals = s.restricted_signals ++ r ∷ [] }

abbrev crawl_delay_reason : Option ℕ → Signals → Signals
crawl_delay_reason none s = s
crawl_delay_reason (some d) s = if d == 0 then s else reason (Reason.robots_crawl_delay d) s

-- the branch without an error
robots_result : Option RobotsResult → Signals → Signals
robots_result none s = s
robots_result (some r) s =
    crawl_delay_reason r.crawl_delay
      (if r.can_fetch_url then reason Reason.robots_allows s else forbid Reason.robots_disallows s)

-- the ladder of `isinstance` tests on `errors.get("robots")`
robots_error : Option Exception → Option RobotsResult → Signals → Signals
unfolding is_unavailable_status robots_result
robots_error (some robots_parse_error) r s = forbid Reason.robots_unparseable s
robots_error (some (private_address_error m)) r s =
    forbid (Reason.robots_refused (private_address_error m)) s
robots_error (some (http_status_error status)) r s =
    if is_unavailable_status status
    then record (reason (Reason.robots_unavailable (status == 404 || status == 410) status) s) {
      unavailable = true;
    }
    else forbid (Reason.robots_unreachable status) s
robots_error (some too_many_redirects) r s = record (reason Reason.robots_redirect_limit s) {
  unavailable = true;
}
robots_error (some timeout_exception) r s = forbid Reason.robots_timed_out s
robots_error (some (request_error m)) r s = forbid (Reason.robots_not_reached (request_error m)) s
robots_error (some e) r s = restrict (Reason.robots_not_evaluated e) s
robots_error none r s = robots_result r s

-- `reasons.insert(0, …)`
abbrev evaluated : Option RobotsResult → Signals → Signals
evaluated none s = s
evaluated (some r) s = record s {
  reasons = Reason.evaluated_against r.user_agent_evaluated ∷ s.reasons;
}

unfoldable pub robots_section : Option Exception → Option RobotsResult → Signals → Signals
unfolding robots_error
robots_section e r s = evaluated r (robots_error e r s)

abbrev pub snippet : Text → Text
snippet first = take 60 first ++ (if ltb 60 (length first) then str "..." else [])

-- the restrictions that apply to the path
unfoldable pub applicable : Option AiTxtResult → Option Text → List Text
applicable none path = []
applicable (some a) path = filter (λ r. restriction_applies r path) a.restrictions

ai_otherwise : Option AiTxtResult → Signals → Signals
ai_otherwise none s = s
ai_otherwise (some a) s =
    if not (is_empty a.restrictions)
    then reason (Reason.ai_restrictions_elsewhere (length a.restrictions)) s
    else if not (is_empty a.permissions)
    then reason Reason.ai_permissions s
    else s

ai_applicable : List Text → Option AiTxtResult → Signals → Signals
unfolding ai_otherwise
ai_applicable (first ∷ more) a s =
    restrict (Reason.ai_restrictions (snippet first) (length (first ∷ more))) s
ai_applicable [] a s = ai_otherwise a s

unfoldable pub ai_section : Option AiTxtResult → Option Text → Signals → Signals
unfolding ai_applicable
ai_section a path s = ai_applicable (applicable a path) a s

llms_phrase : Option Text → Signals → Signals
llms_phrase none s = s
llms_phrase (some phrase) s = restrict (Reason.llms_no_automated_access phrase) s

unfoldable pub llms_section : Option LlmsTxtResult → Signals → Signals
unfolding llms_phrase
llms_section none s = s
llms_section (some l) s =
    let s' = reason Reason.llms_present s in
    if is_empty l.description then s' else llms_phrase (restrictive_phrase l.description) s'

unfoldable pub signing_section : Option SigningDirectoryResult → Signals → Signals
signing_section none s = s
signing_section (some d) s = if d.present then reason Reason.signing_published s else s

-- `sorted(errors.keys())`: the names in their order, those that are keys
unfoldable pub sorted_names : Dict Endpoint Exception → List Endpoint
unfolding get
sorted_names errors =
    filter (λ n. has n errors) (ai_txt ∷ llms_txt ∷ robots ∷ signing_directory ∷ [])

-- the last part of the function
unfoldable pub compose : Bool → Bool → Dict Endpoint Exception → Signals → Verdict × List Reason
unfolding sorted_names
compose robots_clean partial errors s =
    if not (is_empty s.forbidden_signals)
    then (forbidden, s.reasons ++ s.forbidden_signals ++ s.restricted_signals)
    else if not (is_empty s.restricted_signals)
    then (restricted, s.reasons ++ s.restricted_signals)
    else if robots_clean
    then (if partial
        then (restricted, s.reasons ++ Reason.partial_fetch (sorted_names errors) ∷ [])
        else (allowed, s.reasons))
    else (restricted, s.reasons ++ Reason.insufficient_signal ∷ [])

abbrev pub signals :
    Option Exception
    → Option RobotsResult
    → Option AiTxtResult
    → Option LlmsTxtResult
    → Option SigningDirectoryResult
    → Option Text
    → Signals
signals e r a l d path =
    signing_section d (llms_section l (ai_section a path (robots_section e r no_signals)))

unfoldable pub compute_verdict :
    Option RobotsResult
    → Option AiTxtResult
    → Option LlmsTxtResult
    → Option SigningDirectoryResult
    → Dict Endpoint Exception
    → Bool
    → Option Text
    → Verdict × List Reason
compute_verdict r a l d errors partial path =
    let e = get robots errors in
    let s = signals e r a l d path in
    compose ((is_some r && not (is_some e)) || s.unavailable) partial errors s
