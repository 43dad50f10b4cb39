-- ===== src/Policy/Inspector/Build.antt =====
-- `_build_policy` and `_robots_forbids` of policy/inspector.py: from what was parsed or failed to the policy. The
-- evaluation of the robots.txt rules is a parameter.
use mathlib.Core.Path.{subst}
use wbauth.Prelude.{
  sym, ℕ, Bool, true, false, not, ◌≡◌, ◌↔◌, refl, Option, none, some, List, [], ◌∷◌, ◌++◌, any,
  if◌then◌else◌, is_empty,
}
use wbauth.Text.{Text, str}
use wbauth.Dict.{get, Dict, values}
use wbauth.Urls.{UrlSplit}
use wbauth.Policy.Errors.{Exception, http_status_error, too_many_redirects}
use wbauth.Policy.Types.{
  Endpoint, RobotsResult, AiTxtResult, LlmsTxtResult, SigningDirectoryResult, Reason, SitePolicy,
  allowed, restricted, forbidden, Verdict, robots, endpoint_eq,
}
use wbauth.Policy.Verdict.{compute_verdict, is_unavailable_status}
use wbauth.Policy.Verdict.Outcome.{RobotsForbids, compute_verdict-forbidden_iff}

-- the dictionary of parsed values, of which robots.txt is still a source
pub record Parsed (Source : Type 0) : Type 0 where
  pub robots : Option Source
  pub ai_txt : Option AiTxtResult
  pub llms_txt : Option LlmsTxtResult
  pub signing_directory : Option SigningDirectoryResult

-- `_is_partial_failure`
unfoldable pub is_partial_failure : Exception → Bool
unfolding is_unavailable_status
is_partial_failure (http_status_error status) = not (is_unavailable_status status)
is_partial_failure too_many_redirects = false
is_partial_failure _ = true

-- `urlsplit(url).path or "/"`
abbrev pub target_path : UrlSplit → Text → Text
target_path urlsplit url = elim (urlsplit url) [
  | none ↦ str "/"
  | some parts ↦ if is_empty parts.path then str "/" else parts.path
]

module _ {Source : Type 0} (urlsplit : UrlSplit)
    (evaluate : Source → Text → Text → RobotsResult) where
  abbrev pub evaluated_robots : Option Source → Text → Text → Option RobotsResult
  evaluated_robots none url ua = none
  evaluated_robots (some source) url ua = some (evaluate source url ua)

  abbrev pub judged : Text → Text → Parsed Source → Dict Endpoint Exception → Verdict × List Reason
  judged url ua raw errors =
      compute_verdict (evaluated_robots raw.robots url ua) raw.ai_txt raw.llms_txt
        raw.signing_directory errors (any is_partial_failure (values errors))
        (some (target_path urlsplit url))

  abbrev pub with_skipped : Option Reason → List Reason → List Reason
  with_skipped none reasons = reasons
  with_skipped (some skipped) reasons = reasons ++ skipped ∷ []

  -- `_build_policy`, at the time `now`
  unfoldable pub build_policy :
      Text
      → Text
      → Parsed Source
      → Dict Endpoint Exception
      → (skipped : Option Reason) → (now : ℕ) → SitePolicy
  unfolding compute_verdict is_partial_failure
  build_policy url ua raw errors skipped now = record {
    url = url;
    robots = evaluated_robots raw.robots url ua;
    ai_txt = raw.ai_txt;
    llms_txt = raw.llms_txt;
    signing_directory = raw.signing_directory;
    verdict = (judged url ua raw errors).0;
    reasons = with_skipped skipped (judged url ua raw errors).1;
    partial = any is_partial_failure (values errors);
    errors = errors;
    fetched_at = now;
  }

  abbrev pub only_robots : Option Exception → Dict Endpoint Exception
  only_robots none = []
  only_robots (some e) = (robots, e) ∷ []

  -- `verdict == "forbidden"`
  abbrev pub is_forbidden : Verdict → Bool
  is_forbidden forbidden = true
  is_forbidden _ = false

  -- `_robots_forbids`
  unfoldable pub robots_forbids : Option Source → Option Exception → Text → Text → Bool
  unfolding compute_verdict
  robots_forbids source error url ua =
      is_forbidden
        (compute_verdict (evaluated_robots source url ua) none none none (only_robots error) false
          none).0

  get-only_robots : (error : Option Exception) → get robots (only_robots error) ≡ error
  unfolding get
  get-only_robots none = refl
  get-only_robots (some e) = refl

  is_forbidden_iff : (v : Verdict) → (is_forbidden v ≡ true) ↔ (v ≡ forbidden)
  is_forbidden_iff allowed = (λ h. absurd (cc), λ h. absurd (cc))
  is_forbidden_iff restricted = (λ h. absurd (cc), λ h. absurd (cc))
  is_forbidden_iff forbidden = (λ h. refl, λ h. refl)

  -- The early stop on robots.txt is sound and complete: `_robots_forbids` holds exactly when the
  -- whole policy is forbidden, whatever the other endpoints gave or would have given.
  pub robots_forbids_iff :
      (url ua : Text) (raw : Parsed Source) (errors : Dict Endpoint Exception)
      (skipped : Option Reason) (now : ℕ)
      → (robots_forbids raw.robots (get robots errors) url ua ≡ true)
        ↔ ((build_policy url ua raw errors skipped now).verdict ≡ forbidden)
  unfolding build_policy robots_forbids
  robots_forbids_iff url ua raw errors skipped now =
      let error = get robots errors in
      let r = evaluated_robots raw.robots url ua in
      let (down, up) =
        compute_verdict-forbidden_iff r raw.ai_txt raw.llms_txt raw.signing_directory errors
          (any is_partial_failure (values errors)) (some (target_path urlsplit url)) in
      let (alone, back) =
        compute_verdict-forbidden_iff r none none none (only_robots error) false none in
      let (says, said) =
        is_forbidden_iff (compute_verdict r none none none (only_robots error) false none).0 in
      let same = get-only_robots error in
      (
        λ h. up (subst (λ e. RobotsForbids e r) same (alone (says h))),
        λ h. said (back (subst (λ e. RobotsForbids e r) (sym same) (down h))),
      )
