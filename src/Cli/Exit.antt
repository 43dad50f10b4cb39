-- ===== src/Cli/Exit.antt =====
-- When `wbauth inspect` ends with 0.
use wbauth.Prelude.{
  ℕ, Bool, true, false, ◌≡◌, ◌↔◌, refl, sym, ◌∙◌, inl, inr, Option, some, [], ◌∷◌, arith, any,
  if◌then◌else◌, Bool-cases, Option-cases,
}
use wbauth.Text.{Text}
use wbauth.Dict.{Dict, get, values}
use wbauth.Urls.{UrlSplit}
use wbauth.Policy.Errors.{Exception}
use wbauth.Policy.Types.{
  Endpoint, endpoint_eq, robots, RobotsResult, Reason, Verdict, allowed, restricted, forbidden,
  SitePolicy,
}
use wbauth.Policy.Verdict.Allowed.{compute_verdict-allowed_iff}
use wbauth.Policy.Inspector.Build.{
  Parsed, is_partial_failure, target_path, evaluated_robots, build_policy,
}
use wbauth.Cli.{
  inspected, is_transport_error, has_transport_error, site_unreachable, exit_code, verdict_code,
}

transport_is_partial :
    (transport : Text → Bool) (e : Exception)
    → is_transport_error transport e ≡ true
    → is_partial_failure e ≡ true
unfolding is_partial_failure
transport_is_partial transport e h = ground arith

get-any :
    (p : Exception → Bool) (ep : Endpoint) (errors : Dict Endpoint Exception) (e : Exception)
    → get ep errors ≡ some e
    → p e ≡ true
    → any p (values errors) ≡ true
unfolding get
get-any p ep [] e h k = absurd (cc)
get-any p ep ((j, f) ∷ errors) e h k =
    ground (arith, get-any p ep errors e, endpoint_eq.beq_iff j ep)

-- A site without an answer has a failure that makes the policy partial.
unreachable-any :
    (transport : Text → Bool) (policy : SitePolicy)
    → site_unreachable transport policy ≡ true
    → any is_partial_failure (values policy.errors) ≡ true
unfolding site_unreachable
unreachable-any transport policy h = elim (Option-cases (get robots policy.errors)) [
  | inl fine ↦ absurd (cc (rw (has_transport_error, fine) at first))
  | inr (e, failed) ↦
      get-any is_partial_failure robots policy.errors e failed
        (transport_is_partial transport e (rw (has_transport_error, failed) at first))
]
  where
    first : has_transport_error transport policy.errors robots ≡ true
    first = ground (arith, h)

code_iff :
    (unreachable : Bool) (v : Verdict)
    → (v ≡ allowed → unreachable ≡ false)
    → ((if unreachable then 3 else verdict_code v) ≡ 0) ↔ (v ≡ allowed)
code_iff true v h = (λ e. absurd (omega (arith, e)), λ e. absurd (cc (h e)))
code_iff false allowed h = (λ e. refl, λ e. refl)
code_iff false restricted h = (λ e. absurd (omega (arith, e)), λ e. absurd (cc e))
code_iff false forbidden h = (λ e. absurd (omega (arith, e)), λ e. absurd (cc e))

module _ {Source : Type 0} (urlsplit : UrlSplit) (evaluate : Source → Text → Text → RobotsResult)
    (transport : Text → Bool) where
  -- An inspection that gives a policy ends with 0 exactly when the policy is allowed: a site of which
  -- no file could be reached is never allowed.
  pub exit_code-zero_iff :
      (url ua : Text) (raw : Parsed Source) (errors : Dict Endpoint Exception)
      (skipped : Option Reason) (now : ℕ)
      → (exit_code transport
            (inspected (build_policy urlsplit evaluate url ua raw errors skipped now))
          ≡ 0)
        ↔ ((build_policy urlsplit evaluate url ua raw errors skipped now).verdict ≡ allowed)
  unfolding exit_code build_policy site_unreachable
  exit_code-zero_iff url ua raw errors skipped now =
      let policy = build_policy urlsplit evaluate url ua raw errors skipped now in
      code_iff (site_unreachable transport policy) policy.verdict (λ h.
        let whole =
          ((compute_verdict-allowed_iff (evaluated_robots urlsplit evaluate raw.robots url ua)
              raw.ai_txt raw.llms_txt raw.signing_directory errors
              (any is_partial_failure (values errors)) (some (target_path urlsplit url))).0
            h).3 in
        elim (Bool-cases (site_unreachable transport policy)) [
          | inr reached ↦ reached
          | inl unreachable ↦
              absurd (cc (sym (unreachable-any transport policy unreachable) ∙ whole))
        ])
