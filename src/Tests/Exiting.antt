-- ===== src/Tests/Exiting.antt =====
-- Exit codes of `wbauth inspect` for a site that did not answer and for one that forbids.
use wbauth.Prelude.{ℕ, true, ◌≡◌, ◌↔◌, refl, none, [], ◌∷◌}
use wbauth.Text.{Text, str}
use wbauth.Dict.{Dict}
use wbauth.Urls.{UrlSplit}
use wbauth.Policy.Errors.{Exception, timeout_exception, http_status_error, other}
use wbauth.Policy.Types.{
  Endpoint, robots, ai_txt, llms_txt, signing_directory, RobotsResult, allowed,
}
use wbauth.Policy.Verdict.{
  compose, robots_section, applicable, ai_section, llms_section, signing_section,
}
use wbauth.Policy.Inspector.Build.{Parsed, build_policy}
use wbauth.Cli.{inspected, raised, exit_code}
use wbauth.Cli.Exit.{exit_code-zero_iff}

abbrev no_split : UrlSplit
no_split url = none

abbrev as_parsed : RobotsResult → Text → Text → RobotsResult
as_parsed source url ua = source

abbrev nothing_parsed : Parsed RobotsResult
nothing_parsed = record { robots = none; ai_txt = none; llms_txt = none; signing_directory = none }

abbrev all_time_out : Dict Endpoint Exception
all_time_out =
    (robots, timeout_exception)
    ∷ (ai_txt, timeout_exception)
    ∷ (llms_txt, timeout_exception)
    ∷ (signing_directory, timeout_exception)
    ∷ []

abbrev robots_missing : Dict Endpoint Exception
robots_missing = (robots, http_status_error 404) ∷ []

abbrev code_of : Dict Endpoint Exception → ℕ
unfolding build_policy exit_code
code_of errors =
    exit_code (λ name. true)
      (inspected (build_policy no_split as_parsed [] [] nothing_parsed errors none 7))

unreached_is_3 : code_of all_time_out ≡ 3
unfolding build_policy exit_code
unreached_is_3 = refl

missing_is_0 : code_of robots_missing ≡ 0
unfolding build_policy exit_code robots_section applicable ai_section llms_section signing_section
    compose
missing_is_0 = refl

raised_is_3 : exit_code (λ name. true) (raised (other (str "ValueError"))) ≡ 3
unfolding exit_code
raised_is_3 = refl

exit_code-zero_iff_example :
    (exit_code
        (λ name. true)
        (inspected (build_policy no_split as_parsed [] [] nothing_parsed all_time_out none 7))
      ≡ 0)
    ↔ ((build_policy no_split as_parsed [] [] nothing_parsed all_time_out none 7).verdict ≡ allowed)
exit_code-zero_iff_example =
    exit_code-zero_iff no_split as_parsed (λ name. true) [] [] nothing_parsed all_time_out none 7
