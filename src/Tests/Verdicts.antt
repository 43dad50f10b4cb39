-- ===== src/Tests/Verdicts.antt =====
-- Verdicts over the results of one site.
use wbauth.Urls.{UrlSplit}
use wbauth.Policy.Inspector.Build.{Parsed, build_policy, robots_forbids, robots_forbids_iff}
use wbauth.Prelude.{true, false, ◌≡◌, ◌↔◌, refl, none, some, [], ◌∷◌}
use wbauth.Text.{Text, str, text_eq, starts_with, ends_with, rstrip_of}
use wbauth.Dict.{Dict, get}
use wbauth.Policy.Errors.{Exception, http_status_error}
use wbauth.Policy.Types.{
  Endpoint, robots, endpoint_eq, RobotsResult, AiTxtResult, LlmsTxtResult, allowed, restricted,
  forbidden,
}
use wbauth.Policy.Verdict.{
  compute_verdict, compose, robots_section, applicable, ai_section, llms_section, signing_section,
}
use wbauth.Policy.Verdict.Paths.{path_covers, tokens, restriction_paths, restriction_applies}
use wbauth.Policy.Verdict.Phrases.{restrictive_phrase, search_from}
use wbauth.Policy.Verdict.Outcome.{RobotsForbids, compute_verdict-forbidden_iff}
use wbauth.Policy.Verdict.Allowed.{RobotsClears, AiClears, LlmsClears, compute_verdict-allowed_iff}
use wbauth.Policy.Verdict.Reasons.{severity, worst}
use wbauth.Policy.Verdict.Grading.{compute_verdict-IsExplained}

abbrev allowing : RobotsResult
allowing = record {
  can_fetch_url = true;
  sitemaps = [];
  raw = [];
  user_agent_evaluated = str "wbauth/1";
  crawl_delay = some 2000;
  content_signals = [];
}

abbrev site : AiTxtResult
site = record {
  identity = [];
  permissions = str "search" ∷ [];
  restrictions = str "no training on /private/*" ∷ [];
  attribution = [];
  contact = [];
  content_types = [];
  raw = [];
}

abbrev llms : LlmsTxtResult
llms = record {
  title = str "Site";
  description = str "Please: No  bot access.";
  sections = [];
  raw = [];
}

abbrev unreachable : Dict Endpoint Exception
unreachable = (robots, http_status_error 503) ∷ []

rule_paths :
    restriction_paths (str "no training on /private/*, see https://a/b") ≡ str "/private/" ∷ []
unfolding restriction_paths tokens rstrip_of
rule_paths = refl

phrase_is_found : restrictive_phrase (str "Please: No  bot access.") ≡ some (str "No  bot access")
unfolding restrictive_phrase search_from
phrase_is_found = refl

public_is_allowed :
    (compute_verdict (some allowing) (some site) none none [] false (some (str "/public"))).0
    ≡ allowed
unfolding compute_verdict compose robots_section applicable ai_section llms_section signing_section
    get restriction_applies restriction_paths tokens path_covers rstrip_of starts_with ends_with
    text_eq
public_is_allowed = refl

private_is_restricted :
    (compute_verdict (some allowing) (some site) none none [] false (some (str "/private/x"))).0
    ≡ restricted
unfolding compute_verdict compose robots_section applicable ai_section llms_section signing_section
    get restriction_applies restriction_paths tokens path_covers rstrip_of starts_with ends_with
    text_eq
private_is_restricted = refl

compute_verdict-forbidden_iff_example :
    ((compute_verdict none (some site) (some llms) none unreachable true (some (str "/x"))).0
      ≡ forbidden)
    ↔ RobotsForbids (get robots unreachable) none
compute_verdict-forbidden_iff_example =
    compute_verdict-forbidden_iff none (some site) (some llms) none unreachable true
      (some (str "/x"))

compute_verdict-allowed_iff_example :
    ((compute_verdict (some allowing) (some site) none none [] false (some (str "/public"))).0
      ≡ allowed)
    ↔ (RobotsClears (get robots []) (some allowing)
        × AiClears (some site) (some (str "/public"))
        × LlmsClears none
        × (false ≡ false))
compute_verdict-allowed_iff_example =
    compute_verdict-allowed_iff (some allowing) (some site) none none [] false
      (some (str "/public"))

compute_verdict-IsExplained_example :
    severity (compute_verdict (some allowing) (some site) (some llms) none [] false none).0
    ≡ worst (compute_verdict (some allowing) (some site) (some llms) none [] false none).1
compute_verdict-IsExplained_example =
    compute_verdict-IsExplained (some allowing) (some site) (some llms) none [] false none

abbrev no_url : UrlSplit
no_url url = none

abbrev parsed : Parsed RobotsResult
parsed = record {
  robots = some allowing;
  ai_txt = some site;
  llms_txt = none;
  signing_directory = none;
}

abbrev as_is : RobotsResult → Text → Text → RobotsResult
as_is source url ua = source

robots_forbids_iff_example :
    (robots_forbids no_url as_is (some allowing) (get robots unreachable) [] [] ≡ true)
    ↔ ((build_policy no_url as_is [] [] parsed unreachable none 7).verdict ≡ forbidden)
robots_forbids_iff_example = robots_forbids_iff no_url as_is [] [] parsed unreachable none 7
