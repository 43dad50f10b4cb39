-- ===== src/Policy/Types.antt =====
-- policy/policy.py: the results of the four endpoints and the policy of a site. Delays are numbers
-- of milliseconds.
use wbauth.Prelude.{ℕ, Bool, true, false, ◌≡◌, ◌↔◌, Option, List, arith}
use wbauth.Text.{Text}
use wbauth.Dict.{Eq, Dict}
use wbauth.Json.{Json}
use wbauth.Policy.Errors.{Exception}

-- the endpoint names, keys of `DEFAULT_TTLS` and of `errors`
pub data Endpoint : Type 0 where
  robots ai_txt llms_txt signing_directory : Endpoint

abbrev pub endpoint_beq : Endpoint → Endpoint → Bool
endpoint_beq robots robots = true
endpoint_beq ai_txt ai_txt = true
endpoint_beq llms_txt llms_txt = true
endpoint_beq signing_directory signing_directory = true
endpoint_beq _ _ = false

pub endpoint_beq_iff : (a b : Endpoint) → (endpoint_beq a b ≡ true) ↔ (a ≡ b)
endpoint_beq_iff a b = ground arith

instance abbrev pub endpoint_eq : Eq Endpoint
endpoint_eq = record { beq = endpoint_beq; beq_iff = endpoint_beq_iff }

pub record RobotsResult : Type 0 where
  pub can_fetch_url : Bool
  pub sitemaps : List Text
  pub raw : Text
  pub user_agent_evaluated : Text
  pub crawl_delay : Option ℕ
  pub content_signals : Dict Text Text

pub record AiTxtResult : Type 0 where
  pub identity : Dict Text Text
  pub permissions : List Text
  pub restrictions : List Text
  pub attribution : List Text
  pub contact : Dict Text Text
  pub content_types : Dict Text (List Text)
  pub raw : Text

pub record LlmsTxtLink : Type 0 where
  pub title : Text
  pub url : Text
  pub notes : Text

pub record LlmsTxtSection : Type 0 where
  pub name : Text
  pub links : List LlmsTxtLink

pub record LlmsTxtResult : Type 0 where
  pub title : Text
  pub description : Text
  pub sections : List LlmsTxtSection
  pub raw : Text

pub record SigningDirectoryResult : Type 0 where
  pub present : Bool
  pub keys : List Json
  pub content_type_correct : Bool
  pub raw : Text

pub data Verdict : Type 0 where
  allowed restricted forbidden : Verdict

-- The strings of `reasons`, each by the values that its f-string shows.
pub data Reason : Type 0 where
  robots_unparseable : Reason
  robots_refused : Exception → Reason
  robots_unavailable : (absent : Bool) (status : ℕ) → Reason
  robots_unreachable : (status : ℕ) → Reason
  robots_redirect_limit : Reason
  robots_timed_out : Reason
  robots_not_reached : Exception → Reason
  robots_not_evaluated : Exception → Reason
  robots_allows : Reason
  robots_disallows : Reason
  robots_crawl_delay : ℕ → Reason
  evaluated_against : Text → Reason
  ai_restrictions : (snippet : Text) (total : ℕ) → Reason
  ai_restrictions_elsewhere : (total : ℕ) → Reason
  ai_permissions : Reason
  llms_present : Reason
  llms_no_automated_access : (phrase : Text) → Reason
  signing_published : Reason
  partial_fetch : (errored : List Endpoint) → Reason
  insufficient_signal : Reason
  stop_on_forbidden : (skipped : List Endpoint) → Reason

pub record SitePolicy : Type 0 where
  pub url : Text
  pub robots : Option RobotsResult
  pub ai_txt : Option AiTxtResult
  pub llms_txt : Option LlmsTxtResult
  pub signing_directory : Option SigningDirectoryResult
  pub verdict : Verdict
  pub reasons : List Reason
  pub partial : Bool
  pub errors : Dict Endpoint Exception
  pub fetched_at : ℕ
