-- ===== src/Cli.antt =====
-- The exit code of `wbauth inspect`, in cli.py. What it prints, and the files of the cache, are not
-- modelled.
pub mod Exit
use wbauth.Prelude.{ℕ, Bool, true, false, Option, none, some, List, [], ◌∷◌, if◌then◌else◌, all}
use wbauth.Text.{Text}
use wbauth.Dict.{Dict, get}
use wbauth.Policy.Errors.{Exception, timeout_exception, request_error, http_status_error}
use wbauth.Policy.Types.{
  Endpoint, endpoint_eq, robots, ai_txt, llms_txt, signing_directory, Verdict, allowed, restricted,
  forbidden, SitePolicy,
}

-- What `asyncio.run(inspect(...))` gives: a policy, or an `Exception`.
pub data Inspection : Type 0 where
  inspected : SitePolicy → Inspection
  raised : Exception → Inspection

-- `isinstance(_, (httpx.TransportError, httpx.TimeoutException))`; of the further classes of httpx
-- the names of those that are a `TransportError` are a parameter
abbrev pub is_transport_error : (Text → Bool) → Exception → Bool
is_transport_error transport timeout_exception = true
is_transport_error transport (request_error name) = transport name
is_transport_error transport _ = false

abbrev pub has_transport_error : (Text → Bool) → Dict Endpoint Exception → Endpoint → Bool
has_transport_error transport errors ep = elim (get ep errors) [
  | none ↦ false
  | some e ↦ is_transport_error transport e
]

-- `_site_unreachable`
unfoldable pub site_unreachable : (Text → Bool) → SitePolicy → Bool
unfolding get
site_unreachable transport policy =
    all (has_transport_error transport policy.errors)
      (robots ∷ ai_txt ∷ llms_txt ∷ signing_directory ∷ [])

abbrev pub verdict_code : Verdict → ℕ
verdict_code allowed = 0
verdict_code restricted = 1
verdict_code forbidden = 2

-- what `_dispatch_inspect` returns
unfoldable pub exit_code : (Text → Bool) → Inspection → ℕ
unfolding site_unreachable
exit_code transport (raised e) = 3
exit_code transport (inspected policy) =
    if site_unreachable transport policy then 3 else verdict_code policy.verdict
