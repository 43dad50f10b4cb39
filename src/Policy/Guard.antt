-- ===== src/Policy/Guard.antt =====
-- policy/guard.py: the verdict check before a request, and the pacing of requests per origin.
-- Times and delays are milliseconds; `next_slot` is the dictionary of the guard.
pub mod Pacing
pub mod Waiting
pub mod Enforcing
use wbauth.Prelude.{
  ℕ, zero, ◌+◌, ◌-◌, Bool, true, false, ◌&&◌, ◌||◌, Option, none, some, List, [], ◌∷◌, min, max,
  ltb, ◌==◌, if◌then◌else◌, get_or_else,
}
use wbauth.Text.{Text}
use wbauth.Dict.{Dict, text_keys, get, put}
use wbauth.Policy.Types.{SitePolicy, RobotsResult, Verdict, allowed, restricted, forbidden, Reason}

pub record PolicyGuard : Type 0 where
  pub user_agent : Option Text
  pub block_restricted : Bool
  pub min_delay : ℕ
  pub max_delay : ℕ
  pub next_slot : Dict Text ℕ

pub data Checked : Type 0 where
  passed : SitePolicy → Checked
  policy_forbidden : SitePolicy → Checked

abbrev pub is_forbidden : Verdict → Bool
is_forbidden forbidden = true
is_forbidden _ = false

abbrev pub is_restricted : Verdict → Bool
is_restricted restricted = true
is_restricted _ = false

-- `check`, once `inspect` has answered
unfoldable pub check : PolicyGuard → SitePolicy → Checked
check g policy =
    if is_forbidden policy.verdict || (g.block_restricted && is_restricted policy.verdict)
    then policy_forbidden policy
    else passed policy

abbrev crawl_delay : Option RobotsResult → ℕ
crawl_delay none = 0
crawl_delay (some r) = get_or_else r.crawl_delay 0

abbrev pub policy_delay : Option SitePolicy → ℕ
policy_delay none = 0
policy_delay (some policy) = crawl_delay policy.robots

-- the delay of `wait_turn`
unfoldable pub delay_for : PolicyGuard → Option SitePolicy → ℕ
delay_for g policy = min (max g.min_delay (policy_delay policy)) g.max_delay

-- Inside the lock, up to the sleep: the moment that is slept to, `slot` or now.
unfoldable pub turn_at : PolicyGuard → Text → ℕ → ℕ
unfolding get
turn_at g origin now = max (get_or_else (get origin g.next_slot) now) now

-- Inside the lock, behind the sleep.
unfoldable pub take_turn : PolicyGuard → Text → (turn delay : ℕ) → PolicyGuard
unfolding put
take_turn g origin turn delay = record g { next_slot = put origin (turn + delay) g.next_slot }
