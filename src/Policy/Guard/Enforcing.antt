-- ===== src/Policy/Guard/Enforcing.antt =====
-- `PolicyGuard.before_request` and `PolicyEnforcingTransport` of policy/guard.py, for one task: the
-- guard runs before the request is handed on. `inspect` has answered with `policy`.
use wbauth.Prelude.{ℕ, true, ◌≡◌, ◌↔◌, ◌⊎◌, Option, some, ◌==◌, arith, if◌then◌else◌}
use wbauth.Text.{Text}
use wbauth.Dict.{text_keys}
use wbauth.Policy.Types.{SitePolicy, restricted, forbidden}
use wbauth.Policy.Guard.{
  PolicyGuard, Checked, passed, policy_forbidden, check, delay_for, turn_at, take_turn,
}

-- The transport is called at a moment, or the request ends with `PolicyForbiddenError`.
pub data Handled (R : Type 0) : Type 0 where
  refused : SitePolicy → Handled R
  handed_on : (sent_at : ℕ) → R → Handled R

-- `wait_turn` of one task: the moment at which it returns, and the guard
unfoldable pub wait_turn : PolicyGuard → Text → Option SitePolicy → ℕ → ℕ × PolicyGuard
unfolding delay_for turn_at take_turn
wait_turn g origin policy now =
    let delay = delay_for g policy in
    let turn = turn_at g origin now in
    if delay == 0 then (now, g) else (turn, take_turn g origin turn delay)

module _ {R : Type 0} (transport : ℕ → R) where
  hand_on : Checked → PolicyGuard → Text → ℕ → Handled R × PolicyGuard
  hand_on (policy_forbidden policy) g origin now = (refused policy, g)
  hand_on (passed policy) g origin now =
      let (sent_at, g') = wait_turn g origin (some policy) now in
      (handed_on sent_at (transport sent_at), g')

  unfoldable pub handle_request : PolicyGuard → SitePolicy → Text → ℕ → Handled R × PolicyGuard
  unfolding check hand_on wait_turn
  handle_request g policy origin now = hand_on (check g policy) g origin now

  -- A request is refused exactly when the verdict is `forbidden`, or `restricted` under a guard
  -- that blocks those.
  pub handle_request-refused_iff :
      (g : PolicyGuard) (policy : SitePolicy) (origin : Text) (now : ℕ)
      → ((handle_request g policy origin now).0 ≡ refused policy) ↔ (
          (policy.verdict ≡ forbidden)
          ⊎ ((policy.verdict ≡ restricted) × (g.block_restricted ≡ true)))
  unfolding handle_request
  handle_request-refused_iff g policy origin now = (λ h. ground arith, λ h. ground arith)
