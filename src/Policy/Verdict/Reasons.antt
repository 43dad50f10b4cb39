-- ===== src/Policy/Verdict/Reasons.antt =====
-- The reasons account for the verdict: each has a weight, and the verdict is the heaviest.
use wbauth.Prelude.{ℕ, ◌≡◌, List, [], ◌∷◌, ◌++◌, arith, max, if◌then◌else◌, is_empty}
use wbauth.Policy.Types.{Verdict, allowed, restricted, forbidden, Reason}
use wbauth.Policy.Verdict.{Signals, reason, forbid, restrict}

-- how strict a verdict is
abbrev pub severity : Verdict → ℕ
severity allowed = 0
severity restricted = 1
severity forbidden = 2

-- what a reason speaks for, read off its text
abbrev pub weight : Reason → ℕ
weight Reason.robots_unparseable = 2
weight (Reason.robots_refused e) = 2
weight (Reason.robots_unreachable status) = 2
weight Reason.robots_timed_out = 2
weight (Reason.robots_not_reached e) = 2
weight Reason.robots_disallows = 2
weight (Reason.robots_not_evaluated e) = 1
weight (Reason.ai_restrictions text total) = 1
weight (Reason.llms_no_automated_access phrase) = 1
weight (Reason.partial_fetch errored) = 1
weight Reason.insufficient_signal = 1
weight _ = 0

abbrev pub worst : List Reason → ℕ
worst [] = 0
worst (r ∷ rs) = max (weight r) (worst rs)

pub worst-append : (xs ys : List Reason) → worst (xs ++ ys) ≡ max (worst xs) (worst ys)
worst-append [] ys = omega arith
worst-append (x ∷ xs) ys = omega (arith, worst-append xs ys)

abbrev pub IsUniform : ℕ → List Reason → Type 0
IsUniform k rs = worst rs ≡ (if is_empty rs then 0 else k)

append-IsUniform :
    (k : ℕ) (rs : List Reason) (r : Reason)
    → weight r ≡ k
    → IsUniform k rs
    → IsUniform k (rs ++ r ∷ [])
append-IsUniform k [] r w h = omega arith
append-IsUniform k (q ∷ rs) r w h = omega (arith, worst-append (q ∷ rs) (r ∷ []))

pub record IsGraded (s : Signals) : Type 0 where
  pub light : worst s.reasons ≡ 0
  pub heavy : IsUniform 2 s.forbidden_signals
  pub middle : IsUniform 1 s.restricted_signals

module _ (r : Reason) {s : Signals} where
  pub reason-IsGraded : weight r ≡ 0 → IsGraded s → IsGraded (reason r s)
  reason-IsGraded w g = record {
    light = omega (arith, worst-append s.reasons (r ∷ []), g.light);
    heavy = g.heavy;
    middle = g.middle;
  }

  pub forbid-IsGraded : weight r ≡ 2 → IsGraded s → IsGraded (forbid r s)
  forbid-IsGraded w g = record {
    light = g.light;
    heavy = append-IsUniform 2 _ r w g.heavy;
    middle = g.middle;
  }

  pub restrict-IsGraded : weight r ≡ 1 → IsGraded s → IsGraded (restrict r s)
  restrict-IsGraded w g = record {
    light = g.light;
    heavy = g.heavy;
    middle = append-IsUniform 1 _ r w g.middle;
  }
