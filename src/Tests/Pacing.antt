-- ===== src/Tests/Pacing.antt =====
-- Two tasks that take their turns at one origin, one behind the other.
use wbauth.Prelude.{ℕ, true, false, ◌≡◌, ◌↔◌, ◌⊎◌, refl, none, some, [], ◌∷◌, arith}
use wbauth.Text.{Text, str, text_eq}
use wbauth.Dict.{text_keys, get, put, remove}
use wbauth.Policy.Types.{SitePolicy, restricted, forbidden}
use wbauth.Policy.Guard.{PolicyGuard, delay_for, turn_at, take_turn}
use wbauth.Policy.Guard.Pacing.{
  Turn, World, Reach, here, next, enter, leave, start, IsSpaced, turns-IsSpaced,
}
use wbauth.Policy.Guard.Enforcing.{handle_request, refused, handle_request-refused_iff}

abbrev guard : PolicyGuard
guard = record {
  user_agent = none;
  block_restricted = true;
  min_delay = 500;
  max_delay = 60000;
  next_slot = [];
}

abbrev origin : Text
origin = str "a.example"

abbrev first_turn : Turn
first_turn = record { origin = origin; moment = 100; delay = 500 }

abbrev second_turn : Turn
second_turn = record { origin = origin; moment = 600; delay = 500 }

abbrev first_done : World
first_done = record {
  guard = record guard { next_slot = (origin, 600) ∷ [] };
  inside = [];
  granted = record { turn = first_turn; at = 120 } ∷ [];
  clock = 120;
}

abbrev second_inside : World
second_inside = record first_done { inside = (origin, second_turn) ∷ []; clock = 130 }

abbrev both_done : World
both_done = record {
  guard = record guard { next_slot = (origin, 1100) ∷ [] };
  inside = [];
  granted = record { turn = second_turn; at = 700 } ∷ record { turn = first_turn; at = 120 } ∷ [];
  clock = 700;
}

after_second : Reach (start guard 0) second_inside
unfolding turn_at take_turn delay_for get put remove text_eq
after_second =
    next
      (next (next here (enter (start guard 0) origin none 100 (omega arith) (omega arith) refl)) (
        leave
          (record { guard = guard; inside = (origin, first_turn) ∷ []; granted = []; clock = 100 })
          origin first_turn 120 (omega arith) refl (omega arith)))
      (enter first_done origin none 130 (omega arith) (omega arith) refl)

after_both : Reach (start guard 0) both_done
unfolding turn_at take_turn delay_for get put remove text_eq
after_both =
    next after_second (leave second_inside origin second_turn 700 (omega arith) refl (omega arith))

turns-IsSpaced_example :
    IsSpaced (record { turn = second_turn; at = 700 } ∷ record { turn = first_turn; at = 120 } ∷ [])
turns-IsSpaced_example = turns-IsSpaced guard 0 both_done after_both

held : get origin second_inside.inside ≡ some second_turn
unfolding get text_eq
held = refl

abbrev some_policy : SitePolicy
some_policy = record {
  url = str "https://a.example/";
  robots = none;
  ai_txt = none;
  llms_txt = none;
  signing_directory = none;
  verdict = restricted;
  reasons = [];
  partial = false;
  errors = [];
  fetched_at = 0;
}

abbrev moment_of : ℕ → ℕ
moment_of sent_at = sent_at

handle_request-refused_iff_example :
    ((handle_request moment_of guard some_policy origin 5).0 ≡ refused some_policy)
    ↔ ((restricted ≡ forbidden) ⊎ ((restricted ≡ restricted) × (true ≡ true)))
handle_request-refused_iff_example = handle_request-refused_iff moment_of guard some_policy origin 5
