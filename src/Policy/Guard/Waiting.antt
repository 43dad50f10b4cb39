-- ===== src/Policy/Guard/Waiting.antt =====
-- How long a task of `wait_turn` can sleep.
use wbauth.Prelude.{ℕ, ◌+◌, ◌≤◌, ◌≡◌, refl, inl, inr, Option, some, arith, Option-cases}
use wbauth.Text.{Text}
use wbauth.Dict.{text_keys, get}
use wbauth.Dict.Laws.{get-put, get-remove}
use wbauth.Policy.Types.{SitePolicy}
use wbauth.Policy.Guard.{PolicyGuard, delay_for, turn_at, take_turn}
use wbauth.Policy.Guard.Pacing.{Turn, World, Step, enter, leave, Reach, here, next, start}

-- No wait is longer than `max_delay`: what a task inside the lock sleeps to, and every next slot,
-- lies at most that far ahead of the clock.
record IsPrompt (m : ℕ) (w : World) : Type 0 where
  limit : w.guard.max_delay ≡ m
  slots : (o : Text) (s : ℕ) → get o w.guard.next_slot ≡ some s → s ≤ w.clock + m
  sleeps :
      (o : Text) (t : Turn) → get o w.inside ≡ some t → (t.moment ≤ w.clock + m) × (t.delay ≤ m)

turn_at-le :
    (g : PolicyGuard) (o : Text) (now m : ℕ)
    → ((s : ℕ) → get o g.next_slot ≡ some s → s ≤ now + m)
    → turn_at g o now ≤ now + m
unfolding turn_at
turn_at-le g o now m h = elim (Option-cases (get o g.next_slot)) [
  | inl free ↦ rw free (omega arith)
  | inr (s, e) ↦ rw e (omega (arith, h s e))
]

delay_for-le : (g : PolicyGuard) (policy : Option SitePolicy) → delay_for g policy ≤ g.max_delay
unfolding delay_for
delay_for-le g policy = omega arith

Step-IsPrompt : {m : ℕ} {w v : World} → Step w v → IsPrompt m w → IsPrompt m v
unfolding take_turn
Step-IsPrompt {m} (enter w origin policy now c d free) p =
    let turn : Turn = record {
      origin = origin;
      moment = turn_at w.guard origin now;
      delay = delay_for w.guard policy;
    } in
    record {
      limit = p.limit;
      slots = λ o s h. omega (arith, p.slots o s h);
      sleeps = λ o t h. ground (
        arith,
        get-put origin o turn w.inside,
        turn_at-le w.guard origin now m (λ s e. omega (arith, p.slots origin s e)),
        delay_for-le w.guard policy,
        p.sleeps o t,
      );
    }
Step-IsPrompt {m} (leave w origin turn now c held over) p = record {
  limit = p.limit;
  slots = λ o s h. ground (
    arith,
    get-put origin o (turn.moment + turn.delay) w.guard.next_slot,
    p.sleeps origin turn held,
    p.slots o s,
  );
  sleeps = λ o t h. ground (arith, get-remove origin o w.inside, p.sleeps o t);
}

Reach-IsPrompt : {m : ℕ} {w v : World} → IsPrompt m w → Reach w v → IsPrompt m v
Reach-IsPrompt p here = p
Reach-IsPrompt p (next r s) = Step-IsPrompt s (Reach-IsPrompt p r)

start-IsPrompt : (g : PolicyGuard) (clock : ℕ) → IsPrompt g.max_delay (start g clock)
unfolding get
start-IsPrompt g clock = record { limit = refl; slots = λ o s h. cc; sleeps = λ o t h. cc }

-- A task that holds the lock of its origin never sleeps past `max_delay` from the clock's reading.
turn-le-max_delay :
    (g : PolicyGuard) (clock : ℕ) (w : World) (origin : Text) (turn : Turn)
    → Reach (start g clock) w
    → get origin w.inside ≡ some turn
    → turn.moment ≤ w.clock + g.max_delay
turn-le-max_delay g clock w origin turn r held =
    ((Reach-IsPrompt (start-IsPrompt g clock) r).sleeps origin turn held).0
