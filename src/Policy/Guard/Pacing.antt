-- ===== src/Policy/Guard/Pacing.antt =====
-- `wait_turn` as it runs in many tasks at once. A task that holds the lock of its origin sleeps
-- there while tasks of other origins go on; it leaves at a moment that is not before its turn.
use wbauth.Prelude.{
  ℕ, ◌+◌, ◌≤◌, ◌<◌, ◌≡◌, inl, inr, Option, none, some, List, [], ◌∷◌, arith, All, All-mono,
  Bool-cases,
}
use wbauth.Text.{Text}
use wbauth.Dict.{Dict, ◌=?◌, text_keys, get, put, remove}
use wbauth.Dict.Laws.{get-put, get-put_self, get-remove}
use wbauth.Policy.Types.{SitePolicy}
use wbauth.Policy.Guard.{PolicyGuard, delay_for, turn_at, take_turn}

-- The turn of a task: its origin, the moment it sleeps to, and the delay that the guard put behind it.
pub record Turn : Type 0 where
  pub origin : Text
  pub moment : ℕ
  pub delay : ℕ

-- A turn that was taken: the task went on at the moment `at`.
pub record Departure : Type 0 where
  pub turn : Turn
  pub at : ℕ

pub record World : Type 0 where
  pub guard : PolicyGuard
  pub inside : Dict Text Turn
  pub granted : List Departure
  pub clock : ℕ

-- `async with lock:` is entered, and left behind the sleep. A delay of 0 returns before the lock.
pub data Step : World → World → Type 0 where
  enter :
      (w : World) (origin : Text) (policy : Option SitePolicy) (now : ℕ)
      → w.clock ≤ now
      → 0 < delay_for w.guard policy
      → get origin w.inside ≡ none
      → Step w (record w {
        inside =
            put origin
              (record {
                origin = origin;
                moment = turn_at w.guard origin now;
                delay = delay_for w.guard policy;
              })
              w.inside;
        clock = now;
      })
  leave :
      (w : World) (origin : Text) (turn : Turn) (now : ℕ)
      → w.clock ≤ now
      → get origin w.inside ≡ some turn
      → turn.moment ≤ now
      → Step w (record w {
        guard = take_turn w.guard origin turn.moment turn.delay;
        inside = remove origin w.inside;
        granted = record { turn = turn; at = now } ∷ w.granted;
        clock = now;
      })

pub data Reach (s : World) : World → Type 0 where
  here : Reach s s
  next : {t u : World} → Reach s t → Step t u → Reach s u

-- Behind each turn its origin has no other before the delay is over, and no task goes on before
-- its own turn. The last turn stands first.
abbrev pub Apart : Turn → Turn → Type 0
Apart later earlier = later.origin ≡ earlier.origin → earlier.moment + earlier.delay ≤ later.moment

abbrev pub IsSpaced : List Departure → Type 0
IsSpaced [] = Unit
IsSpaced (d ∷ ds) = (d.turn.moment ≤ d.at) × All (λ e. Apart d.turn e.turn) ds × IsSpaced ds

-- All turns of an origin are over, with their delays, by the origin's next slot.
abbrev Over : PolicyGuard → List Departure → Type 0
Over g ds =
    All
      (λ d. (s : ℕ) × (get d.turn.origin g.next_slot ≡ some s) × (d.turn.moment + d.turn.delay ≤ s))
      ds

record IsPaced (w : World) : Type 0 where
  spaced : IsSpaced w.granted
  over : Over w.guard w.granted
  named : (o : Text) (t : Turn) → get o w.inside ≡ some t → t.origin ≡ o
  after :
      (o : Text) (t : Turn) (s : ℕ)
      → get o w.inside ≡ some t
      → get o w.guard.next_slot ≡ some s
      → s ≤ t.moment

enter-IsPaced :
    (w : World) (origin : Text) (now delay : ℕ)
    → get origin w.inside ≡ none
    → IsPaced w
    → IsPaced (record w {
      inside =
          put origin
            (record { origin = origin; moment = turn_at w.guard origin now; delay = delay })
            w.inside;
      clock = now;
    })
unfolding turn_at
enter-IsPaced w origin now delay free p =
    let turn : Turn = record {
      origin = origin;
      moment = turn_at w.guard origin now;
      delay = delay;
    } in
    record {
      spaced = p.spaced;
      over = p.over;
      named = λ o t h.
          ground (arith, get-put origin o turn w.inside, text_keys.beq_iff origin o, p.named o t);
      after = λ o t s h q.
          ground (arith, get-put origin o turn w.inside, text_keys.beq_iff origin o, p.after o t s);
    }

leave-IsPaced :
    (w : World) (origin : Text) (turn : Turn) (now : ℕ)
    → get origin w.inside ≡ some turn
    → turn.moment ≤ now
    → IsPaced w
    → IsPaced (record w {
      guard = take_turn w.guard origin turn.moment turn.delay;
      inside = remove origin w.inside;
      granted = record { turn = turn; at = now } ∷ w.granted;
      clock = now;
    })
unfolding take_turn
leave-IsPaced w origin turn now held due p =
    let mine = p.named origin turn held in
    let slot = turn.moment + turn.delay in
    record {
      spaced = (
        due,
        All-mono w.granted (λ d (s, at, fits) same. ground (arith, p.after origin turn s)) p.over,
        p.spaced,
      );
      over = (
        (slot, ground (arith, get-put_self origin slot w.guard.next_slot), omega arith),
        All-mono w.granted
            (λ d (s, at, fits). elim (Bool-cases (origin =? d.turn.origin)) [
              | inl same ↦ (
                slot,
                ground (arith, get-put origin d.turn.origin slot w.guard.next_slot),
                ground (arith, p.after origin turn s held, text_keys.beq_iff origin d.turn.origin),
              )
              | inr apart ↦
                  (s, ground (arith, get-put origin d.turn.origin slot w.guard.next_slot), fits)
            ])
            p.over,
      );
      named = λ o t h.
          ground (arith, get-remove origin o w.inside, text_keys.beq_iff origin o, p.named o t);
      after = λ o t s h q. ground (
        arith,
        get-remove origin o w.inside,
        get-put origin o slot w.guard.next_slot,
        text_keys.beq_iff origin o,
        p.after o t s,
      );
    }

Step-IsPaced : {w v : World} → Step w v → IsPaced w → IsPaced v
Step-IsPaced (enter w origin policy now c d free) p =
    enter-IsPaced w origin now (delay_for w.guard policy) free p
Step-IsPaced (leave w origin turn now c held due) p = leave-IsPaced w origin turn now held due p

Reach-IsPaced : {w v : World} → IsPaced w → Reach w v → IsPaced v
Reach-IsPaced p here = p
Reach-IsPaced p (next r s) = Step-IsPaced s (Reach-IsPaced p r)

-- A new guard, whatever its settings, before any request.
abbrev pub start : PolicyGuard → ℕ → World
start g clock = record {
  guard = record g { next_slot = [] };
  inside = [];
  granted = [];
  clock = clock;
}

start-IsPaced : (g : PolicyGuard) (clock : ℕ) → IsPaced (start g clock)
unfolding get
start-IsPaced g clock = record {
  spaced = tt;
  over = tt;
  named = λ o t h. cc;
  after = λ o t s h q. cc;
}

-- However the tasks interleave, no task goes on before its turn, and the turns of one origin are
-- never closer than the delay that was asked for the earlier one.
pub turns-IsSpaced :
    (g : PolicyGuard) (clock : ℕ) (w : World) → Reach (start g clock) w → IsSpaced w.granted
turns-IsSpaced g clock w r = (Reach-IsPaced (start-IsPaced g clock) r).spaced
