-- ===== src/Verifier/Nonces/Ideal.antt =====
-- `NonceStore` of verifier.py against a history that forgets nothing.
use wbauth.Prelude.{
  ℕ, ◌≤◌, ◌<◌, Bool, true, false, ◌≡◌, refl, sym, ap, ◌∙◌, inl, inr, Option, none, some, List, [],
  ◌∷◌, arith, ltb, leb, if◌then◌else◌, length, Bool-cases, is_some,
}
use wbauth.Text.{Text, text_eq}
use wbauth.Text.Laws.{text_eq_iff}
use wbauth.Dict.{Dict, text_keys, get, put}
use wbauth.Dict.Laws.{get-put}
use wbauth.Dict.Distinct.{IsDistinct, IsDistinct-put}
use wbauth.Verifier.Nonces.{NonceStore, seen, make_room, is_live, unexpired}
use wbauth.Verifier.Nonces.Replay.{Call}

-- The last moment of each nonce that was accepted.
abbrev pub History : Type 0
History = Text → Option ℕ

abbrev pub no_history : History
no_history n = none

abbrev pub add_use : Text → ℕ → History → History
add_use nonce expires_at past n = if text_eq nonce n then some expires_at else past n

-- What `seen` promises: a nonce has been seen if it was accepted before and has not expired.
abbrev pub ideal_seen : (now : ℕ) → Text → (expires_at : ℕ) → History → Bool × History
ideal_seen now nonce expires_at past =
    if is_live now (past nonce) then (true, past) else (false, add_use nonce expires_at past)

abbrev pub answers : List Call → NonceStore → List Bool
answers [] s = []
answers (c ∷ cs) s = let (b, next) = seen c.now c.nonce c.expires_at s in b ∷ answers cs next

abbrev pub ideal_answers : List Call → History → List Bool
ideal_answers [] past = []
ideal_answers (c ∷ cs) past =
    let (b, next) = ideal_seen c.now c.nonce c.expires_at past in b ∷ ideal_answers cs next

-- The clock does not go back.
abbrev pub IsOrdered : ℕ → List Call → Type 0
IsOrdered t [] = Unit
IsOrdered t (c ∷ cs) = (t ≤ c.now) × IsOrdered c.now cs

-- No call finds the store full of nonces that have not expired.
abbrev pub HasRoom : List Call → NonceStore → Type 0
HasRoom [] s = Unit
HasRoom (c ∷ cs) s =
    (length (unexpired c.now s.entries) < s.maxsize)
    × HasRoom cs (seen c.now c.nonce c.expires_at s).1

-- an expiry that is still to come
abbrev current : ℕ → Option ℕ → Option ℕ
current now none = none
current now (some e) = if ltb now e then some e else none

current_later :
    (now later : ℕ) (o : Option ℕ) → now ≤ later → current later (current now o) ≡ current later o
current_later now later none h = refl
current_later now later (some e) h = ground arith

is_live-eq-is_some : (now : ℕ) (o : Option ℕ) → is_live now o ≡ is_some (current now o)
is_live-eq-is_some now none = refl
is_live-eq-is_some now (some e) = ground arith

is_live-current :
    (now : ℕ) (o p : Option ℕ) → current now o ≡ current now p → is_live now o ≡ is_live now p
is_live-current now o p h = is_live-eq-is_some now o ∙ ap is_some h ∙ sym (is_live-eq-is_some now p)

get-unexpired_missing :
    (now : ℕ) (k : Text) (d : Dict Text ℕ) → get k d ≡ none → get k (unexpired now d) ≡ none
unfolding get
get-unexpired_missing now k [] h = refl
get-unexpired_missing now k ((j, u) ∷ d) h = ground (arith, get-unexpired_missing now k d)

IsDistinct-unexpired : (now : ℕ) (d : Dict Text ℕ) → IsDistinct d → IsDistinct (unexpired now d)
unfolding IsDistinct
IsDistinct-unexpired now [] h = tt
IsDistinct-unexpired now ((j, u) ∷ d) (h, i) = elim (Bool-cases (ltb now u)) [
  | inl live ↦ rw live (get-unexpired_missing now j d h, IsDistinct-unexpired now d i)
  | inr gone ↦ rw gone (IsDistinct-unexpired now d i)
]

get-unexpired :
    (now : ℕ) (k : Text) (d : Dict Text ℕ)
    → IsDistinct d
    → get k (unexpired now d) ≡ current now (get k d)
unfolding get IsDistinct
get-unexpired now k [] h = refl
get-unexpired now k ((j, u) ∷ d) (h, i) =
    ground (arith, get-unexpired now k d i, get-unexpired_missing now j d h, text_eq_iff j k)

-- The store and the history agree on all that has not expired.
record Agree (now : ℕ) (s : NonceStore) (past : History) : Type 0 where
  distinct : IsDistinct s.entries
  same : (n : Text) → current now (get n s.entries) ≡ current now (past n)

module _ (now : ℕ) (s : NonceStore) where
  IsDistinct-make_room :
      length (unexpired now s.entries) < s.maxsize
      → IsDistinct s.entries
      → IsDistinct (make_room now s).entries
  unfolding make_room
  IsDistinct-make_room h i = elim (Bool-cases (leb s.maxsize (length s.entries))) [
    | inl full ↦ rw full (
        let kept : leb s.maxsize (length (unexpired now s.entries)) ≡ false = ground arith in
        rw kept (IsDistinct-unexpired now s.entries i))
    | inr room ↦ rw room i
  ]

  get-make_room :
      (n : Text)
      → length (unexpired now s.entries) < s.maxsize
      → IsDistinct s.entries
      → current now (get n (make_room now s).entries) ≡ current now (get n s.entries)
  unfolding make_room
  get-make_room n h i = elim (Bool-cases (leb s.maxsize (length s.entries))) [
    | inl full ↦ rw full (
        let kept : leb s.maxsize (length (unexpired now s.entries)) ≡ false = ground arith in
        rw kept (
          ap (current now) (get-unexpired now n s.entries i)
          ∙ current_later now now (get n s.entries) (omega arith)))
    | inr room ↦ rw room refl
  ]

module _ (now : ℕ) (nonce : Text) (e : ℕ) where
  current-add :
      (n : Text) (d : Dict Text ℕ) (past : History)
      → current now (get n d) ≡ current now (past n)
      → current now (get n (put nonce e d)) ≡ current now (add_use nonce e past n)
  current-add n d past h =
      ap (current now) (get-put nonce n e d)
      ∙ elim (Bool-cases (text_eq nonce n)) [ inl same ↦ rw same refl | inr other ↦ rw other h ]

  -- One call answers as the history does, and they agree afterwards.
  seen-Agree :
      (s : NonceStore) (past : History)
      → length (unexpired now s.entries) < s.maxsize
      → Agree now s past
      → ((seen now nonce e s).0 ≡ (ideal_seen now nonce e past).0)
        × Agree now (seen now nonce e s).1 (ideal_seen now nonce e past).1
  unfolding seen
  seen-Agree s past room a =
      let kept : (n : Text) → current now (get n (make_room now s).entries) ≡ current now (past n) =
        λ n. get-make_room now s n room a.distinct ∙ a.same n in
      let same =
        is_live-current now (get nonce (make_room now s).entries) (past nonce) (kept nonce) in
      let apart = IsDistinct-make_room now s room a.distinct in
      elim (Bool-cases (is_live now (past nonce))) [
        | inl live ↦ rw (same, live) (refl, record { distinct = apart; same = kept })
        | inr gone ↦
            rw (same, gone)
              (
                refl,
                record {
                  distinct = IsDistinct-put nonce e (make_room now s).entries apart;
                  same = λ n. current-add n (make_room now s).entries past (kept n);
                },
              )
      ]

Agree-later :
    (now later : ℕ) (s : NonceStore) (past : History)
    → now ≤ later
    → Agree now s past
    → Agree later s past
Agree-later now later s past h a = record {
  distinct = a.distinct;
  same = λ n.
      sym (current_later now later (get n s.entries) h)
      ∙ ap (current later) (a.same n)
      ∙ current_later now later (past n) h;
}

answers-Agree :
    (cs : List Call) (t : ℕ) (s : NonceStore) (past : History)
    → IsOrdered t cs
    → HasRoom cs s
    → Agree t s past
    → answers cs s ≡ ideal_answers cs past
answers-Agree [] t s past ordered room a = refl
answers-Agree (c ∷ cs) t s past (h, ordered) (r, room) a =
    let (same, next) =
      seen-Agree c.now c.nonce c.expires_at s past r (Agree-later t c.now s past h a) in
    ap (λ b. b ∷ answers cs (seen c.now c.nonce c.expires_at s).1) same
    ∙ ap (λ bs. (ideal_seen c.now c.nonce c.expires_at past).0 ∷ bs)
        (answers-Agree cs c.now _ _ ordered room next)

-- A new store answers any sequence of calls as the history that forgets nothing does, where the
-- clock does not go back and no call finds the store full of nonces that have not expired: what
-- the clean-up removes is never missed.
pub answers-ideal_answers :
    (maxsize t : ℕ) (cs : List Call)
    → IsOrdered t cs
    → HasRoom cs (record { entries = []; maxsize = maxsize })
    → answers cs (record { entries = []; maxsize = maxsize }) ≡ ideal_answers cs no_history
unfolding IsDistinct get
answers-ideal_answers maxsize t cs ordered room =
    answers-Agree cs t _ no_history ordered room (record { distinct = tt; same = λ n. refl })
