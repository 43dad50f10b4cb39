-- ===== src/Verifier/Nonces/Replay.antt =====
-- A nonce is accepted once while the store has room.
use wbauth.Prelude.{
  ℕ, suc, ◌+◌, ◌≤◌, ◌<◌, true, false, ◌≡◌, ◌↔◌, inl, inr, refl, ◌∙◌, some, List, [], ◌∷◌, arith,
  ltb, length, All, Bool-cases, Option-cases, ltb→lt, lt→ltb,
}
use wbauth.Text.{Text}
use wbauth.Dict.{Dict, text_keys, get, put}
use wbauth.Dict.Laws.{get-put, get-put_self}
use wbauth.Verifier.Nonces.{NonceStore, seen, make_room, is_live}

-- A call of `seen`.
pub record Call : Type 0 where
  pub now : ℕ
  pub nonce : Text
  pub expires_at : ℕ

abbrev pub run : List Call → NonceStore → NonceStore
run [] s = s
run (c ∷ cs) s = run cs (seen c.now c.nonce c.expires_at s).1

-- The store knows `nonce` until `e`.
abbrev pub Knows : Text → ℕ → NonceStore → Type 0
Knows nonce e s = get nonce s.entries ≡ some e

make_room-room : (now : ℕ) (s : NonceStore) → length s.entries < s.maxsize → make_room now s ≡ s
unfolding make_room
make_room-room now s h = ground arith

length-put : (k : Text) (v : ℕ) (d : Dict Text ℕ) → length (put k v d) ≤ suc (length d)
unfolding put
length-put k v [] = omega arith
length-put k v ((j, w) ∷ d) = ground (arith, length-put k v d)

pub length-seen :
    (now : ℕ) (nonce : Text) (e : ℕ) (s : NonceStore)
    → length s.entries < s.maxsize
    → (length (seen now nonce e s).1.entries ≤ suc (length s.entries))
      × ((seen now nonce e s).1.maxsize ≡ s.maxsize)
unfolding seen
length-seen now nonce e s h =
    rw (make_room-room now s h) (elim (Bool-cases (is_live now (get nonce s.entries))) [
      | inl live ↦ rw live (omega arith, refl)
      | inr gone ↦ rw gone (length-put nonce e s.entries, refl)
    ])

-- With room in the store, a nonce is reported exactly while it is known.
seen_iff :
    (now : ℕ) (nonce : Text) (e : ℕ) (s : NonceStore)
    → length s.entries < s.maxsize
    → ((seen now nonce e s).0 ≡ true) ↔ ((u : ℕ) × (get nonce s.entries ≡ some u) × (now < u))
unfolding seen
seen_iff now nonce e s h = rw (make_room-room now s h) (elim (Option-cases (get nonce s.entries)) [
  | inl unknown ↦ (λ r. absurd (ground (arith, unknown)), λ k. absurd (ground (arith, unknown)))
  | inr (u, known) ↦ elim (Bool-cases (ltb now u)) [
    | inl live ↦ (λ r. (u, known, ltb→lt now u live), λ k. rw (known, live))
    | inr gone ↦
        (λ r. absurd (ground (arith, known, gone)), λ k. absurd (ground (arith, known, gone)))
  ]
])

seen-Knows_self :
    (now : ℕ) (nonce : Text) (e : ℕ) (s : NonceStore)
    → length s.entries < s.maxsize
    → (seen now nonce e s).0 ≡ false
    → Knows nonce e (seen now nonce e s).1
unfolding seen
seen-Knows_self now nonce e s h r =
    let room = make_room-room now s h in
    elim (Bool-cases (is_live now (get nonce s.entries))) [
      | inl live ↦ absurd (ground (arith, room, live))
      | inr gone ↦ rw (room, gone) (get-put_self nonce e s.entries)
    ]

seen-Knows :
    (now : ℕ) (n nonce : Text) (e u : ℕ) (s : NonceStore)
    → length s.entries < s.maxsize
    → now < u
    → Knows n u s
    → Knows n u (seen now nonce e s).1
unfolding seen
seen-Knows now n nonce e u s h live k =
    rw (make_room-room now s h) (elim (Bool-cases (is_live now (get nonce s.entries))) [
      | inl again ↦ rw again k
      | inr gone ↦ rw gone (
          get-put nonce n e s.entries
          ∙ ground (arith, text_keys.beq_iff nonce n, lt→ltb now u live))
    ])

run-Knows :
    (cs : List Call) (n : Text) (u : ℕ) (s : NonceStore)
    → length s.entries + length cs ≤ s.maxsize
    → All (λ c. c.now < u) cs
    → Knows n u s
    → Knows n u (run cs s)
run-Knows [] n u s h live k = k
run-Knows (c ∷ cs) n u s h (l, live) k =
    let room : length s.entries < s.maxsize = omega arith in
    run-Knows cs n u (seen c.now c.nonce c.expires_at s).1
      (omega (arith, length-seen c.now c.nonce c.expires_at s room)) live
      (seen-Knows c.now n c.nonce c.expires_at u s room l k)

run-length :
    (cs : List Call) (s : NonceStore)
    → length s.entries + length cs ≤ s.maxsize
    → (length (run cs s).entries ≤ length s.entries + length cs) × ((run cs s).maxsize ≡ s.maxsize)
run-length [] s h = (omega arith, refl)
run-length (c ∷ cs) s h =
    let room : length s.entries < s.maxsize = omega arith in
    let (grown, same) = length-seen c.now c.nonce c.expires_at s room in
    omega (arith, run-length cs (seen c.now c.nonce c.expires_at s).1)

-- A nonce that was accepted is refused for as long as its signature can be valid, whatever other
-- requests come in between, while the store has room for them.
pub replay_refused :
    (s : NonceStore) (n : Text) (now u later e : ℕ) (cs : List Call)
    → length s.entries + length cs + 2 ≤ s.maxsize
    → (seen now n u s).0 ≡ false
    → All (λ c. c.now < u) cs
    → later < u
    → (seen later n e (run cs (seen now n u s).1)).0 ≡ true
replay_refused s n now u later e cs room fresh live l =
    let r : length s.entries < s.maxsize = omega arith in
    let s' = (seen now n u s).1 in
    let grown = length-seen now n u s r in
    let k = run-Knows cs n u s' (omega (arith, grown)) live (seen-Knows_self now n u s r fresh) in
    let size = run-length cs s' (omega (arith, grown)) in
    (seen_iff later n e (run cs s') (omega (arith, size, grown))).1 (u, k, l)
