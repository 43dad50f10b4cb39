-- ===== src/Verifier/Nonces/Capacity.antt =====
-- The size of the store.
use wbauth.Prelude.{
  ℕ, zero, suc, ◌-◌, ◌/◌, ◌≤◌, ◌<◌, Bool, true, ◌≡◌, inl, inr, refl, none, List, [], ◌∷◌, arith,
  ltb, leb, length, filter, drop, Bool-cases,
}
use wbauth.Text.{Text}
use wbauth.Dict.{Dict, text_keys, get, put}
use wbauth.Verifier.Nonces.{NonceStore, seen, make_room, is_live, unexpired}

length-filter : {A : Type 0} (p : A → Bool) (xs : List A) → length (filter p xs) ≤ length xs
length-filter p [] = omega arith
length-filter p (x ∷ xs) = ground (arith, length-filter p xs)

length-drop : {A : Type 0} (n : ℕ) (xs : List A) → length (drop n xs) ≡ length xs - n
length-drop zero xs = omega arith
length-drop (suc n) [] = omega arith
length-drop (suc n) (x ∷ xs) = omega (arith, length-drop n xs)

length-put : (k : Text) (v : ℕ) (d : Dict Text ℕ) → length (put k v d) ≤ suc (length d)
unfolding put
length-put k v [] = omega arith
length-put k v ((j, w) ∷ d) = ground (arith, length-put k v d)

length-put_new :
    (k : Text) (v : ℕ) (d : Dict Text ℕ) → get k d ≡ none → length (put k v d) ≡ suc (length d)
unfolding put get
length-put_new k v [] h = refl
length-put_new k v ((j, w) ∷ d) h = ground (arith, length-put_new k v d)

make_room-lt :
    (now : ℕ) (s : NonceStore)
    → 10 ≤ s.maxsize
    → length s.entries ≤ s.maxsize
    → (length (make_room now s).entries < s.maxsize) × ((make_room now s).maxsize ≡ s.maxsize)
unfolding make_room
make_room-lt now s ten h = ground (
  arith,
  length-filter (λ p. ltb now p.1) s.entries,
  length-drop (s.maxsize / 10) (unexpired now s.entries),
)

-- A store that may hold ten nonces or more never passes its limit.
length-seen-le-maxsize :
    (now : ℕ) (nonce : Text) (e : ℕ) (s : NonceStore)
    → 10 ≤ s.maxsize
    → length s.entries ≤ s.maxsize
    → length (seen now nonce e s).1.entries ≤ (seen now nonce e s).1.maxsize
unfolding seen
length-seen-le-maxsize now nonce e s ten h =
    let s' = make_room now s in
    let (room, same) = make_room-lt now s ten h in
    elim (Bool-cases (is_live now (get nonce s'.entries))) [
      | inl live ↦ rw live (omega (arith, room, same))
      | inr gone ↦ rw gone (omega (arith, room, same, length-put nonce e s'.entries))
    ]

le→leb : (a b : ℕ) → a ≤ b → leb a b ≡ true
le→leb a b h = ground arith

make_room_below_ten :
    (now : ℕ) (s : NonceStore)
    → s.maxsize < 10
    → s.maxsize ≤ length s.entries
    → unexpired now s.entries ≡ s.entries
    → (make_room now s).entries ≡ s.entries
unfolding make_room
make_room_below_ten now s small full live =
    let z : s.maxsize / 10 ≡ 0 = omega arith in
    rw (le→leb s.maxsize (length s.entries) full, live, le→leb s.maxsize (length s.entries) full, z)

-- A full store of fewer than ten nonces, none of them expired, grows with every new nonce: a tenth
-- of its limit is 0, so the clean-up drops nothing.
pub length-seen_below_ten :
    (now : ℕ) (nonce : Text) (e : ℕ) (s : NonceStore)
    → s.maxsize < 10
    → s.maxsize ≤ length s.entries
    → unexpired now s.entries ≡ s.entries
    → get nonce s.entries ≡ none
    → length (seen now nonce e s).1.entries ≡ suc (length s.entries)
unfolding seen
length-seen_below_ten now nonce e s small full live new =
    let same = make_room_below_ten now s small full live in
    rw (same, new) (length-put_new nonce e s.entries new)
