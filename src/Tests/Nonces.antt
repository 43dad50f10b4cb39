-- ===== src/Tests/Nonces.antt =====
-- A store of three nonces and one of twelve.
use wbauth.Prelude.{true, false, ◌≡◌, refl, none, List, [], ◌∷◌, arith, length}
use wbauth.Text.{str, text_eq}
use wbauth.Dict.{text_keys, get, put}
use wbauth.Verifier.Nonces.{NonceStore, seen, make_room}
use wbauth.Verifier.Nonces.Replay.{Call}
use wbauth.Verifier.Nonces.Ideal.{answers, ideal_answers, no_history, answers-ideal_answers}
use wbauth.Verifier.Nonces.Capacity.{length-seen_below_ten}

abbrev full_store : NonceStore
full_store = record { entries = (str "a", 90) ∷ (str "b", 90) ∷ []; maxsize = 2 }

-- The fourth call finds a full store, and its clean-up forgets two of the three nonces.
abbrev calls : List Call
calls =
    record { now = 10; nonce = str "a"; expires_at = 20 }
    ∷ record { now = 11; nonce = str "b"; expires_at = 60 }
    ∷ record { now = 12; nonce = str "m"; expires_at = 25 }
    ∷ record { now = 30; nonce = str "c"; expires_at = 70 }
    ∷ record { now = 31; nonce = str "b"; expires_at = 80 }
    ∷ []

abbrev new_store : NonceStore
new_store = record { entries = []; maxsize = 3 }

calls_are_answered : answers calls new_store ≡ false ∷ false ∷ false ∷ false ∷ true ∷ []
unfolding seen make_room get put text_eq
calls_are_answered = refl

answers-ideal_answers_example : answers calls new_store ≡ ideal_answers calls no_history
unfolding seen make_room get put text_eq
answers-ideal_answers_example =
    answers-ideal_answers 3 0 calls
      (omega arith, (omega arith, (omega arith, (omega arith, (omega arith, tt)))))
      (omega arith, (omega arith, (omega arith, (omega arith, (omega arith, tt)))))

unknown_nonce : get (str "c") full_store.entries ≡ none
unfolding get text_eq
unknown_nonce = refl

length-seen_below_ten_example : length (seen 10 (str "c") 70 full_store).1.entries ≡ 3
length-seen_below_ten_example =
    length-seen_below_ten 10 (str "c") 70 full_store (omega arith) (omega arith) refl unknown_nonce
