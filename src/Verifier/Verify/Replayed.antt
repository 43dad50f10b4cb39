-- ===== src/Verifier/Verify/Replayed.antt =====
-- `Verifier.verify` of verifier.py against a captured request.
use wbauth.Prelude.{ℕ, ◌+◌, ◌≤◌, ◌<◌, ◌≡◌, ◌≢◌, true, false, sym, ap, ◌∙◌, some, List, length, All}
use wbauth.Text.{Text}
use wbauth.Verifier.Nonces.{NonceStore, seen}
use wbauth.Verifier.Nonces.Replay.{Call, run, replay_refused}
use wbauth.Verifier.Checks.{accepted, Incoming, Services, Settings}
use wbauth.Verifier.Verify.{VerifiedAgent, verify, forgotten_at}
use wbauth.Verifier.Verify.Authentic.{verify-IsAuthentic}

-- Once a request with a nonce is accepted, no other request is accepted under that nonce until the
-- signature has ended and the skew is over, whatever nonces are recorded in between, while the
-- store has room for them.
pub verify_no_replay :
    (S S' : Services) (settings settings' : Settings) (t t' clock clock' : ℕ) (r r' : Incoming)
    (store store' store'' : NonceStore) (agent agent' : VerifiedAgent) (n : Text) (cs : List Call)
    → verify S settings t clock r store ≡ (accepted agent, store')
    → agent.nonce ≡ some n
    → length store.entries + length cs + 2 ≤ store.maxsize
    → All (λ c. c.now < forgotten_at settings agent.expires) cs
    → clock' < forgotten_at settings agent.expires
    → verify S' settings' t' clock' r' (run cs store') ≡ (accepted agent', store'')
    → agent'.nonce ≢ some n
verify_no_replay S S' settings settings' t t' clock clock' r r' store store' store'' agent agent' n
      cs first named room calls early second again =
    let recorded = (verify-IsAuthentic S settings t clock r store store' agent first).1 n named in
    let fresh =
      (verify-IsAuthentic S' settings' t' clock' r' (run cs store') store'' agent' second).1 n
        again in
    let until = forgotten_at settings agent.expires in
    let refusal =
      replay_refused store n clock until clock' (forgotten_at settings' agent'.expires) cs room
        (ap (λ p. p.0) recorded) calls early in
    let same : run cs (seen clock n until store).1 ≡ run cs store' =
      ap (λ p. run cs p.1) recorded in
    true_not_false (sym (rw same at refusal) ∙ ap (λ p. p.0) fresh)
  where
    true_not_false : true ≢ false
    true_not_false e = cc
