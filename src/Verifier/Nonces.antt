-- ===== src/Verifier/Nonces.antt =====
-- `NonceStore` of verifier.py: a dictionary from nonces to the moment at which each is forgotten.
pub mod Replay
pub mod Capacity
pub mod Ideal
use wbauth.Prelude.{
  ℕ, zero, suc, ◌/◌, Bool, true, false, Option, none, some, List, [], ◌∷◌, ltb, leb, if◌then◌else◌,
  length, filter, take, drop,
}
use wbauth.Text.{Text}
use wbauth.Dict.{Dict, text_keys, get, put}

pub record NonceStore : Type 0 where
  pub entries : Dict Text ℕ
  pub maxsize : ℕ

-- `{n: e for n, e in self._seen.items() if e > now}`
abbrev pub unexpired : ℕ → Dict Text ℕ → Dict Text ℕ
unexpired now entries = filter (λ p. ltb now p.1) entries

-- the clean-up of a full store: expired nonces go, and if it is still full, the oldest tenth
unfoldable pub make_room : ℕ → NonceStore → NonceStore
make_room now s =
    if leb s.maxsize (length s.entries)
    then (let live = unexpired now s.entries in
        record s {
          entries = if leb s.maxsize (length live) then drop (s.maxsize / 10) live else live;
        })
    else s

abbrev pub is_live : ℕ → Option ℕ → Bool
is_live now none = false
is_live now (some e) = ltb now e

abbrev pub record_nonce : Text → ℕ → NonceStore → NonceStore
record_nonce nonce expires_at s = record s { entries = put nonce expires_at s.entries }

abbrev pub answer : Bool → Text → ℕ → NonceStore → Bool × NonceStore
answer true nonce expires_at s = (true, s)
answer false nonce expires_at s = (false, record_nonce nonce expires_at s)

unfoldable pub seen : (now : ℕ) → Text → (expires_at : ℕ) → NonceStore → Bool × NonceStore
seen now nonce expires_at s =
    let s' = make_room now s in answer (is_live now (get nonce s'.entries)) nonce expires_at s'
