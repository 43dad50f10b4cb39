-- ===== src/Policy/Cache/Store.antt =====
-- What the cache relies on of `cachetools`: a bounded store with a time to use for each value
-- (`TLRUCache`; an `LRUCache` is one whose values never expire). A write may push other keys out
-- but not the key that is written, and a read changes only the order in which keys are pushed out.
use wbauth.Prelude.{ℕ, ◌<◌, ◌≡◌, ◌≢◌, ◌⊎◌, Option, none, some, ltb, if◌then◌else◌}

-- `until now v` is the moment at which a value that is stored at `now` expires.
pub record StoreLaws (K V : Type 0) : Type 1 where
  pub S : Type 0
  pub empty : S
  pub read : ℕ → K → S → Option V
  pub touch : ℕ → K → S → S
  pub write : (now : ℕ) → K → V → (until : Option ℕ) → S → S
  pub read_empty : (t : ℕ) (k : K) → read t k empty ≡ none
  pub read_touch : (t u : ℕ) (k j : K) (s : S) → read t j (touch u k s) ≡ read t j s
  pub read_write_self :
      (now t until : ℕ) (k : K) (v : V) (s : S)
      → now < until
      → read t k (write now k v (some until) s) ≡ (if ltb t until then some v else none)
  pub read_write_kept :
      (now t : ℕ) (k : K) (v : V) (s : S) → read t k (write now k v none s) ≡ some v
  pub read_write_ne :
      (now t : ℕ) (k j : K) (v : V) (until : Option ℕ) (s : S)
      → k ≢ j
      → (read t j (write now k v until s) ≡ none) ⊎ (read t j (write now k v until s) ≡ read t j s)
