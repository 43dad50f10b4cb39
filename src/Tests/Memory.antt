-- ===== src/Tests/Memory.antt =====
-- A store without a bound, which meets the laws that the model of the cache relies on.
use wbauth.Prelude.{
  ℕ, ◌<◌, ◌≡◌, ◌≢◌, ◌⊎◌, inr, refl, ap, ◌∙◌, Option, none, some, [], arith, ltb, if◌then◌else◌,
}
use wbauth.Dict.{Dict, get, put}
use wbauth.Dict.Laws.{get-put, get-put_self}
use wbauth.Policy.Cache.Store.{StoreLaws}
use wbauth.Policy.Cache.Entries.{CacheEntry, Key, key_eq}

module _ {P : Type 0} where
  abbrev pub alive : ℕ → Option (CacheEntry P × Option ℕ) → Option (CacheEntry P)
  alive t none = none
  alive t (some (v, none)) = some v
  alive t (some (v, some until)) = if ltb t until then some v else none

  abbrev pub read_kept : ℕ → Key → Dict Key (CacheEntry P × Option ℕ) → Option (CacheEntry P)
  read_kept t k s = alive t (get k s)

  pub read_kept-put_self :
      (now t until : ℕ) (k : Key) (v : CacheEntry P) (s : Dict Key (CacheEntry P × Option ℕ))
      → now < until
      → read_kept t k (put k (v, some until) s) ≡ (if ltb t until then some v else none)
  read_kept-put_self now t until k v s h = ap (alive t) (get-put_self k (v, some until) s)

  pub read_kept-put_kept :
      (now t : ℕ) (k : Key) (v : CacheEntry P) (s : Dict Key (CacheEntry P × Option ℕ))
      → read_kept t k (put k (v, none) s) ≡ some v
  read_kept-put_kept now t k v s = ap (alive t) (get-put_self k (v, none) s)

  pub read_kept-put_ne :
      (now t : ℕ) (k j : Key) (v : CacheEntry P) (until : Option ℕ)
      (s : Dict Key (CacheEntry P × Option ℕ))
      → k ≢ j
      → (read_kept t j (put k (v, until) s) ≡ none)
        ⊎ (read_kept t j (put k (v, until) s) ≡ read_kept t j s)
  read_kept-put_ne now t k j v until s ne =
      inr (ap (alive t) (get-put k j (v, until) s ∙ ground (arith, key_eq.beq_iff k j)))

  pub read_kept-empty : (t : ℕ) (k : Key) → read_kept t k [] ≡ none
  unfolding get
  read_kept-empty t k = refl

  abbrev pub memory : StoreLaws Key (CacheEntry P)
  memory = record {
    S = Dict Key (CacheEntry P × Option ℕ);
    empty = [];
    read = read_kept;
    touch = λ t k s. s;
    write = λ now k v until s. put k (v, until) s;
    read_empty = read_kept-empty;
    read_touch = λ t u k j s. refl;
    read_write_self = read_kept-put_self;
    read_write_kept = read_kept-put_kept;
    read_write_ne = read_kept-put_ne;
  }
