-- ===== src/Policy/Cache/Laws.antt =====
-- What a reader of the cache gets after a write.
use wbauth.Prelude.{
  ℕ, ◌+◌, ◌≤◌, ◌<◌, Bool, true, false, ◌||◌, ◌≡◌, ◌≢◌, ◌∙◌, ◌⊎◌, inl, inr, refl, ap, Option, none,
  some, ltb, ◌==◌, if◌then◌else◌, arith, Bool-cases,
}
use wbauth.Text.{Text}
use wbauth.Policy.Types.{Endpoint, robots, ai_txt, llms_txt, signing_directory}
use wbauth.Policy.Cache.Host.{normalize_host}
use wbauth.Policy.Cache.Control.{parse_cache_control}
use wbauth.Policy.Cache.Store.{StoreLaws}
use wbauth.Policy.Cache.Entries.{
  CacheEntry, Value, Meta, Now, Key, PolicyCache, get_entry, get_stale, set_entry, entry_ttl,
  says_no_store, keep_fresh, keep_stale, new_entry, computed_ttl, default_ttl, max_ttl, present,
  is_absent,
}

computed-le-max :
    (endpoint : Endpoint) (p : Bool × Option ℕ) (age : Option Text)
    → computed_ttl (default_ttl endpoint) p age ≤ max_ttl
computed-le-max endpoint (false, o) age = omega arith
computed-le-max robots (true, none) age = omega arith
computed-le-max ai_txt (true, none) age = omega arith
computed-le-max llms_txt (true, none) age = omega arith
computed-le-max signing_directory (true, none) age = omega arith
computed-le-max endpoint (true, some n) age = omega arith

-- What the origin's headers leave of an entry's life never passes 24 hours.
pub entry_ttl-le-max :
    (endpoint : Endpoint) (m : Meta) → m.ttl_override ≡ none → entry_ttl endpoint m ≤ max_ttl
unfolding entry_ttl
entry_ttl-le-max endpoint m h =
    rw h (computed-le-max endpoint (parse_cache_control m.cache_control) m.age)

module _ {P : Type 0} (L : StoreLaws Key (CacheEntry P)) (U : StoreLaws Key (CacheEntry P)) where
  -- A header that says `no-store` leaves both stores as they were.
  pub set_entry_no_store :
      (now : Now) (host : Text) (endpoint : Endpoint) (value : Value P) (m : Meta)
      (c : PolicyCache L U)
      → says_no_store m.cache_control ≡ true
      → set_entry L U now host endpoint value m c ≡ c
  unfolding set_entry
  set_entry_no_store now host endpoint value m c h = rw h

  -- the two assignments of `set`, one store at a time
  cache-keep_stale :
      (now : Now) (k : Key) (entry : CacheEntry P) (c : PolicyCache L U)
      → (keep_stale L U now k entry c).cache ≡ c.cache
  unfolding keep_stale
  cache-keep_stale now k entry c = ground arith

  stale-keep_fresh :
      (now : Now) (k : Key) (entry : CacheEntry P) (c : PolicyCache L U)
      → (keep_fresh L U now k entry c).stale ≡ c.stale
  unfolding keep_fresh
  stale-keep_fresh now k entry c = ground arith

  read-keep_fresh_self :
      (now : Now) (t : ℕ) (k : Key) (entry : CacheEntry P) (c : PolicyCache L U)
      → 0 < entry.ttl
      → L.read t k (keep_fresh L U now k entry c).cache
        ≡ (if ltb t (now.mono + entry.ttl) then some entry else none)
  unfolding keep_fresh
  read-keep_fresh_self now t k entry c p =
      let z : (entry.ttl == 0) ≡ false = ground arith in
      rw z (L.read_write_self now.mono t (now.mono + entry.ttl) k entry c.cache (omega arith))

  read-keep_fresh_ne :
      (now : Now) (t : ℕ) (k j : Key) (entry : CacheEntry P) (c : PolicyCache L U)
      → k ≢ j
      → (L.read t j (keep_fresh L U now k entry c).cache ≡ none)
        ⊎ (L.read t j (keep_fresh L U now k entry c).cache ≡ L.read t j c.cache)
  unfolding keep_fresh
  read-keep_fresh_ne now t k j entry c ne = elim (Bool-cases (entry.ttl == 0)) [
    | inl z ↦ inr (rw z)
    | inr z ↦ rw z (L.read_write_ne now.mono t k j entry (some (now.mono + entry.ttl)) c.cache ne)
  ]

  read-keep_stale_self :
      (now : Now) (t : ℕ) (k : Key) (entry : CacheEntry P) (c : PolicyCache L U)
      → (present entry.etag || present entry.last_modified) ≡ true
      → is_absent entry.value ≡ false
      → U.read t k (keep_stale L U now k entry c).stale ≡ some entry
  unfolding keep_stale
  read-keep_stale_self now t k entry c v a =
      rw (v, a) (U.read_write_kept now.mono t k entry c.stale)

  abbrev pub entry_at : ℕ → Text → Endpoint → PolicyCache L U → Option (CacheEntry P)
  entry_at t host endpoint c = (get_entry L U (record { mono = t; wall = t }) host endpoint c).0

  abbrev stale_at : ℕ → Text → Endpoint → PolicyCache L U → Option (CacheEntry P)
  stale_at t host endpoint c = (get_stale L U (record { mono = t; wall = t }) host endpoint c).0

  -- A stored entry is served under every spelling of its host, until its time to live is over and
  -- no longer.
  pub entry_at-set_entry :
      (now : Now) (t : ℕ) (host host' : Text) (endpoint : Endpoint) (value : Value P) (m : Meta)
      (c : PolicyCache L U)
      → says_no_store m.cache_control ≡ false
      → 0 < entry_ttl endpoint m
      → normalize_host host' ≡ normalize_host host
      → entry_at t host' endpoint (set_entry L U now host endpoint value m c) ≡ (
          if ltb t (now.mono + entry_ttl endpoint m)
          then some (new_entry now endpoint value m)
          else none)
  unfolding get_entry set_entry
  entry_at-set_entry now t host host' endpoint value m c h p e =
      let k : Key = (normalize_host host, endpoint) in
      let entry = new_entry now endpoint value m in
      rw (h, e) (read-keep_fresh_self now t k entry (keep_stale L U now k entry c) p)

  -- Without an override nothing that is stored is served 24 hours later.
  entry_at-set_entry_after :
      (now : Now) (t : ℕ) (host : Text) (endpoint : Endpoint) (value : Value P) (m : Meta)
      (c : PolicyCache L U)
      → says_no_store m.cache_control ≡ false
      → 0 < entry_ttl endpoint m
      → m.ttl_override ≡ none
      → now.mono + max_ttl ≤ t
      → entry_at t host endpoint (set_entry L U now host endpoint value m c) ≡ none
  entry_at-set_entry_after now t host endpoint value m c h p o late =
      entry_at-set_entry now t host host endpoint value m c h p refl
      ∙ ground (arith, entry_ttl-le-max endpoint m o)

  -- A write leaves another key as it was, or pushes it out: no entry is served under another key.
  entry_at-set_entry_ne :
      (now : Now) (t : ℕ) (host host' : Text) (endpoint endpoint' : Endpoint) (value : Value P)
      (m : Meta) (c : PolicyCache L U)
      → ◌≢◌ {A = Key} (normalize_host host, endpoint) (normalize_host host', endpoint')
      → (entry_at t host' endpoint' (set_entry L U now host endpoint value m c) ≡ none)
        ⊎ (entry_at t host' endpoint' (set_entry L U now host endpoint value m c)
            ≡ entry_at t host' endpoint' c)
  unfolding get_entry set_entry
  entry_at-set_entry_ne now t host host' endpoint endpoint' value m c ne =
      let k : Key = (normalize_host host, endpoint) in
      let j : Key = (normalize_host host', endpoint') in
      let entry = new_entry now endpoint value m in
      elim (Bool-cases (says_no_store m.cache_control)) [
        | inl h ↦ inr (rw h)
        | inr h ↦
            rw h (elim (read-keep_fresh_ne now t k j entry (keep_stale L U now k entry c) ne) [
              | inl gone ↦ inl gone
              | inr same ↦ inr (same ∙ ap (λ s. L.read t j s) (cache-keep_stale now k entry c))
            ])
      ]

  -- An entry with a validator can be revalidated at any later time, also if its headers say that
  -- it is never fresh, unless they say `no-store` or it stands for an absent file.
  stale_at-set_entry :
      (now : Now) (t : ℕ) (host host' : Text) (endpoint : Endpoint) (value : Value P) (m : Meta)
      (c : PolicyCache L U)
      → says_no_store m.cache_control ≡ false
      → (present m.etag || present m.last_modified) ≡ true
      → is_absent value ≡ false
      → normalize_host host' ≡ normalize_host host
      → stale_at t host' endpoint (set_entry L U now host endpoint value m c)
        ≡ some (new_entry now endpoint value m)
  unfolding get_stale set_entry
  stale_at-set_entry now t host host' endpoint value m c h v a e =
      let k : Key = (normalize_host host, endpoint) in
      let entry = new_entry now endpoint value m in
      rw (h, e, stale-keep_fresh) (read-keep_stale_self now t k entry c v a)
