-- ===== src/Policy/Cache/Saved/Restored.antt =====
-- What `restore` of policy/cache.py gives back of what `dump` wrote.
use mathlib.Core.Path.{subst}
use wbauth.Prelude.{
  ℕ, ◌+◌, ◌-◌, ◌<◌, false, ◌≡◌, refl, ap, ◌∙◌, Option, none, some, leb, ltb, min, if◌then◌else◌,
  arith, Bool-cases, inl, inr,
}
use wbauth.Text.{Text}
use wbauth.Policy.Types.{Endpoint}
use wbauth.Policy.Cache.Store.{StoreLaws}
use wbauth.Policy.Cache.Entries.{
  parsed, CacheEntry, Key, key_eq, Now, max_ttl, PolicyCache, set_entry, new_entry, entry_ttl,
}
use wbauth.Policy.Cache.Laws.{entry_at, entry_at-set_entry}
use wbauth.Policy.Cache.Saved.{SavedItem, saved, live_item, item_meta, restore_live, restore_item}

module _ {P : Type 0} (L : StoreLaws Key (CacheEntry P)) (U : StoreLaws Key (CacheEntry P))
    (parse : Endpoint → Text → Option Text → Option P) where
  abbrev whole_item : Text → Endpoint → CacheEntry P → Text → SavedItem
  whole_item host ep e raw = record (saved (host, ep) e) { raw = some raw }

  live_item-whole :
      (wall : ℕ) (host : Text) (ep : Endpoint) (e : CacheEntry P) (v : P) (raw : Text)
      (item : SavedItem)
      → e.value ≡ parsed v
      → e.raw ≡ some raw
      → live_item wall ((host, ep), e) ≡ some item
      → whole_item host ep e raw ≡ item
  unfolding live_item
  live_item-whole wall host ep e v raw item val text made =
      elim (Bool-cases (leb (e.stored_at + e.ttl) wall)) [
        | inl over ↦ absurd (cc (rw (over) at made))
        | inr live ↦ cc (simp (live, val, text) at made)
      ]

  restore_item-whole :
      (now : Now) (n : ℕ) (host : Text) (ep : Endpoint) (e : CacheEntry P) (v : P) (raw : Text)
      (c : PolicyCache L U)
      → parse ep raw e.content_type ≡ some v
      → now.wall < e.stored_at + e.ttl
      → restore_item L U parse now (whole_item host ep e raw) (n, c) ≡ (
        n + 1,
        set_entry L U now host ep
            (parsed v)
            (item_meta L U parse
              (whole_item host ep e raw)
              (some raw)
              (min (e.stored_at + e.ttl - now.wall) max_ttl))
            c,
      )
  unfolding restore_item restore_live
  restore_item-whole now n host ep e v raw c reads fresh =
      let live : leb (e.stored_at + e.ttl) now.wall ≡ false = ground arith in rw (live, reads) refl

  -- An entry that is saved and read back while it is fresh is served again with its value, its
  -- validators and its text, until the moment at which it would have expired, but at most 24 hours.
  pub restore_item-live_item :
      (wall : ℕ) (now : Now) (t n : ℕ) (host : Text) (ep : Endpoint) (e : CacheEntry P) (v : P)
      (raw : Text) (item : SavedItem) (c : PolicyCache L U)
      → e.value ≡ parsed v
      → e.raw ≡ some raw
      → parse ep raw e.content_type ≡ some v
      → live_item wall ((host, ep), e) ≡ some item
      → now.wall < e.stored_at + e.ttl
      → let ttl = min (e.stored_at + e.ttl - now.wall) max_ttl in
        (entry_at L U t host ep (restore_item L U parse now item (n, c)).1 ≡ (
          if ltb t (now.mono + ttl)
          then some (record {
            value = parsed v;
            etag = e.etag;
            ttl = ttl;
            last_modified = e.last_modified;
            raw = some raw;
            content_type = e.content_type;
            stored_at = now.wall;
          })
          else none))
  unfolding new_entry entry_ttl
  restore_item-live_item wall now t n host ep e v raw item c val text reads made fresh =
      let ttl = min (e.stored_at + e.ttl - now.wall) max_ttl in
      let m = item_meta L U parse (whole_item host ep e raw) (some raw) ttl in
      let stored = set_entry L U now host ep (parsed v) m c in
      let served =
        entry_at-set_entry L U now t host host ep (parsed v) m c refl (ground arith) refl in
      let read_back : restore_item L U parse now item (n, c) ≡ (n + 1, stored) =
        subst (λ i. restore_item L U parse now i (n, c) ≡ (n + 1, stored))
          (live_item-whole wall host ep e v raw item val text made)
          (restore_item-whole now n host ep e v raw c reads fresh) in
      ap (λ s. entry_at L U t host ep s.1) read_back ∙ served
