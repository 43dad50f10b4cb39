-- ===== src/Policy/Cache/Saved.antt =====
-- `PolicyCache.dump` and `restore` of policy/cache.py: the items of the file that the cache is saved
-- to. The entries of the two stores are given as lists, and the parser of a body as a function.
pub mod Restored
use mathlib.Core.Path.{subst}
use wbauth.Prelude.{
  ℕ, ◌+◌, ◌-◌, ◌<◌, Bool, true, false, not, ◌&&◌, ◌||◌, ◌≡◌, refl, sym, ap, ◌∙◌, Option, none, some,
  List, [], ◌∷◌, ◌++◌, any, leb, ltb, min, if◌then◌else◌, is_some, arith, Bool-cases, inl, inr,
}
use wbauth.Text.{Text}
use wbauth.Dict.{◌=?◌}
use wbauth.Policy.Types.{Endpoint}
use wbauth.Policy.Cache.Host.{normalize_host}
use wbauth.Policy.Cache.Store.{StoreLaws}
use wbauth.Policy.Cache.Entries.{
  Value, parsed, absent, failed, CacheEntry, Key, key_eq, Now, Meta, max_ttl, present, PolicyCache,
  set_entry, new_entry, entry_ttl, says_no_store,
}
use wbauth.Policy.Cache.Laws.{entry_at, entry_at-set_entry}

-- An item of the file. A key that is missing or not of its type is `none`, as is an endpoint that is
-- not one of the four.
pub record SavedItem : Type 0 where
  pub is_stale : Bool
  pub host : Option Text
  pub endpoint : Option Endpoint
  pub etag : Option Text
  pub last_modified : Option Text
  pub content_type : Option Text
  pub expires_at : Option ℕ
  pub status : Option ℕ
  pub raw : Option Text

abbrev pub is_failed : {P : Type 0} → Value P → Bool
is_failed (failed e) = true
is_failed _ = false

abbrev pub with_item : Option SavedItem → List SavedItem → List SavedItem
with_item none items = items
with_item (some item) items = item ∷ items

module _ {P : Type 0} where
  -- the keys that the two kinds of items share
  abbrev pub saved : Key → CacheEntry P → SavedItem
  saved key e = record {
    is_stale = false;
    host = some key.0;
    endpoint = some key.1;
    etag = e.etag;
    last_modified = e.last_modified;
    content_type = e.content_type;
    expires_at = some (e.stored_at + e.ttl);
    status = none;
    raw = none;
  }

  abbrev pub content_item : Key → CacheEntry P → Value P → Option Text → Option SavedItem
  content_item key e (failed x) raw = none
  content_item key e (absent code) raw = some (record (saved key e) { status = some code })
  content_item key e (parsed v) none = none
  content_item key e (parsed v) (some text) = some (record (saved key e) { raw = some text })

  -- an entry of the first store, at a moment of the wall clock
  unfoldable pub live_item : ℕ → Key × CacheEntry P → Option SavedItem
  live_item now (key, e) =
      if leb (e.stored_at + e.ttl) now then none else content_item key e e.value e.raw

  -- an entry of the second store
  unfoldable pub stale_item : (live_keys : List Key) → Key × CacheEntry P → Option SavedItem
  stale_item live_keys (key, e) =
      if any (λ k. k =? key) live_keys || not (is_some e.raw)
      then none
      else some (record (saved key e) { is_stale = true; expires_at = none; raw = e.raw })

  abbrev pub live_items : ℕ → List (Key × CacheEntry P) → List SavedItem
  live_items now [] = []
  live_items now (e ∷ es) = with_item (live_item now e) (live_items now es)

  abbrev pub keys_of : List (Key × CacheEntry P) → List Key
  keys_of [] = []
  keys_of ((key, e) ∷ es) = let rest = keys_of es in if is_failed e.value then rest else key ∷ rest

  abbrev pub stale_items : List Key → List (Key × CacheEntry P) → List SavedItem
  stale_items live_keys [] = []
  stale_items live_keys (e ∷ es) = with_item (stale_item live_keys e) (stale_items live_keys es)

  -- `dump`
  unfoldable pub dump : (now : ℕ) → (cache stale : List (Key × CacheEntry P)) → List SavedItem
  unfolding live_item stale_item
  dump now cache stale = live_items now cache ++ stale_items (keys_of cache) stale

module _ {P : Type 0} (L : StoreLaws Key (CacheEntry P)) (U : StoreLaws Key (CacheEntry P))
    (parse : Endpoint → Text → Option Text → Option P) where
  abbrev pub item_meta : SavedItem → Option Text → ℕ → Meta
  item_meta item raw ttl = record {
    cache_control = none;
    etag = item.etag;
    last_modified = item.last_modified;
    raw = raw;
    content_type = item.content_type;
    ttl_override = some ttl;
    age = none;
  }

  -- the value of an item, with its text
  abbrev pub item_value : SavedItem → Endpoint → Option (Value P × Option Text)
  item_value item ep = elim item.status [
    | some code ↦ some (absent code, none)
    | none ↦ elim item.raw [
      | none ↦ none
      | some raw ↦ elim (parse ep raw item.content_type) [
        | none ↦ none
        | some v ↦ some (parsed v, some raw)
      ]
    ]
  ]

  abbrev pub keep_item :
      Now
      → SavedItem
      → Endpoint
      → (remaining : ℕ) → Option Text
      → Option (Value P × Option Text)
      → ℕ × PolicyCache L U
      → ℕ × PolicyCache L U
  keep_item now item ep remaining (some host) (some (value, raw)) (n, c) =
      (n + 1, set_entry L U now host ep value (item_meta item raw (min remaining max_ttl)) c)
  keep_item now item ep remaining _ _ state = state

  -- an item with a time at which it expires
  unfoldable pub restore_live : Now → SavedItem → ℕ × PolicyCache L U → ℕ × PolicyCache L U
  unfolding set_entry
  restore_live now item state = elim item.expires_at [
    | none ↦ state
    | some until ↦ elim item.endpoint [
      | none ↦ state
      | some ep ↦
          if leb until now.wall
          then state
          else keep_item now item ep (until - now.wall) item.host (item_value item ep) state
    ]
  ]

  abbrev pub keep_stale_item :
      Now
      → SavedItem
      → Option Text
      → Option Endpoint
      → Option Text
      → ℕ × PolicyCache L U
      → ℕ × PolicyCache L U
  keep_stale_item now item (some host) (some ep) (some raw) (n, c) =
      if not (present item.etag || present item.last_modified)
      then (n, c)
      else elim (parse ep raw item.content_type) [
        | none ↦ (n, c)
        | some v ↦ (
          n,
          record c {
            stale =
                U.write now.mono (normalize_host host, ep)
                  (record {
                    value = parsed v;
                    etag = item.etag;
                    ttl = 0;
                    last_modified = item.last_modified;
                    raw = some raw;
                    content_type = item.content_type;
                    stored_at = now.wall;
                  })
                  none c.stale;
          },
        )
      ]
  keep_stale_item now item _ _ _ state = state

  -- the body of the loop of `restore`, with the number of entries that were restored
  unfoldable pub restore_item : Now → SavedItem → ℕ × PolicyCache L U → ℕ × PolicyCache L U
  unfolding restore_live normalize_host
  restore_item now item state =
      if item.is_stale
      then keep_stale_item now item item.host item.endpoint item.raw state
      else restore_live now item state

  -- `restore`
  unfoldable pub restore : Now → List SavedItem → ℕ × PolicyCache L U → ℕ × PolicyCache L U
  unfolding restore_item
  restore now [] state = state
  restore now (item ∷ items) state = restore now items (restore_item now item state)
