-- ===== src/Tests/Saving.antt =====
-- A parsed file that is saved and read back by a later process.
use wbauth.Prelude.{◌≡◌, false, refl, Option, none, some, [], ◌∷◌, arith, ltb, if◌then◌else◌}
use wbauth.Text.{Text, str}
use wbauth.Policy.Types.{Endpoint, robots}
use wbauth.Policy.Cache.Entries.{CacheEntry, parsed, Now, PolicyCache, empty_cache}
use wbauth.Policy.Cache.Laws.{entry_at}
use wbauth.Policy.Cache.Saved.{SavedItem, live_item, dump, restore_item}
use wbauth.Policy.Cache.Saved.Restored.{restore_item-live_item}
use wbauth.Tests.Memory.{memory}

abbrev entry : CacheEntry Text
entry = record {
  value = parsed (str "ok");
  etag = some (str "\"1\"");
  ttl = 5000;
  last_modified = none;
  raw = some (str "ok");
  content_type = none;
  stored_at = 1000;
}

abbrev item : SavedItem
item = record {
  is_stale = false;
  host = some (str "a.example");
  endpoint = some robots;
  etag = some (str "\"1\"");
  last_modified = none;
  content_type = none;
  expires_at = some 6000;
  status = none;
  raw = some (str "ok");
}

abbrev parse : Endpoint → Text → Option Text → Option Text
parse ep t ct = some t

abbrev later : Now
later = record { mono = 50; wall = 2000 }

abbrev start : PolicyCache {P = Text} memory memory
start = empty_cache memory memory

entry_is_saved : dump 1500 (((str "a.example", robots), entry) ∷ []) [] ≡ item ∷ []
unfolding dump
entry_is_saved = refl

saved_item : live_item 1500 ((str "a.example", robots), entry) ≡ some item
unfolding live_item
saved_item = refl

restore_item-live_item_example :
    entry_at memory memory 4000
      (str "a.example")
      robots
      (restore_item memory memory parse later item (0, start)).1
    ≡ (if ltb 4000 4050 then some (record entry { ttl = 4000; stored_at = 2000 }) else none)
restore_item-live_item_example =
    restore_item-live_item memory memory parse 1500 later 4000 0 (str "a.example") robots entry
      (str "ok") (str "ok") item start refl refl refl saved_item (omega arith)
