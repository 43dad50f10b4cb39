-- ===== src/Tests/Caching.antt =====
-- The cache over a store without a bound, which meets the laws that the model relies on.
use wbauth.Prelude.{
  ℕ, ◌+◌, false, ◌≡◌, ◌≢◌, refl, ap, none, some, arith, ltb, min, true, [], if◌then◌else◌,
}
use wbauth.Text.{Text, str, decimal, contains, starts_with, lower, strip, lstrip, rstrip, rstrip_of}
use wbauth.Dict.{text_keys}
use wbauth.Policy.Types.{robots, ai_txt, endpoint_eq}
use wbauth.Tests.Memory.{memory}
use wbauth.Policy.Cache.Host.{normalize_host}
use wbauth.Policy.Cache.Control.{parse_cache_control, parse_header, max_age}
use wbauth.Policy.Cache.Entries.{
  parsed, Key, key_eq, Now, Meta, PolicyCache, empty_cache, set_entry, entry_ttl, parse_age,
  new_entry, says_no_store, clear, seconds, max_ttl,
}
use wbauth.Policy.Cache.Laws.{entry_at}
use wbauth.Policy.Cache.Spellings.{IsSpelling}
use wbauth.Policy.Cache.Lifetimes.{max_age_header, entry_at-set_entry_spelled}

abbrev now : Now
now = record { mono = 1000; wall = 5000 }

abbrev hourly : Meta
hourly = record {
  cache_control = some (str "Public, Max-Age=3600");
  etag = some (str "\"v1\"");
  last_modified = none;
  raw = none;
  content_type = none;
  ttl_override = none;
  age = some (str "600");
}

abbrev host : Text
host = str "Example.com:443"

abbrev start : PolicyCache {P = ℕ} memory memory
start = empty_cache memory memory

hourly_ttl : entry_ttl robots hourly ≡ 3000000
unfolding entry_ttl parse_age parse_cache_control parse_header max_age contains lower starts_with
    strip lstrip rstrip rstrip_of
hourly_ttl = refl

storable : says_no_store hourly.cache_control ≡ false
unfolding contains lower starts_with
storable = refl

short-IsSpelling : IsSpelling (str "example.com") (str "EXAMPLE.com.")
unfolding lower
short-IsSpelling = record {
  first = b'E';
  middle = str "XAMPLE.co";
  last = b'm';
  dots = str ".";
  with_port = false;
  first_ok = refl;
  middle_ok = refl;
  last_ok = refl;
  dots_ok = refl;
  same_name = refl;
  written = refl;
}

host-IsSpelling : IsSpelling (str "example.com") host
unfolding lower
host-IsSpelling = record {
  first = b'E';
  middle = str "xample.co";
  last = b'm';
  dots = [];
  with_port = true;
  first_ok = refl;
  middle_ok = refl;
  last_ok = refl;
  dots_ok = refl;
  same_name = refl;
  written = refl;
}

abbrev one_hour : Meta
one_hour = record hourly { cache_control = some (str "max-age=3600"); age = none }

says_one_hour : one_hour.cache_control ≡ some (max_age_header 3600)
unfolding decimal
says_one_hour = refl

clear_empties : clear memory memory start ≡ start
unfolding clear
clear_empties = refl

entry_at-set_entry_spelled_example :
    entry_at memory memory 2000
      (str "EXAMPLE.com.")
      robots
      (set_entry memory memory now host robots (parsed 7) one_hour start)
    ≡ (if ltb 2000 (1000 + min (seconds 3600) max_ttl)
        then some (new_entry now robots (parsed 7) one_hour)
        else none)
entry_at-set_entry_spelled_example =
    entry_at-set_entry_spelled memory memory now 2000 3600 (str "example.com") host
      (str "EXAMPLE.com.") robots (parsed 7) one_hour start host-IsSpelling short-IsSpelling refl
      refl says_one_hour (omega arith)

other_endpoint : ◌≢◌ {A = Key} (normalize_host host, robots) (normalize_host host, ai_txt)
other_endpoint e = cc (ap (λ (k : Key). k.1) e)
