-- ===== src/Policy/Cache/Entries.antt =====
-- `CacheEntry` and the methods of `PolicyCache` that read and write one entry.
use wbauth.Prelude.{
  ℕ, ◌+◌, ◌-◌, ◌*◌, Bool, true, false, not, ◌&&◌, ◌||◌, Option, none, some, [], ◌∷◌, ◌==◌, min,
  if◌then◌else◌, get_or_else, is_empty, is_some, filter,
}
use wbauth.Text.{Text, str, contains, lower, strip, is_digit}
use wbauth.Dict.{Eq, pair_eq, text_keys}
use wbauth.Matching.{number_from}
use wbauth.Policy.Errors.{Exception}
use wbauth.Policy.Types.{Endpoint, robots, ai_txt, llms_txt, signing_directory, endpoint_eq}
use wbauth.Policy.Cache.Host.{normalize_host}
use wbauth.Policy.Cache.Control.{parse_cache_control}
use wbauth.Policy.Cache.Store.{StoreLaws}

abbrev pub seconds : ℕ → ℕ
seconds n = n * 1000

abbrev pub default_ttl : Endpoint → ℕ
default_ttl robots = seconds 86400
default_ttl ai_txt = seconds 3600
default_ttl llms_txt = seconds 86400
default_ttl signing_directory = seconds 300

abbrev pub max_ttl : ℕ
max_ttl = seconds 86400

-- A parsed value, or the markers `Absent` and `Failed`.
pub data Value (P : Type 0) : Type 0 where
  parsed : P → Value P
  absent : (status_code : ℕ) → Value P
  failed : Exception → Value P

pub record CacheEntry (P : Type 0) : Type 0 where
  pub value : Value P
  pub etag : Option Text
  pub ttl : ℕ
  pub last_modified : Option Text
  pub raw : Option Text
  pub content_type : Option Text
  pub stored_at : ℕ

abbrev pub Key : Type 0
Key = Text × Endpoint

instance abbrev pub key_eq : Eq Key
key_eq = pair_eq text_keys endpoint_eq

pub record Now : Type 0 where
  pub mono : ℕ
  pub wall : ℕ

-- The arguments of `set` that come from a response.
pub record Meta : Type 0 where
  pub cache_control : Option Text
  pub etag : Option Text
  pub last_modified : Option Text
  pub raw : Option Text
  pub content_type : Option Text
  pub ttl_override : Option ℕ
  pub age : Option Text

-- the truth of an optional text
abbrev pub present : Option Text → Bool
present none = false
present (some t) = not (is_empty t)

abbrev pub is_absent : {P : Type 0} → Value P → Bool
is_absent (absent n) = true
is_absent _ = false

-- digits, with single underscores between them
abbrev digits_ok : Bool → Text → Bool
digits_ok last [] = last
digits_ok last (c ∷ s) =
    let rest = digits_ok (is_digit c) s in
    if is_digit c then rest else if last && c == b'_' then rest else false

abbrev unsigned : Text → Option ℕ
unsigned s = if digits_ok false s then some (number_from 0 (filter is_digit s)) else none

-- `max(0, int(str(age).strip()))`; `none` is the `ValueError`
abbrev signed : Text → Option ℕ
signed [] = none
signed (c ∷ s) =
    if c == b'-'
    then (if is_some (unsigned s) then some 0 else none)
    else if c == b'+'
    then unsigned s
    else unsigned (c ∷ s)

unfoldable pub parse_age : Option Text → ℕ
unfolding strip
parse_age none = 0
parse_age (some age) = get_or_else (signed (strip age)) 0

-- the time to live that `set` comes to, 0 where it returns without storing
abbrev pub computed_ttl : ℕ → Bool × Option ℕ → Option Text → ℕ
computed_ttl default (false, max_age) age = 0
computed_ttl default (true, none) age = default
computed_ttl default (true, some n) age = min (seconds n) max_ttl - seconds (parse_age age)

unfoldable pub entry_ttl : Endpoint → Meta → ℕ
unfolding parse_cache_control parse_age
entry_ttl endpoint m = elim m.ttl_override [
  | some ttl ↦ ttl
  | none ↦ computed_ttl (default_ttl endpoint) (parse_cache_control m.cache_control) m.age
]

abbrev pub says_no_store : Option Text → Bool
says_no_store none = false
says_no_store (some header) = not (is_empty header) && contains (lower header) (str "no-store")

-- the entry that `set` makes, with the time to live that it assigns at the end
unfoldable pub new_entry : {P : Type 0} → Now → Endpoint → Value P → Meta → CacheEntry P
unfolding entry_ttl
new_entry now endpoint value m = record {
  value = value;
  etag = m.etag;
  ttl = entry_ttl endpoint m;
  last_modified = m.last_modified;
  raw = m.raw;
  content_type = m.content_type;
  stored_at = now.wall;
}

module _ {P : Type 0} (L : StoreLaws Key (CacheEntry P)) (U : StoreLaws Key (CacheEntry P)) where
  pub record PolicyCache : Type 0 where
    pub cache : L.S
    pub stale : U.S

  open L use {read, touch, write}

  abbrev pub empty_cache : PolicyCache
  empty_cache = record { cache = L.empty; stale = U.empty }

  -- A read counts as a use of the entry.
  unfoldable pub get_entry :
      Now → Text → Endpoint → PolicyCache → Option (CacheEntry P) × PolicyCache
  get_entry now host endpoint c =
      let key : Key = (normalize_host host, endpoint) in
      (read now.mono key c.cache, record c { cache = touch now.mono key c.cache })

  unfoldable pub get_stale :
      Now → Text → Endpoint → PolicyCache → Option (CacheEntry P) × PolicyCache
  get_stale now host endpoint c =
      let key : Key = (normalize_host host, endpoint) in
      (U.read now.mono key c.stale, record c { stale = U.touch now.mono key c.stale })

  -- the two assignments of `set`: the entry object in both stores is one, so both see its `ttl`
  unfoldable pub keep_stale : Now → Key → CacheEntry P → PolicyCache → PolicyCache
  keep_stale now key entry c =
      if (present entry.etag || present entry.last_modified) && not (is_absent entry.value)
      then record c { stale = U.write now.mono key entry none c.stale }
      else c

  unfoldable pub keep_fresh : Now → Key → CacheEntry P → PolicyCache → PolicyCache
  keep_fresh now key entry c =
      if entry.ttl == 0
      then c
      else record c { cache = write now.mono key entry (some (now.mono + entry.ttl)) c.cache }

  unfoldable pub set_entry : Now → Text → Endpoint → Value P → Meta → PolicyCache → PolicyCache
  unfolding keep_stale keep_fresh new_entry contains lower
  set_entry now host endpoint value m c =
      let key : Key = (normalize_host host, endpoint) in
      let entry = new_entry now endpoint value m in
      if says_no_store m.cache_control
      then c
      else keep_fresh now key entry (keep_stale now key entry c)

  unfoldable pub clear : PolicyCache → PolicyCache
  clear c = empty_cache
