-- ===== src/Verifier/Directory/Remembered.antt =====
-- What `JwksCache.keys` of verifier.py accepts, and what it gives at the next call.
use wbauth.Prelude.{
  ◌+◌, ◌≤◌, ◌<◌, Bool, true, false, ◌≡◌, ◌⊎◌, inl, inr, refl, sym, ap, ◌∙◌, none, some, List, [],
  ◌∷◌, ◌++◌, ltb, lt→ltb, length, append-nil, append_assoc, Bool-cases, arith, ◌==◌,
}
use wbauth.Text.{Text}
use wbauth.Dict.{text_keys, get}
use wbauth.Dict.Laws.{get-put_self}
use wbauth.Json.{Json}
use wbauth.Policy.Inspector.Fetch.Bodies.{joined}
use wbauth.Policy.Inspector.Private.{Addresses, resolves_private}
use wbauth.Verifier.Checks.{Checked, accepted, refused}
use wbauth.Verifier.Verify.Authentic.{bind-accepted, required-accepted}
use wbauth.Verifier.Directory.{
  Surroundings, Reply, unreachable, streams, JwksCache, directory_max, read_directory, body_of,
  keys_in, fresh_keys, fetch_keys, remember, keys,
}

read_directory-le-max :
    (broken : Bool) (buf : Text) (chunks : List Text) (body : Text)
    → length buf ≤ directory_max
    → read_directory broken buf chunks ≡ accepted body
    → length body ≤ directory_max
unfolding read_directory
read_directory-le-max broken buf [] body h e = ground arith
read_directory-le-max broken buf (chunk ∷ chunks) body h e =
    elim (Bool-cases (ltb directory_max (length (buf ++ chunk)))) [
      | inl large ↦ absurd (cc (rw large at e))
      | inr small ↦
          read_directory-le-max broken (buf ++ chunk) chunks body (ground (arith, small))
            (rw small at e)
    ]

read_directory-joined :
    (broken : Bool) (buf : Text) (chunks : List Text) (body : Text)
    → read_directory broken buf chunks ≡ accepted body
    → (broken ≡ false) × (body ≡ buf ++ joined chunks)
unfolding read_directory
read_directory-joined true buf [] body e = absurd (cc)
read_directory-joined false buf [] body e = (refl, cc (append-nil buf))
read_directory-joined broken buf (chunk ∷ chunks) body e =
    elim (Bool-cases (ltb directory_max (length (buf ++ chunk)))) [
      | inl large ↦ absurd (cc (rw large at e))
      | inr small ↦
          let (ended, same) =
            read_directory-joined broken (buf ++ chunk) chunks body (rw small at e) in
          (ended, same ∙ append_assoc buf chunk (joined chunks))
    ]

-- A 200 answer that was read to its end: the body is all of its chunks, within the limit.
pub record IsAnswer (reply : Reply) (body : Text) : Type 0 where
  pub chunks : List Text
  pub replied : reply ≡ streams 200 chunks false
  pub read_whole : body ≡ joined chunks
  pub within : length body ≤ directory_max

body_of-IsAnswer :
    (reply : Reply) (body : Text) → body_of reply ≡ accepted body → IsAnswer reply body
unfolding body_of
body_of-IsAnswer unreachable body e = absurd (cc)
body_of-IsAnswer (streams status chunks broken) body e = elim (Bool-cases (status == 200)) [
  | inr wrong ↦ absurd (cc (rw wrong at e))
  | inl fine ↦
      let read = rw fine at e in
      let (ended, same) = read_directory-joined broken [] chunks body read in
      let ok : status ≡ 200 = ground (arith, fine) in
      record {
        chunks = chunks;
        replied = rw (ok, ended) refl;
        read_whole = same;
        within = read_directory-le-max broken [] chunks body (omega arith) read;
      }
]

module _ (A : Addresses) where
  -- What holds of keys that were fetched.
  pub record Published (around : Surroundings) (allow_private : Bool) (url : Text) (ks : List Json)
      : Type 0 where
    pub host : Text
    pub body : Text
    pub named : around.host url ≡ some host
    pub public_host : (allow_private ≡ true) ⊎ (resolves_private A around.attempt host ≡ false)
    pub answered : IsAnswer (around.reply url) body
    pub listed : keys_in (around.loads body) ≡ accepted ks

  -- Keys that were fetched are listed in a 200 answer that was read to its end, of at most 64 KB, from a host that was found to be
  -- public where private ones are not allowed.
  pub fetch_keys-Published :
      (around : Surroundings) (allow_private : Bool) (url : Text) (ks : List Json)
      → fetch_keys A around allow_private url ≡ accepted ks
      → Published around allow_private url ks
  unfolding fetch_keys
  fetch_keys-Published around allow_private url ks e =
      let (host, named, e₁) = bind-accepted _ _ _ e in
      let (b, vetted, e₂) = bind-accepted _ _ _ e₁ in
      let (body, read, e₃) = bind-accepted _ _ _ e₂ in
      record {
        host = host;
        body = body;
        named = required-accepted _ _ host named;
        public_host = ground (arith, vetted);
        answered = body_of-IsAnswer (around.reply url) body read;
        listed = e₃;
      }

  keys_or : List Json → Checked (List Json) → List Json
  keys_or d (accepted ks) = ks
  keys_or d (refused e) = d

  get-remember :
      (around : Surroundings) (url : Text) (cache cache' : JwksCache) (m : Checked (List Json))
      (ks : List Json)
      → remember A around url cache m ≡ (accepted ks, cache')
      → get url cache'.entries ≡ some (around.finish + cache.ttl, ks)
  unfolding keys_or
  get-remember around url cache cache' (refused e) ks h = absurd (cc)
  get-remember around url cache cache' (accepted js) ks h =
      let same = ap (λ p. keys_or ks p.0) h in
      ap (λ p. get url p.1.entries) (sym h)
      ∙ get-put_self url (around.finish + cache.ttl, js) cache.entries
      ∙ ap (λ j. some (around.finish + cache.ttl, j)) same

  -- Keys that were fetched are given again, without a request, until their time is over.
  keys_remembered :
      (around later : Surroundings) (url : Text) (cache cache' : JwksCache) (ks : List Json)
      → fresh_keys around.start (get url cache.entries) ≡ none
      → keys A around url cache ≡ (accepted ks, cache')
      → later.start < around.finish + cache.ttl
      → keys A later url cache' ≡ (accepted ks, cache')
  unfolding keys
  keys_remembered around later url cache cache' ks stale fetched early =
      let kept =
        get-remember around url cache cache' (fetch_keys A around cache.allow_private url) ks
          (rw (stale, keys) at fetched) in
      rw (kept, keys, lt→ltb later.start (around.finish + cache.ttl) early) refl
