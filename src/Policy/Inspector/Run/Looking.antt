-- ===== src/Policy/Inspector/Run/Looking.antt =====
-- The loop of `inspect` in policy/inspector.py over the cache: which names are missing after it.
use mathlib.Core.Path.{subst}
use wbauth.Prelude.{
  Bool, false, not, ◌&&◌, ◌≡◌, refl, sym, ap, ◌∙◌, Option, none, some, List, [], ◌∷◌, ◌++◌, any,
  filter, is_some, arith, append-nil, append_assoc, if◌then◌else◌,
}
use wbauth.Text.{Text}
use wbauth.Dict.Laws.{get-put}
use wbauth.Urls.{UrlSplit}
use wbauth.Policy.Types.{Endpoint, endpoint_eq, endpoint_beq, endpoint_beq_iff, RobotsResult}
use wbauth.Policy.Cache.Entries.{Value, parsed, absent, failed, CacheEntry, Key, Now, get_entry}
use wbauth.Policy.Cache.Host.{normalize_host}
use wbauth.Policy.Cache.Store.{StoreLaws}
use wbauth.Policy.Inspector.Private.{Addresses}
use wbauth.Policy.Inspector.Fetch.{Network}
use wbauth.Policy.Inspector.Endpoints.{Item, Parsers}
use wbauth.Policy.Inspector.Round.{Findings}
use wbauth.Policy.Inspector.Round.Apart.{Agree, Agree-refl, Agree-trans}
use wbauth.Policy.Inspector.Run.{known, look_up_entry, look_up}

module _ {Source : Type 0} (A : Addresses) (N : Network) (urlsplit : UrlSplit)
    (parsers : Parsers Source) (evaluate : Source → Text → Text → RobotsResult)
    (default_user_agent : Text) (L : StoreLaws Key (CacheEntry (Item Source)))
    (U : StoreLaws Key (CacheEntry (Item Source))) where
  abbrev State : Type 0
  State = Findings A N parsers L U

  abbrev looks : Now → Text → List Endpoint → List Endpoint × State → List Endpoint × State
  looks = look_up A N urlsplit parsers evaluate default_user_agent L U

  abbrev takes : Endpoint → Value (Item Source) → State → State
  takes = known A N urlsplit parsers evaluate default_user_agent L U

  known-apart :
      (ep at : Endpoint) (v : Value (Item Source)) (f : State)
      → endpoint_beq at ep ≡ false
      → Agree A N parsers L U ep (takes at v f) f
  unfolding known
  known-apart ep at (absent status) f h = record {
    same_value = refl;
    same_error = rw (get-put at ep _ f.errors, h) refl;
  }
  known-apart ep at (failed e) f h = record {
    same_value = refl;
    same_error = rw (get-put at ep _ f.errors, h) refl;
  }
  known-apart ep at (parsed v) f h = record {
    same_value = rw (get-put at ep _ f.raw, h) refl;
    same_error = refl;
  }

  known-cache :
      (ep : Endpoint) (v : Value (Item Source)) (f : State) → (takes ep v f).cache ≡ f.cache
  unfolding known
  known-cache ep (absent status) f = refl
  known-cache ep (failed e) f = refl
  known-cache ep (parsed v) f = refl

  -- What the cache holds for a host, at a moment
  abbrev pub Holds : Now → Text → (Endpoint → Option (CacheEntry (Item Source))) → State → Type 0
  Holds now host entry f =
      (ep : Endpoint) → L.read now.mono (normalize_host host, ep) f.cache.cache ≡ entry ep

  abbrev pub is_missing : (Endpoint → Option (CacheEntry (Item Source))) → Endpoint → Bool
  is_missing entry ep = not (is_some (entry ep))

  touched : Now → Text → Endpoint → State → State
  touched now host ep f = record f { cache = (get_entry L U now host ep f.cache).1 }

  touched-Holds :
      (now : Now) (host : Text) (entry : Endpoint → Option (CacheEntry (Item Source)))
      (ep : Endpoint) (f : State)
      → Holds now host entry f
      → Holds now host entry (touched now host ep f)
  unfolding touched get_entry
  touched-Holds now host entry ep f holds e =
      L.read_touch now.mono now.mono (normalize_host host, ep) (normalize_host host, e)
        f.cache.cache
      ∙ holds e

  -- One step of the loop
  step :
      Now
      → Text
      → Endpoint
      → Option (CacheEntry (Item Source))
      → List Endpoint × State
      → List Endpoint × State
  step now host ep entry (missing, f) =
      look_up_entry A N urlsplit parsers evaluate default_user_agent L U ep entry
        (missing, touched now host ep f)

  look_up-step :
      (now : Now) (host : Text) (entry : Endpoint → Option (CacheEntry (Item Source)))
      (ep : Endpoint) (eps missing : List Endpoint) (f : State)
      → Holds now host entry f
      → looks now host (ep ∷ eps) (missing, f)
        ≡ looks now host eps (step now host ep (entry ep) (missing, f))
  unfolding look_up touched step get_entry
  look_up-step now host entry ep eps missing f holds =
      ap (λ e. looks now host eps (step now host ep e (missing, f))) (holds ep)

  step-Holds :
      (now : Now) (host : Text) (entry : Endpoint → Option (CacheEntry (Item Source)))
      (ep : Endpoint) (found : Option (CacheEntry (Item Source))) (missing : List Endpoint)
      (f : State)
      → Holds now host entry f
      → Holds now host entry (step now host ep found (missing, f)).1
  unfolding step
  step-Holds now host entry ep none missing f holds = touched-Holds now host entry ep f holds
  step-Holds now host entry ep (some e) missing f holds =
      subst (λ c. (x : Endpoint) → L.read now.mono (normalize_host host, x) c.cache ≡ entry x)
        (sym (known-cache ep e.value (touched now host ep f)))
        (touched-Holds now host entry ep f holds)

  step-missing :
      (now : Now) (host : Text) (ep : Endpoint) (found : Option (CacheEntry (Item Source)))
      (eps missing : List Endpoint) (f : State)
      → (step now host ep found (missing, f)).0 ++ eps
        ≡ missing ++ (if not (is_some found) then ep ∷ eps else eps)
  unfolding step
  step-missing now host ep none eps missing f = append_assoc missing (ep ∷ []) eps
  step-missing now host ep (some e) eps missing f = refl

  -- The names that are missing are those that the cache does not hold, in their order.
  pub look_up-missing :
      (now : Now) (host : Text) (entry : Endpoint → Option (CacheEntry (Item Source)))
      (eps missing : List Endpoint) (f : State)
      → Holds now host entry f
      → (looks now host eps (missing, f)).0 ≡ missing ++ filter (is_missing entry) eps
  unfolding look_up
  look_up-missing now host entry [] missing f holds = sym (append-nil missing)
  look_up-missing now host entry (ep ∷ eps) missing f holds =
      let next = step now host ep (entry ep) (missing, f) in
      ap (λ r. r.0) (look_up-step now host entry ep eps missing f holds)
      ∙ look_up-missing now host entry eps next.0 next.1
          (step-Holds now host entry ep (entry ep) missing f holds)
      ∙ step-missing now host ep (entry ep) (filter (is_missing entry) eps) missing f

  step-apart :
      (now : Now) (host : Text) (ep at : Endpoint) (found : Option (CacheEntry (Item Source)))
      (missing : List Endpoint) (f : State)
      → endpoint_beq ep at && is_some found ≡ false
      → Agree A N parsers L U ep (step now host at found (missing, f)).1 f
  unfolding step touched
  step-apart now host ep at none missing f h = record { same_value = refl; same_error = refl }
  step-apart now host ep at (some e) missing f h =
      let moved =
        known-apart ep at e.value (touched now host at f)
          (ground (arith, h, endpoint_beq_iff ep at, endpoint_beq_iff at ep)) in
      record { same_value = moved.same_value; same_error = moved.same_error }

  -- The loop finds nothing of an endpoint that it is not asked for or that the cache does not hold.
  pub look_up-apart :
      (now : Now) (host : Text) (entry : Endpoint → Option (CacheEntry (Item Source)))
      (ep : Endpoint) (eps missing : List Endpoint) (f : State)
      → Holds now host entry f
      → any (λ e. endpoint_beq ep e && is_some (entry e)) eps ≡ false
      → Agree A N parsers L U ep (looks now host eps (missing, f)).1 f
  unfolding look_up
  look_up-apart now host entry ep [] missing f holds h = Agree-refl A N parsers L U ep f
  look_up-apart now host entry ep (e ∷ eps) missing f holds h =
      let next = step now host e (entry e) (missing, f) in
      subst (λ r. Agree A N parsers L U ep r.1 f)
        (sym (look_up-step now host entry e eps missing f holds))
        (Agree-trans A N parsers L U ep (looks now host eps next).1 next.1 f
          (look_up-apart now host entry ep eps next.0 next.1
            (step-Holds now host entry e (entry e) missing f holds) (ground (arith, h)))
          (step-apart now host ep e (entry e) missing f (ground (arith, h))))
