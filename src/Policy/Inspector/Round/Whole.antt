-- ===== src/Policy/Inspector/Round/Whole.antt =====
-- `_inspect_fetch` of policy/inspector.py: no endpoint touches another.
use mathlib.Core.Path.{subst}
use wbauth.Prelude.{Bool, false, not, ◌≡◌, refl, Option, List, [], ◌∷◌, any, arith, filter}
use wbauth.Text.{Text}
use wbauth.Dict.{Dict, put}
use wbauth.Dict.Laws.{get-put_self}
use wbauth.Policy.Types.{Endpoint, endpoint_eq, endpoint_beq, endpoint_beq_iff}
use wbauth.Policy.Cache.Entries.{CacheEntry, Key, PolicyCache, get_stale}
use wbauth.Policy.Cache.Store.{StoreLaws}
use wbauth.Policy.Inspector.Private.{Addresses}
use wbauth.Policy.Inspector.Fetch.{Network}
use wbauth.Policy.Inspector.Endpoints.{Item, Parsers}
use wbauth.Policy.Inspector.Round.{
  Around, Findings, settle, settle_all, old_of, fetch_shared, validators_of, distinct,
  stale_entries, inspect_fetch,
}
use wbauth.Policy.Inspector.Round.Apart.{Agree, Agree-refl, Agree-trans, settle-Agree, settle-apart}

module _ {Source : Type 0} (A : Addresses) (N : Network) (parsers : Parsers Source)
    (L : StoreLaws Key (CacheEntry (Item Source)))
    (U : StoreLaws Key (CacheEntry (Item Source))) where
  abbrev Found : Type 0
  Found = Findings A N parsers L U

  -- `_inspect_fetch` leaves an endpoint that it is not asked for as it is.
  settle_all-apart :
      (around : Around N) (host ua : Text) (allow_private : Bool)
      (olds : Dict Endpoint (Option (CacheEntry (Item Source)))) (eps : List Endpoint)
      (ep : Endpoint) (f : Found)
      → any (endpoint_beq ep) eps ≡ false
      → Agree A N parsers L U ep
          (settle_all A N parsers L U around host ua allow_private olds eps f)
          f
  unfolding settle_all
  settle_all-apart around host ua allow_private olds [] ep f h = Agree-refl A N parsers L U ep f
  settle_all-apart around host ua allow_private olds (e ∷ eps) ep f h =
      let old = old_of A N parsers L U e olds in
      let answer =
        fetch_shared A N parsers L U around host ua allow_private e
          (validators_of A N parsers L U old) in
      let next = settle A N parsers L U around host e old answer f in
      Agree-trans A N parsers L U ep
        (settle_all A N parsers L U around host ua allow_private olds eps next) next f
        (settle_all-apart around host ua allow_private olds eps ep next (ground (arith, h)))
        (settle-apart A N parsers L U around host ep e old answer f
          (ground (arith, h, endpoint_beq_iff ep e, endpoint_beq_iff e ep)))

  pub any-filter :
      (p m : Endpoint → Bool) (eps : List Endpoint)
      → any p eps ≡ false
      → any p (filter m eps) ≡ false
  any-filter p m [] h = refl
  any-filter p m (e ∷ eps) h = ground (arith, h, any-filter p m eps)

  any-distinct :
      (p : Endpoint → Bool) (eps : List Endpoint) → any p eps ≡ false → any p (distinct eps) ≡ false
  unfolding distinct
  any-distinct p [] h = refl
  any-distinct p (e ∷ eps) h =
      let rest =
        any-filter p (λ x. not (endpoint_beq e x)) (distinct eps)
          (any-distinct p eps (ground (arith, h))) in
      ground (arith, h, rest)

  any-filter_self :
      (ep : Endpoint) (eps : List Endpoint)
      → any (endpoint_beq ep) (filter (λ x. not (endpoint_beq ep x)) eps) ≡ false
  any-filter_self ep [] = refl
  any-filter_self ep (e ∷ eps) = ground (arith, any-filter_self ep eps)

  touched-Agree :
      (ep : Endpoint) (f : Found) (c : PolicyCache L U)
      → Agree A N parsers L U ep (record f { cache = c }) f
  touched-Agree ep f c = record { same_value = refl; same_error = refl }

  pub inspect_fetch-apart :
      (around : Around N) (host : Text) (eps : List Endpoint) (ua : Text) (allow_private : Bool)
      (ep : Endpoint) (f : Found)
      → any (endpoint_beq ep) eps ≡ false
      → Agree A N parsers L U ep
          (inspect_fetch A N parsers L U around host eps ua allow_private f)
          f
  unfolding inspect_fetch
  inspect_fetch-apart around host eps ua allow_private ep f h =
      let stale = stale_entries A N parsers L U around.reads host eps f.cache in
      let g = record f { cache = stale.1 } in
      Agree-trans A N parsers L U ep
        (settle_all A N parsers L U around host ua allow_private stale.0 (distinct eps) g) g f
        (settle_all-apart around host ua allow_private stale.0 (distinct eps) ep g
          (any-distinct (endpoint_beq ep) eps h))
        (touched-Agree ep f stale.1)

  -- What `_inspect_fetch` finds for the first endpoint that it is asked for depends on no other.
  pub inspect_fetch-first :
      (around : Around N) (host : Text) (ep : Endpoint) (eps : List Endpoint) (ua : Text)
      (allow_private : Bool) (f : Found)
      → let old = (get_stale L U around.reads host ep f.cache).0 in
        Agree A N parsers L U ep
          (inspect_fetch A N parsers L U around host (ep ∷ eps) ua allow_private f)
          (settle A N parsers L U around host ep old
            (fetch_shared A N parsers L U around host ua allow_private ep
              (validators_of A N parsers L U old))
            f)
  unfolding inspect_fetch settle_all distinct stale_entries
  inspect_fetch-first around host ep eps ua allow_private f =
      let (old, touched) = get_stale L U around.reads host ep f.cache in
      let (olds, last) = stale_entries A N parsers L U around.reads host eps touched in
      let all = put ep old olds in
      let kept = old_of A N parsers L U ep all in
      let same : kept ≡ old = rw (get-put_self ep old olds, old_of) refl in
      let step : Option (CacheEntry (Item Source)) → Found → Found = λ o g.
        settle A N parsers L U around host ep o
          (fetch_shared A N parsers L U around host ua allow_private ep
            (validators_of A N parsers L U o))
          g in
      let g = record f { cache = last } in
      let others = filter (λ x. not (endpoint_beq ep x)) (distinct eps) in
      let end = settle_all A N parsers L U around host ua allow_private all others (step kept g) in
      Agree-trans A N parsers L U ep end (step kept g) (step old f)
        (settle_all-apart around host ua allow_private all others ep (step kept g)
          (any-filter_self ep (distinct eps)))
        (subst (λ o. Agree A N parsers L U ep (step kept g) (step o f)) same
          (settle-Agree A N parsers L U around host ep ep kept
            (fetch_shared A N parsers L U around host ua allow_private ep
              (validators_of A N parsers L U kept))
            g f (touched-Agree ep f last)))
