-- ===== src/Policy/Inspector/Fetch/Validators.antt =====
-- Which hosts see the validators of a conditional request.
use wbauth.Prelude.{
  ℕ, zero, suc, Bool, true, false, not, List, [], ◌∷◌, ◌&&◌, ◌||◌, ◌≡◌, inl, inr, refl, ◌∙◌, arith,
  All, Bool-cases,
}
use wbauth.Text.{Text, str, text_eq}
use wbauth.Text.Laws.{text_eq_iff, text_eq_self}
use wbauth.Dict.{text_keys, remove, has}
use wbauth.Dict.Laws.{get-remove}
use wbauth.Policy.Types.{Endpoint}
use wbauth.Policy.Inspector.Private.{Addresses, resolves_private}
use wbauth.Policy.Inspector.Fetch.{
  Network, Headers, Request, hop, fetch_hops, fetch_one, moved_headers, without_validators,
}
use wbauth.Policy.Inspector.Fetch.Vetting.{
  fetch_hops_induction, fetch_hops-stop, fetch_hops-follow, Hop-cases,
}

module _ (A : Addresses) (N : Network) where
  open N use {Url, host}

  abbrev pub has_validator : Headers → Bool
  has_validator h = has (str "If-None-Match") h || has (str "If-Modified-Since") h

  dropped : (h : Headers) → has_validator (without_validators h) ≡ false
  unfolding without_validators
  dropped h =
      let m = str "If-None-Match" in
      let s = str "If-Modified-Since" in
      ground (
        arith,
        get-remove s m (remove m h),
        get-remove s s (remove m h),
        get-remove m m h,
        text_eq_self m,
        text_eq_self s,
      )

  moved_home :
      {o : Text} (u v : Url) (h : Headers)
      → (has_validator h ≡ true → host u ≡ o)
      → has_validator (moved_headers A N u v h) ≡ true
      → host v ≡ o
  moved_home u v h i e = elim (Bool-cases (text_eq (host v) (host u))) [
    | inl same ↦ (text_eq_iff (host v) (host u)).0 same ∙ i (rw same at e)
    | inr apart ↦ absurd (cc (dropped h, rw apart at e))
  ]

  moved_lost :
      (u v : Url) (h : Headers)
      → has_validator (moved_headers A N u v h) ≡ true
      → has_validator h ≡ true
  moved_lost u v h e = elim (Bool-cases (text_eq (host v) (host u))) [
    | inl same ↦ rw same at e
    | inr apart ↦ absurd (cc (dropped h, rw apart at e))
  ]

  -- A request carries a validator only if all requests before it did.
  abbrev pub IsFading : List (Request A N) → Type 0
  IsFading [] = Unit
  IsFading (r ∷ rs) =
      All (λ s. has_validator s.headers ≡ true → has_validator r.headers ≡ true) rs × IsFading rs

  fetch_hops-IsFading :
      (name : Endpoint) (p : Bool) (hops : ℕ) (current : Url) (h : Headers)
      → IsFading (fetch_hops A N name p hops current h).1
  fetch_hops-IsFading name p zero current h = unfold fetch_hops in tt
  fetch_hops-IsFading name p (suc left) current h =
      elim (Hop-cases A N (hop A N name p left current h)) [
        | inl (outcome, e) ↦ rw (fetch_hops-stop A N name p left current h outcome e) (tt, tt)
        | inr (nxt, e) ↦
            let moved = moved_headers A N current nxt h in
            rw (fetch_hops-follow A N name p left current h nxt e) (
              fetch_hops_induction A N name p
                  (λ u k. has_validator k ≡ true → has_validator h ≡ true)
                  (λ u v k i w j. i (moved_lost u v k j)) left nxt moved (moved_lost current nxt h),
              fetch_hops-IsFading name p left nxt moved,
            )
      ]

  -- A conditional request goes to the host of the origin only, and follows on conditional requests
  -- only: a redirect to another host drops both validators, and no later hop brings them back.
  pub fetch_one-home_validators :
      (name : Endpoint) (url : Url) (ua : Text) (validators : Headers) (allow_private : Bool)
      → All
          (λ r. has_validator r.headers ≡ true → host r.url ≡ host url)
          (fetch_one A N name url ua validators allow_private).1
        × IsFading (fetch_one A N name url ua validators allow_private).1
  unfolding fetch_one
  fetch_one-home_validators name url ua validators allow_private =
      elim (Bool-cases (not allow_private && resolves_private A 6 (host url))) [
        | inl refused ↦ rw refused (tt, tt)
        | inr sent ↦ rw sent (
          fetch_hops_induction A N name _ (λ u h. has_validator h ≡ true → host u ≡ host url)
              (λ u v h i w. moved_home u v h i) 6 url _ (λ e. refl),
          fetch_hops-IsFading name _ 6 url _,
        )
      ]
