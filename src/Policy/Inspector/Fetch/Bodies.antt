-- ===== src/Policy/Inspector/Fetch/Bodies.antt =====
-- What a fetch returns: its status, and a body within the endpoint's cap.
use wbauth.Prelude.{
  ℕ, zero, suc, ◌≤◌, ◌<◌, Bool, not, ◌≡◌, ◌⊎◌, inl, inr, refl, ap, ◌∙◌, sym, Option, none, some,
  List, [], ◌∷◌, ◌++◌, arith, length, length-append, length-take, take, append-nil, append_assoc,
  Bool-cases, ltb, ltb→lt, ltb_false→le, leb, ◌&&◌, ◌==◌, Option-cases, ◌+◌,
}
use mathlib.Core.Path.{subst}
use wbauth.Policy.Inspector.Fetch.Lines.{IsCut, whole_lines-IsCut}
use wbauth.Text.{Text}
use wbauth.Policy.Types.{Endpoint, robots, ai_txt, llms_txt, signing_directory}
use wbauth.Policy.Errors.{Exception}
use wbauth.Policy.Inspector.Private.{Addresses, resolves_private}
use wbauth.Policy.Inspector.Fetch.{
  Network, Headers, Fetched, raised, fetched, hop, fetch_hops, fetch_one, redirected,
  redirect_target, Answer, raises, streams, answered, stop, Body, complete, broken, read_body,
  whole_lines, finish, cap, at_end, over_cap, moved_headers,
}
use wbauth.Policy.Inspector.Fetch.Vetting.{fetch_hops-stop, fetch_hops-follow, Hop-cases}

take-append_long :
    {A : Type 0} (n : ℕ) (xs ys : List A) → n ≤ length xs → take n (xs ++ ys) ≡ take n xs
take-append_long zero xs ys h = refl
take-append_long (suc n) [] ys h = absurd (omega (arith, h))
take-append_long (suc n) (x ∷ xs) ys h =
    ap (λ r. x ∷ r) (take-append_long n xs ys (omega (arith, h)))

-- A body that was read whole, or the whole lines of the first part of a robots.txt that is too long.
abbrev pub Read : Endpoint → Option Exception → (sent body : Text) → Type 0
Read name failure sent body =
    (length body ≤ cap name)
    × (((body ≡ sent) × (failure ≡ none))
        ⊎ ((name ≡ robots) × (cap name < length sent) × IsCut (take (cap name) sent) body))

-- All that the server sends.
abbrev pub joined : List Text → Text
joined [] = []
joined (chunk ∷ chunks) = chunk ++ joined chunks

at_end-Read :
    (name : Endpoint) (failure : Option Exception) (buf body : Text)
    → length buf ≤ cap name
    → at_end failure buf ≡ complete body
    → Read name failure (buf ++ []) body
at_end-Read name none buf body fits h =
    let same : buf ≡ body = ground arith in rw (append-nil buf, ← same) (fits, inl (refl, refl))
at_end-Read name (some e) buf body fits h = cc

over_cap-Read :
    (name : Endpoint) (failure : Option Exception) (long rest body : Text)
    → cap name < length long
    → over_cap name long ≡ complete body
    → Read name failure (long ++ rest) body
over_cap-Read robots failure long rest body over h =
    let cut = take (cap robots) long in
    let same : whole_lines cut ≡ body = ground arith in
    let first : take (cap robots) (long ++ rest) ≡ cut =
      take-append_long (cap robots) long rest (omega (arith, over)) in
    let is_cut : IsCut cut body = subst (IsCut cut) same (whole_lines-IsCut cut) in
    let lengths : length cut ≡ length body + length is_cut.0 =
      ap length is_cut.1 ∙ length-append body is_cut.0 in
    (
      omega (arith, length-take (cap robots) long),
      inr (
        refl,
        omega (arith, over, length-append long rest),
        subst (λ t. IsCut t body) (sym first) is_cut,
      ),
    )
over_cap-Read ai_txt failure long rest body over h = cc
over_cap-Read llms_txt failure long rest body over h = cc
over_cap-Read signing_directory failure long rest body over h = cc

-- A body that was taken over is within the endpoint's cap. It is all that was sent, or, of a
-- robots.txt that passes the cap, the whole lines among the bytes up to the cap: what is cut off of
-- these is the last line, or nothing where they have no line break.
pub read_body-Read :
    (name : Endpoint) (failure : Option Exception) (buf body : Text) (chunks : List Text)
    → length buf ≤ cap name
    → read_body name failure buf chunks ≡ complete body
    → Read name failure (buf ++ joined chunks) body
unfolding read_body
read_body-Read name failure buf body [] fits h = at_end-Read name failure buf body fits h
read_body-Read name failure buf body (chunk ∷ chunks) fits h =
    rw (← append_assoc buf chunk (joined chunks))
      (elim (Bool-cases (ltb (cap name) (length (buf ++ chunk)))) [
        | inl over ↦
            over_cap-Read name failure (buf ++ chunk) (joined chunks) body (ltb→lt _ _ over)
              (rw over at h)
        | inr within ↦
            read_body-Read name failure (buf ++ chunk) body chunks (ltb_false→le _ _ within)
              (rw within at h)
      ])

-- An outcome of a fetch: an exception, a 304, or a 2xx response whose body fits the cap.
abbrev pub Sound : Endpoint → Fetched → Type 0
Sound name (raised e) = Unit
Sound name (fetched r) =
    ((r.status_code ≡ 304) × (r.content ≡ []))
    ⊎ ((200 ≤ r.status_code) × (r.status_code < 300) × (length r.content ≤ cap name))

body-Sound :
    (name : Endpoint) (status : ℕ) (headers kept : Headers) (body : Body)
    → 200 ≤ status
    → status < 300
    → ((b : Text) → body ≡ complete b → length b ≤ cap name)
    → Sound name (elim body [
      | broken e ↦ raised e
      | complete b ↦ fetched (record { status_code = status; headers = kept; content = b })
    ])
body-Sound name status headers kept (broken e) lo hi fits = tt
body-Sound name status headers kept (complete b) lo hi fits = inr (lo, hi, fits b refl)

finish-Sound :
    (name : Endpoint) (status : ℕ) (headers : Headers) (chunks : List Text)
    (failure : Option Exception)
    → Sound name (finish name status headers chunks failure)
unfolding finish
finish-Sound name status headers chunks failure = elim (Bool-cases (status == 304)) [
  | inl unchanged ↦ rw unchanged (inl (refl, refl))
  | inr changed ↦ elim (Bool-cases (leb 200 status && ltb status 300)) [
    | inl good ↦
        rw (changed, good)
          (body-Sound name status headers _ (read_body name failure [] chunks) (ground arith)
            (ground arith) (λ b e. (read_body-Read name failure [] b chunks (omega arith) e).0))
    | inr bad ↦ rw (changed, bad) tt
  ]
]

module _ (A : Addresses) (N : Network) where
  open N use {Url, answer}

  redirected-Sound :
      (name : Endpoint) (p : Bool) (left : ℕ) (nxt : Url) (outcome : Fetched)
      → redirected A N p left nxt ≡ stop outcome
      → Sound name outcome
  unfolding redirected
  redirected-Sound name p zero nxt (raised e) h = tt
  redirected-Sound name p (suc left) nxt (raised e) h = tt
  redirected-Sound name p zero nxt (fetched r) h = absurd (cc)
  redirected-Sound name p (suc left) nxt (fetched r) h = absurd (ground arith)

  answered-Sound :
      (name : Endpoint) (p : Bool) (left : ℕ) (current : Url) (a : Answer) (outcome : Fetched)
      → answered A N name p left current a ≡ stop outcome
      → Sound name outcome
  answered-Sound name p left current (raises e) outcome h =
      let same : raised e ≡ outcome = ground arith in rw (← same) tt
  answered-Sound name p left current (streams status headers chunks failure) outcome h =
      elim (Option-cases (redirect_target status headers)) [
        | inl still ↦
            let same : finish name status headers chunks failure ≡ outcome = ground arith in
            rw (← same) (finish-Sound name status headers chunks failure)
        | inr (location, moved) ↦
            redirected-Sound name p left (N.join current location) outcome (ground arith)
      ]

  hop-Sound :
      (name : Endpoint) (p : Bool) (left : ℕ) (current : Url) (headers : Headers)
      (outcome : Fetched)
      → hop A N name p left current headers ≡ stop outcome
      → Sound name outcome
  unfolding hop
  hop-Sound name p left current headers outcome h =
      answered-Sound name p left current (answer left current headers) outcome h

  fetch_hops-Sound :
      (name : Endpoint) (p : Bool) (hops : ℕ) (current : Url) (headers : Headers)
      → Sound name (fetch_hops A N name p hops current headers).0
  fetch_hops-Sound name p zero current headers = unfold fetch_hops in tt
  fetch_hops-Sound name p (suc left) current headers =
      elim (Hop-cases A N (hop A N name p left current headers)) [
        | inl (outcome, e) ↦
            rw (fetch_hops-stop A N name p left current headers outcome e)
              (hop-Sound name p left current headers outcome e)
        | inr (nxt, e) ↦
            rw (fetch_hops-follow A N name p left current headers nxt e)
              (fetch_hops-Sound name p left nxt (moved_headers A N current nxt headers))
      ]

  -- A fetch that does not raise returns a 304 without a body, or a 2xx response whose body is
  -- within the endpoint's cap, never a redirect or an error status.
  pub fetch_one-Sound :
      (name : Endpoint) (url : Url) (ua : Text) (validators : Headers) (allow_private : Bool)
      → Sound name (fetch_one A N name url ua validators allow_private).0
  unfolding fetch_one
  fetch_one-Sound name url ua validators allow_private =
      elim (Bool-cases (not allow_private && resolves_private A 6 (N.host url))) [
        | inl refused ↦ rw refused tt
        | inr sent ↦ rw sent (fetch_hops-Sound name _ 6 url _)
      ]
