-- ===== src/Verifier/Middleware/Guarded.antt =====
-- Which requests the middleware of verifier.py lets through to the application.
use mathlib.Core.Path.{subst}
use wbauth.Prelude.{
  ℕ, ◌≤◌, true, false, not, ◌≡◌, ◌⊎◌, inl, inr, refl, sym, ap, ◌∙◌, Option, none, some, List, [],
  ◌∷◌, ◌++◌, ltb, length, append_assoc, append-nil, Bool-cases, arith, any, ◌≢◌,
}
use wbauth.Text.{Text, str, text_eq, lower}
use wbauth.Verifier.Nonces.{NonceStore}
use wbauth.Verifier.Checks.{Checked, accepted, refused, Incoming, Services, Settings}
use wbauth.Verifier.Verify.{VerifiedAgent, verify}
use wbauth.Verifier.Middleware.{
  Message, Scope, Middleware, Outcome, called, waiting, Received, whole, over, blocked,
  receive_body, is_signed, url_of, host_of, non_empty, incoming, concluded, is_other, judged, call,
}

-- the bytes of messages
abbrev pub bytes : List Message → Text
bytes [] = []
bytes (m ∷ ms) = m.body ++ bytes ms

bytes-append : (ms : List Message) (m : Message) → bytes (ms ++ m ∷ []) ≡ bytes ms ++ m.body
bytes-append [] m = append-nil m.body
bytes-append (n ∷ ms) m =
    ap (λ s. n.body ++ s) (bytes-append ms m) ∙ sym (append_assoc n.body (bytes ms) m.body)

whole-injective :
    {a a' : Text} {ms ms' left left' : List Message}
    → whole a ms left ≡ whole a' ms' left'
    → (a ≡ a') × (ms ≡ ms') × (left ≡ left')
whole-injective e = (cc, cc, cc)

-- What the loop returns: the body is that of the messages, none of which is lost, within the limit.
receive_body-whole :
    (max : ℕ) (body : Text) (messages server : List Message) (all : Text) (ms left : List Message)
    → body ≡ bytes messages
    → receive_body max body messages server ≡ whole all ms left
    → (all ≡ bytes ms) × (ms ++ left ≡ messages ++ server) × (length all ≤ max)
unfolding receive_body
receive_body-whole max body messages [] all ms left h e = absurd (cc)
receive_body-whole max body messages (m ∷ server) all ms left h e =
    let grown = ap (λ s. s ++ m.body) h ∙ sym (bytes-append messages m) in
    elim (Bool-cases (ltb max (length (body ++ m.body)))) [
      | inl large ↦ absurd (cc (rw large at e))
      | inr small ↦ elim (Bool-cases m.more_body) [
        | inl more ↦
            let (b, kept, fits) =
              receive_body-whole max (body ++ m.body) (messages ++ m ∷ []) server all ms left grown
                (simp (small, more) at e) in
            (b, kept ∙ append_assoc messages (m ∷ []) server, fits)
        | inr last ↦
            let same = simp (small, last) at e in
            let (b, kept, rest) = whole-injective same in
            (
              sym b ∙ grown ∙ ap bytes kept,
              ap (λ x. ms ++ x) (sym rest)
                  ∙ ap (λ x. x ++ server) (sym kept)
                  ∙ append_assoc messages (m ∷ []) server,
              rw (← b) (ground (arith, small)),
            )
      ]
    ]

called-injective :
    {p q : Outcome × NonceStore} {agent agent' : Option VerifiedAgent}
    {ms ms' left left' : List Message} {store store' : NonceStore}
    → p ≡ (called agent ms left, store)
    → q ≡ (called agent' ms' left', store')
    → p ≡ q
    → (agent ≡ agent') × (ms ≡ ms') × (left ≡ left') × (store ≡ store')
called-injective {p} {q} e f g =
    let outcomes = ap (λ r. r.0) (sym e ∙ g ∙ f) in (cc, cc, cc, ap (λ r. r.1) (sym e ∙ g ∙ f))

-- When a verdict leads to a call of the application.
concluded-called :
    (mw : Middleware) (messages server : List Message)
    (verdict : Checked VerifiedAgent × NonceStore) (agent : Option VerifiedAgent)
    (replayed left : List Message) (store : NonceStore)
    → concluded mw messages server verdict ≡ (called agent replayed left, store)
    → (messages ≡ replayed)
      × (server ≡ left)
      × (((a : VerifiedAgent) × (agent ≡ some a) × (verdict ≡ (accepted a, store)))
          ⊎ ((agent ≡ none) × (mw.required ≡ false)))
concluded-called mw messages server (accepted a, st) agent replayed left store e =
    let (given, ms, ls, same) = called-injective refl refl e in
    (ms, ls, inl (a, sym given, ap (λ s. (accepted a, s)) same))
concluded-called mw messages server (refused r, st) agent replayed left store e =
    elim (Bool-cases (is_other r)) [
      | inl other ↦ absurd (cc (rw other at e))
      | inr fault ↦ elim (Bool-cases mw.required) [
        | inl need ↦ absurd (cc (simp (fault, need) at e))
        | inr free ↦
            let (given, ms, ls, same) = called-injective refl refl (simp (fault, free) at e) in
            (ms, ls, inr (sym given, free))
      ]
    ]

concluded_ends :
    (mw : Middleware) (messages server : List Message)
    (verdict : Checked VerifiedAgent × NonceStore)
    → (concluded mw messages server verdict).0 ≢ waiting
concluded_ends mw messages server (accepted a, st) e = absurd (cc)
concluded_ends mw messages server (refused r, st) e = elim (Bool-cases (is_other r)) [
  | inl other ↦ absurd (cc (rw other at e))
  | inr fault ↦ elim (Bool-cases mw.required) [
    | inl need ↦ absurd (cc (simp (fault, need) at e))
    | inr free ↦ absurd (cc (simp (fault, free) at e))
  ]
]

receive_body_ends :
    (max : ℕ) (body : Text) (messages server : List Message)
    → any (λ m. not m.more_body) server ≡ true
    → receive_body max body messages server ≢ blocked
unfolding receive_body
receive_body_ends max body messages [] ends e = absurd (cc)
receive_body_ends max body messages (m ∷ server) ends e =
    elim (Bool-cases (ltb max (length (body ++ m.body)))) [
      | inl large ↦ absurd (cc (rw large at e))
      | inr small ↦ elim (Bool-cases m.more_body) [
        | inl more ↦
            receive_body_ends max (body ++ m.body) (messages ++ m ∷ []) server (simp more at ends)
              (simp (small, more) at e)
        | inr last ↦ absurd (cc (simp (small, last) at e))
      ]
    ]

-- no text is the empty one
abbrev pub text_or_empty : Option Text → Text
text_or_empty none = []
text_or_empty (some t) = t

text_or_empty-non_empty : (t : Text) → text_or_empty (non_empty t) ≡ t
text_or_empty-non_empty [] = refl
text_or_empty-non_empty (c ∷ t) = refl

-- A request that is verified for a scope: the method, the URL and the headers of the scope, the
-- host that was asked for, and these bytes as its body.
pub record IsRequestOf (scope : Scope) (body : Text) (r : Incoming) : Type 0 where
  pub same_method : r.method ≡ scope.method
  pub same_url : r.url ≡ url_of scope
  pub same_headers : r.headers ≡ scope.headers
  pub same_authority : text_or_empty r.authority ≡ lower (host_of scope.headers)
  pub same_body : text_or_empty r.body ≡ body

incoming-IsRequestOf : (scope : Scope) (body : Text) → IsRequestOf scope body (incoming scope body)
unfolding incoming
incoming-IsRequestOf scope body = record {
  same_method = refl;
  same_url = refl;
  same_headers = refl;
  same_authority = text_or_empty-non_empty (lower (host_of scope.headers));
  same_body = text_or_empty-non_empty body;
}

module _ (S : Services) (settings : Settings) (t clock : ℕ) where
  -- An agent for which the request with these bytes was accepted, or none where none is required.
  abbrev pub IsVerified :
      Middleware → Scope → (store store' : NonceStore) → Option VerifiedAgent → Text → Type 0
  IsVerified mw scope store store' agent body =
      ((a : VerifiedAgent) × (r : Incoming) × (agent ≡ some a)
        × IsRequestOf scope body r
        × (verify S settings t clock r store ≡ (accepted a, store')))
      ⊎ ((agent ≡ none) × (mw.required ≡ false))

  -- What holds of a call of the application.
  pub record Guarded (mw : Middleware) (scope : Scope) (server : List Message)
      (store store' : NonceStore) (agent : Option VerifiedAgent) (replayed left : List Message)
      : Type 0 where
    pub none_lost : replayed ++ left ≡ server
    pub within : length (bytes replayed) ≤ mw.max_body
    pub verified : IsVerified mw scope store store' agent (bytes replayed)

  judged-Guarded :
      (mw : Middleware) (scope : Scope) (server : List Message) (got : Received)
      → receive_body mw.max_body [] [] server ≡ got
      → (store store' : NonceStore) (agent : Option VerifiedAgent) (replayed left : List Message)
      → judged S settings t clock mw scope got store ≡ (called agent replayed left, store')
      → Guarded mw scope server store store' agent replayed left
  judged-Guarded mw scope server over r store store' agent replayed left e = absurd (cc)
  judged-Guarded mw scope server blocked r store store' agent replayed left e = absurd (cc)
  judged-Guarded mw scope server (whole body ms ls) r store store' agent replayed left e =
      let (sum, kept, fits) = receive_body-whole mw.max_body [] [] server body ms ls refl r in
      let verdict = verify S settings t clock (incoming scope body) store in
      let (same, rest, why) = concluded-called mw ms ls verdict agent replayed left store' e in
      let all = sum ∙ ap bytes same in
      record {
        none_lost = rw (← same, ← rest) kept;
        within = subst (λ b. length b ≤ mw.max_body) all fits;
        verified = subst (IsVerified mw scope store store' agent) all (elim why [
          | inl (a, given, made) ↦
              inl (a, incoming scope body, given, incoming-IsRequestOf scope body, made)
          | inr free ↦ inr free
        ]);
      }

  -- An application that is called receives all the messages of the server, in their order. Either it
  -- gets an agent, and that is the one that `verify` accepts for the request with the method, the URL,
  -- the host and the headers of the scope and with the bytes already received as its body, or it gets none and signatures are not required.
  pub call-Guarded :
      (mw : Middleware) (scope : Scope) (server : List Message) (store store' : NonceStore)
      (agent : Option VerifiedAgent) (replayed left : List Message)
      → call S settings t clock mw scope server store ≡ (called agent replayed left, store')
      → Guarded mw scope server store store' agent replayed left
  unfolding call
  call-Guarded mw scope server store store' agent replayed left e =
      elim (Bool-cases (text_eq scope.kind (str "http"))) [
        | inr other ↦ absurd (cc (rw (other) at e))
        | inl http ↦ elim (Bool-cases (is_signed scope.headers)) [
          | inl signed ↦
              judged-Guarded mw scope server (receive_body mw.max_body [] [] server) refl store
                store' agent replayed left (rw (http, signed) at e)
          | inr bare ↦ elim (Bool-cases mw.required) [
            | inl need ↦ absurd (cc (rw (http, bare, need) at e))
            | inr free ↦
                let (given, ms, ls, same) =
                  called-injective refl refl (rw (http, bare, free) at e) in
                record {
                  none_lost = cc;
                  within = rw (← ms) (omega arith);
                  verified = inr (sym given, free);
                }
          ]
        ]
      ]

  judged_ends :
      (mw : Middleware) (scope : Scope) (got : Received) (store : NonceStore)
      → got ≢ blocked
      → (judged S settings t clock mw scope got store).0 ≢ waiting
  judged_ends mw scope over store h e = absurd (cc)
  judged_ends mw scope blocked store h e = h refl
  judged_ends mw scope (whole body ms left) store h e =
      concluded_ends mw ms left (verify S settings t clock (incoming scope body) store) e

  -- An HTTP call whose server sends the end of the body does not wait for more of it.
  pub call_ends :
      (mw : Middleware) (scope : Scope) (server : List Message) (store : NonceStore)
      → any (λ m. not m.more_body) server ≡ true
      → (call S settings t clock mw scope server store).0 ≢ waiting
  unfolding call
  call_ends mw scope server store ends e = elim (Bool-cases (text_eq scope.kind (str "http"))) [
    | inr other ↦ absurd (cc (rw (other) at e))
    | inl http ↦ elim (Bool-cases (is_signed scope.headers)) [
      | inl signed ↦
          judged_ends mw scope (receive_body mw.max_body [] [] server) store
            (receive_body_ends mw.max_body [] [] server ends) (rw (http, signed) at e)
      | inr bare ↦ elim (Bool-cases mw.required) [
        | inl need ↦ absurd (cc (rw (http, bare, need) at e))
        | inr free ↦ absurd (cc (rw (http, bare, free) at e))
      ]
    ]
  ]
