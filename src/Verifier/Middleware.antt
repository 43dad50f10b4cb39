-- ===== src/Verifier/Middleware.antt =====
-- `WebBotAuthMiddleware` of verifier.py: one ASGI call. The application is what stands behind the
-- outcome: it is called with an agent and with messages to receive, or not at all.
pub mod Guarded
use wbauth.Prelude.{
  ℕ, Bool, true, false, not, Option, none, some, List, [], ◌∷◌, ◌++◌, ltb, ◌==◌, if◌then◌else◌, any,
  find, length, is_empty,
}
use wbauth.Text.{Text, str, text_eq, lower}
use wbauth.Dict.{Dict}
use wbauth.Verifier.Nonces.{NonceStore}
use wbauth.Verifier.Checks.{
  Refusal, not_signed, other_exception, Checked, accepted, refused, Incoming, Services, Settings,
}
use wbauth.Verifier.Verify.{VerifiedAgent, verify}

-- An `http.request` message.
pub record Message : Type 0 where
  pub body : Text
  pub more_body : Bool

-- An ASGI scope. `raw_path` is the encoded `path` where the server gives none.
pub record Scope : Type 0 where
  pub kind : Text
  pub method : Text
  pub scheme : Option Text
  pub raw_path : Text
  pub query_string : Text
  pub headers : Dict Text Text

pub record Middleware : Type 0 where
  pub required : Bool
  pub max_body : ℕ

-- What the middleware does. `called agent replayed left` calls the application, which receives the
-- messages `replayed` and then those of the server, `left`. `waiting` is a client that has not sent
-- the end of its body, `raised` an exception that is no `VerificationError`.
pub data Outcome : Type 0 where
  untouched : Outcome
  called : (agent : Option VerifiedAgent) (replayed left : List Message) → Outcome
  rejected : Refusal → Outcome
  too_large waiting raised : Outcome

pub data Received : Type 0 where
  whole : (body : Text) (messages left : List Message) → Received
  over blocked : Received

-- the loop that receives the body
unfoldable pub receive_body : ℕ → Text → List Message → List Message → Received
receive_body max body messages [] = blocked
receive_body max body messages (m ∷ left) =
    let longer = body ++ m.body in
    let rest = receive_body max longer (messages ++ m ∷ []) left in
    if ltb max (length longer)
    then over
    else if m.more_body
    then rest
    else whole longer (messages ++ m ∷ []) left

abbrev pub named : Text → Text × Text → Bool
named name h = text_eq (lower h.0) name

-- a header named Signature-Input, in any case
unfoldable pub is_signed : Dict Text Text → Bool
unfolding lower
is_signed headers = any (named (str "signature-input")) headers

-- `next((v for k, v in headers if k.lower() == "host"), "")`
abbrev pub host_of : Dict Text Text → Text
host_of headers = elim (find (named (str "host")) headers) [ none ↦ [] | some h ↦ h.1 ]

abbrev pub scheme_of : Scope → Text
scheme_of scope = elim scope.scheme [ none ↦ str "https" | some s ↦ s ]

abbrev pub with_query : Text → Text → Text
with_query url query =
    if is_empty query then url else if any (λ c. c == b'?') url then url else url ++ (b'?' ∷ query)

-- the URL that is verified
abbrev pub url_of : Scope → Text
url_of scope =
    with_query (scheme_of scope ++ (str "://" ++ (host_of scope.headers ++ scope.raw_path)))
      scope.query_string

abbrev pub non_empty : Text → Option Text
non_empty [] = none
non_empty (c ∷ t) = some (c ∷ t)

-- what is verified
unfoldable pub incoming : Scope → (body : Text) → Incoming
unfolding lower
incoming scope body = record {
  method = scope.method;
  url = url_of scope;
  headers = scope.headers;
  body = non_empty body;
  authority = non_empty (lower (host_of scope.headers));
}

-- an exception that is no `VerificationError`
abbrev pub is_other : Refusal → Bool
is_other other_exception = true
is_other _ = false

abbrev pub concluded :
    Middleware
    → List Message
    → List Message
    → Checked VerifiedAgent × NonceStore
    → Outcome × NonceStore
concluded mw messages left (accepted agent, store) = (called (some agent) messages left, store)
concluded mw messages left (refused e, store) =
    if is_other e
    then (raised, store)
    else if mw.required
    then (rejected e, store)
    else (called none messages left, store)

module _ (S : Services) (settings : Settings) (t clock : ℕ) where
  abbrev pub judged : Middleware → Scope → Received → NonceStore → Outcome × NonceStore
  judged mw scope over store = (too_large, store)
  judged mw scope blocked store = (waiting, store)
  judged mw scope (whole body messages left) store =
      concluded mw messages left (verify S settings t clock (incoming scope body) store)

  -- `__call__`, with the messages that the server will give
  unfoldable pub call : Middleware → Scope → List Message → NonceStore → Outcome × NonceStore
  unfolding receive_body is_signed verify incoming
  call mw scope server store =
      if not (text_eq scope.kind (str "http"))
      then (untouched, store)
      else if is_signed scope.headers
      then judged mw scope (receive_body mw.max_body [] [] server) store
      else if mw.required
      then (rejected not_signed, store)
      else (called none [] server, store)
