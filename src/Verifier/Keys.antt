-- ===== src/Verifier/Keys.antt =====
-- `Verifier._resolve` and `_thumbprint` of verifier.py: the key of a key id.
pub mod Published
use wbauth.Prelude.{
  Bool, true, false, ◌&&◌, ◌≡◌, refl, Option, none, some, List, [], ◌∷◌, ◌++◌, if◌then◌else◌,
  is_empty, In, Option-cases, Bool-cases, inl, inr, arith,
}
use wbauth.Text.{Text, str, text_eq}
use wbauth.Dict.{Dict, text_keys, get}
use wbauth.Json.{Json, string, obj, members}
use wbauth.Verifier.Checks.{
  Checked, accepted, refused, ◌>>=◌, required, unknown_key, not_verified, other_exception,
}

-- Where keys come from: the optional `key_resolver`, and what `JwksCache.keys` gives for the
-- directory of a Signature-Agent. `dumps` is `json.dumps`, and `hash` SHA-256 in base64url.
pub record Source : Type 0 where
  pub key_resolver : Option (Text → Option Text → Option Json)
  pub published : Text → Checked (List Json)
  pub dumps : Json → Text
  pub hash : Text → Text

-- `k.get(name) == value` of a text
abbrev pub says : Text → Text → Dict Text Json → Bool
says name value k = elim (get name k) [ some (string t) ↦ text_eq t value | _ ↦ false ]

-- `_thumbprint` of an Ed25519 key; `none` is the `KeyError` without an `x`
unfoldable pub thumbprint : Source → Dict Text Json → Option Text
unfolding get
thumbprint source k = elim (get (str "x") k) [
  | none ↦ none
  | some x ↦
      some (
        source.hash
          (str "{\"crv\":\"Ed25519\",\"kty\":\"OKP\",\"x\":" ++ source.dumps x ++ str "}"))
]

-- an Ed25519 key with the thumbprint
unfoldable pub is_key_of : Source → Text → Json → Bool
unfolding thumbprint
is_key_of source kid (obj ms) =
    let k = members ms in
    says (str "kty") (str "OKP") k
    && says (str "crv") (str "Ed25519") k
    && (elim (thumbprint source k) [ none ↦ false | some t ↦ text_eq t kid ])
is_key_of source kid _ = false

-- the loop over the published keys
unfoldable pub key_among : Source → Text → List Json → Checked Json
unfolding is_key_of
key_among source kid [] = refused unknown_key
key_among source kid (k ∷ ks) =
    let later = key_among source kid ks in if is_key_of source kid k then accepted k else later

abbrev pub published_key : Source → Text → Option Text → Checked Json
published_key source kid none = refused unknown_key
published_key source kid (some agent) =
    if is_empty agent then refused unknown_key else source.published agent >>= key_among source kid

-- `_resolve`
unfoldable pub resolve : Source → Text → Option Text → Checked Json
unfolding key_among
resolve source kid agent = elim source.key_resolver [
  | none ↦ published_key source kid agent
  | some resolver ↦ required unknown_key (resolver kid agent)
]

-- `jwk["x"]`
abbrev pub x_of : Json → Checked Text
x_of (obj ms) = elim (get (str "x") (members ms)) [
  | none ↦ refused not_verified
  | some (string x) ↦ accepted x
  | some _ ↦ refused other_exception
]
x_of _ = refused other_exception

-- what `verify` needs of `_resolve`
unfoldable pub find_key : Source → Text → Option Text → Checked Text
unfolding resolve
find_key source kid agent = resolve source kid agent >>= x_of
