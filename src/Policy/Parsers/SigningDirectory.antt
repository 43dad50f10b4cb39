-- ===== src/Policy/Parsers/SigningDirectory.antt =====
-- policy/parsers/signing_directory.py. `json.loads` is a parameter; `none` is its `ValueError`.
use wbauth.Prelude.{Bool, false, not, Option, none, some, List, [], ◌==◌, is_empty, take_while}
use wbauth.Text.{Text, str, text_eq, lower, strip}
use wbauth.Dict.{text_keys, get}
use wbauth.Json.{Json, obj, arr, items, members}
use wbauth.Policy.Types.{SigningDirectoryResult}
use wbauth.Policy.Inspector.Endpoints.{ParseOutcome, read}

-- `content_type.split(";", 1)[0].strip().lower() == _SPEC_CONTENT_TYPE`
abbrev content_type_correct : Option Text → Bool
content_type_correct none = false
content_type_correct (some ct) =
    text_eq (lower (strip (take_while (λ c. not (c == b';')) ct)))
      (str "application/http-message-signatures-directory+json")

-- a list, or an empty one
abbrev pub list_of : Option Json → List Json
list_of (some (arr vs)) = items vs
list_of _ = []

abbrev pub keys_of : Json → List Json
keys_of (obj ms) = list_of (get (str "keys") (members ms))
keys_of _ = []

unfoldable pub parse_signing_directory :
    (loads : Text → Option Json)
    → Text
    → (content_type : Option Text) → ParseOutcome SigningDirectoryResult
unfolding get text_eq lower strip
parse_signing_directory loads text content_type = elim (loads text) [
  | none ↦ read (record { present = false; keys = []; content_type_correct = false; raw = text })
  | some parsed ↦ read (record {
    present = not (is_empty (keys_of parsed));
    keys = keys_of parsed;
    content_type_correct = content_type_correct content_type;
    raw = text;
  })
]
