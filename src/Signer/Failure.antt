-- ===== src/Signer/Failure.antt =====
-- What a refusal leaves behind.
use wbauth.Prelude.{◌≡◌, none}
use wbauth.Text.{Text, str}
use wbauth.Dict.{text_keys, get}
use wbauth.Signer.{Headers, Signer}

-- No signature: neither of the two headers is there.
abbrev pub Unsigned : Headers → Type 0
Unsigned headers =
    (get (str "Signature") headers ≡ none) × (get (str "Signature-Input") headers ≡ none)
