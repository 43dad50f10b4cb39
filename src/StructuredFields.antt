-- ===== src/StructuredFields.antt =====
-- RFC 8941 strings and keys, as signer.py writes them (`_sf_string`, `_SF_KEY_RE`) and verifier.py
-- reads them (`_unquote`).
pub mod Strings
use wbauth.Prelude.{
  ℕ, Bool, true, false, not, ◌&&◌, ◌||◌, Option, none, some, List, [], ◌∷◌, ◌++◌, ◌==◌, leb,
  if◌then◌else◌, all, is_empty, take, drop, length, ◌-◌,
}
use wbauth.Text.{Text, str, starts_with, is_digit}

abbrev pub quote : ℕ
quote = 0x22

abbrev pub backslash : ℕ
backslash = 0x5c

abbrev pub is_printable : ℕ → Bool
is_printable c = leb 0x20 c && leb c 0x7e

-- `s.replace(c, r)` for one character
unfoldable pub replace : ℕ → Text → Text → Text
replace c r [] = []
replace c r (a ∷ s) = (if a == c then r else a ∷ []) ++ replace c r s

-- `_sf_string`; `none` is a `ValueError`
unfoldable pub sf_string : Text → Option Text
unfolding replace
sf_string value =
    if all is_printable value
    then some (
        quote
          ∷ replace quote (backslash ∷ quote ∷ [])
              (replace backslash (backslash ∷ backslash ∷ []) value)
        ++ quote ∷ [])
    else none

-- `re.sub(r"\\(.)", r"\1", s)`: the dot is any character but a newline
unfoldable pub unescape : Text → Text
unescape [] = []
unescape (a ∷ []) = a ∷ []
unescape (a ∷ (c ∷ s)) =
    let dropped = c ∷ unescape s in
    let kept = a ∷ unescape (c ∷ s) in if a == backslash && not (c == 10) then dropped else kept

-- `v[1:-1]`
unfoldable pub inner : Text → Text
inner v = drop 1 (take (length v - 1) v)

unfoldable pub unquote : Text → Text
unfolding unescape inner starts_with
unquote v = if starts_with v (quote ∷ []) then unescape (inner v) else v

abbrev pub is_lcalpha : ℕ → Bool
is_lcalpha c = leb b'a' c && leb c b'z'

abbrev pub key_code : ℕ → Bool
key_code c = is_lcalpha c || is_digit c || c == b'_' || c == b'-' || c == b'.' || c == b'*'

abbrev key_tail : Text → Bool
key_tail [] = true
key_tail (c ∷ s) = (key_code c && key_tail s) || (c == 10 && is_empty s)

-- `_SF_KEY_RE.match(label)`; its `$` also stands before a last newline
unfoldable pub is_key : Text → Bool
is_key [] = false
is_key (c ∷ s) = (is_lcalpha c || c == b'*') && key_tail s
