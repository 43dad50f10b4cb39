-- ===== src/Verifier/Parse.antt =====
-- The structured fields that verifier.py reads: `_PARAM`, `_SIG_INPUT_RE`, `_SIG_RE` and the
-- functions over them. Every greedy part of these expressions is followed by a part that it cannot
-- have consumed, so each is a function without backtracking from a text to what is left of it. A
-- loop over the matches passes one character at a time and skips what a match has consumed.
use wbauth.Prelude.{
  ℕ, zero, suc, ◌-◌, Bool, true, false, not, ◌&&◌, ◌||◌, Option, none, some, List, [], ◌∷◌, ◌==◌,
  if◌then◌else◌, length, take, drop_while, take_while, is_empty, all, is_some, map,
}
use wbauth.Text.{Text, starts_with, is_space, is_digit, is_alpha}
use wbauth.Dict.{Dict, text_keys, put}
use wbauth.Matching.{◌>>=◌, spaces?, number_from}
use wbauth.StructuredFields.{quote, backslash, is_lcalpha, key_code, unquote}

-- what a match has consumed of `s`, where `rest` is left
abbrev pub consumed : Text → Text → Text
consumed s rest = take (length s - length rest) s

-- one character
abbrev pub code : ℕ → Text → Option Text
code c [] = none
code c (a ∷ s) = if a == c then some s else none

-- the rest of `_SF_STRING` behind its first quote; the flag says that a backslash stands before
unfoldable pub string_end : Bool → Text → Option Text
string_end escaped [] = none
string_end true (a ∷ s) = let rest = string_end false s in if a == 10 then none else rest
string_end false (a ∷ s) =
    let plain = string_end false s in
    let escape = string_end true s in
    if a == quote then some s else if a == backslash then escape else plain

-- `_SF_STRING`
unfoldable pub sf_string_end : Text → Option Text
unfolding string_end
sf_string_end s = code quote s >>= string_end false

-- `[a-z*][a-z0-9_.*-]*`
unfoldable pub key_end : Text → Option Text
key_end [] = none
key_end (a ∷ s) = if is_lcalpha a || a == b'*' then some (drop_while key_code s) else none

-- `\d+`
abbrev pub digits_end : Text → Option Text
digits_end s = if is_empty (take_while is_digit s) then none else some (drop_while is_digit s)

-- `(?:\.\d+)?`
abbrev pub fraction_end : Text → Text
fraction_end s = elim (code b'.' s >>= digits_end) [ none ↦ s | some rest ↦ rest ]

abbrev pub minus_end : Text → Text
minus_end s = elim (code b'-' s) [ none ↦ s | some rest ↦ rest ]

-- `-?\d+(?:\.\d+)?`
unfoldable pub number_end : Text → Option Text
number_end s = digits_end (minus_end s) >>= λ rest. some (fraction_end rest)

-- `\?[01]`
unfoldable pub boolean_end : Text → Option Text
boolean_end s =
    code b'?' s >>= λ t. elim (code b'0' t) [ none ↦ code b'1' t | some rest ↦ some rest ]

-- `[^;,\s]`
abbrev pub token_code : ℕ → Bool
token_code c = not (c == b';' || c == b',' || is_space c)

-- `[A-Za-z*][^;,\s]*`
unfoldable pub token_end : Text → Option Text
token_end [] = none
token_end (a ∷ s) = if is_alpha a || a == b'*' then some (drop_while token_code s) else none

-- the value of a parameter, behind its `=`: the alternatives in their order
unfoldable pub value_end : Text → Option Text
unfolding sf_string_end number_end boolean_end token_end
value_end s = elim (sf_string_end s) [
  | some rest ↦ some rest
  | none ↦ elim (number_end s) [
    | some rest ↦ some rest
    | none ↦ elim (boolean_end s) [ some rest ↦ some rest | none ↦ token_end s ]
  ]
]

-- A value of a dictionary of parameters: `True`, an `int` or a text.
pub data Param : Type 0 where
  flag : Param
  pos negsuc : ℕ → Param
  text : Text → Param

-- `int(v)` of a minus sign and digits
abbrev pub negative : ℕ → Param
negative zero = pos 0
negative (suc n) = negsuc n

-- the value of group 2
unfoldable pub param_of : Option Text → Param
unfolding unquote starts_with
param_of none = flag
param_of (some v) =
    let digits = minus_end v in
    if starts_with v (quote ∷ [])
    then text (unquote v)
    else if not (is_empty digits) && all is_digit digits
    then (if starts_with v (b'-' ∷ [])
        then negative (number_from 0 digits)
        else pos (number_from 0 digits))
    else text v

-- `(?:=(…))?`: the value, and what is left
unfoldable pub assigned : Text → Option (Text × Text)
unfolding value_end
assigned s = code b'=' s >>= λ v. value_end v >>= λ left. some (consumed v left, left)

-- `_PARAM`: the key and the value, and what is left
unfoldable pub param : Text → Option ((Text × Option Text) × Text)
unfolding key_end assigned
param s = code b';' s >>= λ t. key_end (spaces? t) >>= λ rest.
    let key = consumed (spaces? t) rest in
    elim (assigned rest) [
      | none ↦ some ((key, none), rest)
      | some (v, left) ↦ some ((key, some v), left)
    ]

-- `(?:_PARAM)*`, with the number of characters that the last match still covers
unfoldable pub params : ℕ → Text → List (Text × Option Text) × Text
unfolding param
params skip [] = ([], [])
params (suc skip) (a ∷ s) = params skip s
params zero (a ∷ s) = elim (param (a ∷ s)) [
  | none ↦ ([], a ∷ s)
  | some (kv, left) ↦ let (kvs, rest) = params (length s - length left) s in (kv ∷ kvs, rest)
]

-- `_parse_params` of the matches: the last value of a key stays
abbrev pub params_dict : List (Text × Option Text) → Dict Text Param → Dict Text Param
params_dict [] out = out
params_dict ((k, v) ∷ kvs) out = params_dict kvs (put k (param_of v) out)

-- `[^\s)"]`
abbrev pub suffix_code : ℕ → Bool
suffix_code c = not (is_space c || c == b')' || c == quote)

-- `(?:;[^\s)"]+)*`
unfoldable pub suffixes_end : Text → Text
suffixes_end s = elim (code b';' s) [
  | none ↦ s
  | some rest ↦ if is_empty (take_while suffix_code rest) then s else drop_while suffix_code rest
]

-- `(?:\s*_SF_STRING(?:;[^\s)"]+)*)*`: the strings, and what is left
unfoldable pub components : ℕ → Text → List Text × Text
unfolding sf_string_end suffixes_end
components skip [] = ([], [])
components (suc skip) (a ∷ s) = components skip s
components zero (a ∷ s) =
    let start = spaces? (a ∷ s) in
    elim (sf_string_end start) [
      | none ↦ ([], a ∷ s)
      | some rest ↦
          let left = suffixes_end rest in
          let (cs, end) = components (length s - length left) s in (consumed start rest ∷ cs, end)
    ]

-- `re.search(r'"\s*;', inner)`
unfoldable pub has_component_params : Text → Bool
has_component_params [] = false
has_component_params (a ∷ s) =
    (a == quote && is_some (code b';' (spaces? s))) || has_component_params s

-- a member of Signature-Input
pub record Candidate : Type 0 where
  pub label : Text
  pub raw_params : Text
  pub covered : List Text
  pub params_of : Dict Text Param

-- `_SIG_INPUT_RE`: the member, whether a component in it has parameters, and what is left
unfoldable pub input_member : Text → Option ((Candidate × Bool) × Text)
unfolding key_end components params has_component_params unquote starts_with
input_member s =
    let start = spaces? s in
    key_end start >>= λ behind. code b'=' behind >>= λ inner. code b'(' inner >>= λ list.
    let (cs, tail) = components zero list in
    code b')' (spaces? tail) >>= λ ps.
    let (kvs, left) = params zero ps in
    some (
      (
        record {
          label = consumed start behind;
          raw_params = consumed inner left;
          covered = map unquote cs;
          params_of = params_dict kvs [];
        },
        has_component_params (consumed inner ps),
      ),
      left,
    )

abbrev pub is_separator : ℕ → Bool
is_separator c = c == b' ' || c == b','

-- `parse_signature_input`; `none` is a `VerificationError`
unfoldable pub parse_members : ℕ → Text → Option (List Candidate)
unfolding input_member
parse_members skip [] = some []
parse_members (suc skip) (a ∷ s) = parse_members skip s
parse_members zero (a ∷ s) = elim (input_member (a ∷ s)) [
  | none ↦ none
  | some ((member, bad), left) ↦
      let rest = parse_members (length s - length (drop_while is_separator left)) s in
      if bad then none else rest >>= λ members. some (member ∷ members)
]

unfoldable pub parse_signature_input : Text → Option (List Candidate)
unfolding parse_members
parse_signature_input value = parse_members zero value

-- `[A-Za-z0-9+/=]`
abbrev pub base64_code : ℕ → Bool
base64_code c = is_alpha c || is_digit c || c == b'+' || c == b'/' || c == b'='

-- `_SIG_RE`: the label, the base64 text, and what is left
unfoldable pub signature_member : Text → Option ((Text × Text) × Text)
unfolding key_end
signature_member s =
    let start = spaces? s in
    key_end start >>= λ behind. code b'=' behind >>= λ t. code b':' t >>= λ value.
    code b':' (drop_while base64_code value) >>= λ left.
    some ((consumed start behind, take_while base64_code value), left)

-- the matches of `_SIG_RE.finditer`
unfoldable pub signature_members : ℕ → Text → List (Text × Text)
unfolding signature_member
signature_members skip [] = []
signature_members (suc skip) (a ∷ s) = signature_members skip s
signature_members zero (a ∷ s) = elim (signature_member (a ∷ s)) [
  | none ↦ signature_members zero s
  | some (member, left) ↦ member ∷ signature_members (length s - length left) s
]

-- `parse_signature`, with `base64.b64decode`; `none` is its `binascii.Error`
abbrev pub decoded :
    (Text → Option Text) → List (Text × Text) → Dict Text Text → Option (Dict Text Text)
decoded b64decode [] out = some out
decoded b64decode ((label, value) ∷ ms) out =
    b64decode value >>= λ sig. decoded b64decode ms (put label sig out)

unfoldable pub parse_signature : (Text → Option Text) → Text → Option (Dict Text Text)
unfolding signature_members
parse_signature b64decode value = decoded b64decode (signature_members zero value) []
