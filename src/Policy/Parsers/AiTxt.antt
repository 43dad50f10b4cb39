-- ===== src/Policy/Parsers/AiTxt.antt =====
-- policy/parsers/ai_txt.py: the sections of an ai.txt.
pub mod Written
use wbauth.Prelude.{
  ℕ, Bool, ◌&&◌, ◌||◌, Option, none, some, List, [], ◌∷◌, ◌++◌, ◌+◌, ◌-◌, ◌==◌, ltb, if◌then◌else◌,
  is_empty, length, take, drop,
}
use wbauth.Text.{Text, str, starts_with, ends_with, lower, rstrip, strip, split_once}
use wbauth.Text.Lines.{split_lines, without_mark}
use wbauth.Dict.{Dict, text_keys, get, put}
use wbauth.Policy.Types.{AiTxtResult}
use wbauth.Policy.Errors.{fetch_error}
use wbauth.Policy.Inspector.Endpoints.{ParseOutcome, read, fails}

-- `_MAX_BYTES`
abbrev pub max_bytes : ℕ
max_bytes = 1000000

-- `line.find(" #")`; `none` is -1
unfoldable pub find_comment : Text → Option ℕ
find_comment [] = none
find_comment (c ∷ s) =
    let rest = find_comment s in
    if c == b' ' && starts_with s (str "#")
    then some 0
    else elim rest [ none ↦ none | some n ↦ some (n + 1) ]

-- `_strip_inline_comment`: one at the very beginning stays
unfoldable pub strip_inline_comment : Text → Text
unfolding find_comment rstrip
strip_inline_comment line = elim (find_comment line) [
  | none ↦ line
  | some n ↦ if ltb 0 n then rstrip (take n line) else line
]

-- The state of the loop: the sections, and the name of the one that is open.
abbrev pub Sections : Type 0
Sections = Dict Text (List Text) × Option Text

abbrev pub is_header : Text → Bool
is_header line = starts_with line (str "[") && ends_with line (str "]")

abbrev pub header_name : Text → Text
header_name line = lower (drop 1 (take (length line - 1) line))

-- `sections[current].append(line)`
abbrev pub append_line : Text → Text → Dict Text (List Text) → Dict Text (List Text)
append_line name line sections = elim (get name sections) [
  | none ↦ sections
  | some lines ↦ put name (lines ++ line ∷ []) sections
]

abbrev pub content_line : Text → Sections → Sections
content_line line (sections, none) = (sections, none)
content_line line (sections, some name) = (append_line name line sections, some name)

abbrev pub ai_line : Text → Sections → Sections
ai_line raw_line s =
    let stripped = strip raw_line in
    let line = strip_inline_comment stripped in
    if is_empty stripped || starts_with stripped (str "#")
    then s
    else if is_header line
    then (put (header_name line) [] s.0, some (header_name line))
    else content_line line s

abbrev pub ai_lines : List Text → Sections → Sections
ai_lines [] s = s
ai_lines (line ∷ lines) s = ai_lines lines (ai_line line s)

unfoldable pub sections_of : Text → Dict Text (List Text)
unfolding split_lines strip strip_inline_comment starts_with ends_with lower get put
sections_of text = (ai_lines (split_lines text) ([], none)).0

-- `sections.get(name, [])`
abbrev pub section : Text → Dict Text (List Text) → List Text
section name sections = elim (get name sections) [ none ↦ [] | some lines ↦ lines ]

-- `_kv`
abbrev pub key_values : List Text → Dict Text Text → Dict Text Text
key_values [] out = out
key_values (line ∷ lines) out = elim (split_once b':' line) [
  | none ↦ key_values lines out
  | some (k, v) ↦ key_values lines (put (lower (strip k)) (strip v) out)
]

abbrev pub is_bullet : ℕ → Bool
is_bullet c = c == b'-' || c == b'*' || c == b'+' || c == 0x2022

-- `m.group(1).strip()` of `_BULLET_RE`; empty where it does not match
abbrev pub bullet : Text → Text
bullet [] = []
bullet (c ∷ s) = if is_bullet c then strip s else []

-- `_bullets`
abbrev pub bullets : List Text → List Text
bullets [] = []
bullets (line ∷ lines) =
    if is_empty (bullet line) then bullets lines else bullet line ∷ bullets lines

unfoldable pub parse_ai_txt : Text → ParseOutcome AiTxtResult
unfolding sections_of strip lower split_once get put
parse_ai_txt body =
    let text = without_mark body in
    let sections = sections_of text in
    if ltb max_bytes (length body)
    then fails (fetch_error (str "ai.txt body exceeds 1 MB cap"))
    else read (record {
      identity = key_values (section (str "identity") sections) [];
      permissions = bullets (section (str "permissions") sections);
      restrictions = bullets (section (str "restrictions") sections);
      attribution = bullets (section (str "attribution") sections);
      contact = key_values (section (str "contact") sections) [];
      content_types = [];
      raw = text;
    })
