-- ===== src/Policy/Parsers/LlmsTxt.antt =====
-- policy/parsers/llms_txt.py: the title, the description and the links of an llms.txt. The parts of
-- `_LINK_RE` are followed by characters that they cannot have consumed.
use wbauth.Prelude.{
  ℕ, Bool, true, false, not, ◌&&◌, ◌||◌, Option, none, some, List, [], ◌∷◌, ◌++◌, ◌-◌, ◌==◌, ltb,
  if◌then◌else◌, is_empty, length, take, drop, drop_while, take_while, filter,
}
use wbauth.Text.{Text, str, starts_with, rstrip, strip, join, is_space}
use wbauth.Text.Lines.{split_lines, without_mark}
use wbauth.Matching.{◌>>=◌, spaces?}
use wbauth.Policy.Types.{LlmsTxtLink, LlmsTxtSection, LlmsTxtResult}
use wbauth.Policy.Errors.{fetch_error}
use wbauth.Policy.Inspector.Endpoints.{ParseOutcome, read, fails}

-- `_MAX_BYTES`
abbrev pub max_bytes : ℕ
max_bytes = 1000000

abbrev code : ℕ → Text → Option Text
code c [] = none
code c (a ∷ s) = if a == c then some s else none

-- `[^()\s]`
abbrev pub url_code : ℕ → Bool
url_code c = not (c == b'(' || c == b')' || is_space c)

-- the rest behind `(?:[^()\s]|\([^()\s]*\))*`; the flag says that a parenthesis is open
unfoldable pub url_end : (inside : Bool) → Text → Option Text
url_end inside [] = if inside then none else some []
url_end true (c ∷ s) =
    let rest = url_end (not (c == b')')) s in if c == b')' || url_code c then rest else none
url_end false (c ∷ s) =
    let rest = url_end (c == b'(') s in if url_code c || c == b'(' then rest else some (c ∷ s)

-- `(?::\s*(.*))?$`, where what does not match is no link
abbrev pub notes_of : Text → Option Text
notes_of [] = some []
notes_of (c ∷ s) = if c == b':' then some (strip (spaces? s)) else none

abbrev is_bullet : ℕ → Bool
is_bullet c = c == b'-' || c == b'*' || c == b'+'

abbrev bulleted : Text → Option Text
bulleted [] = none
bulleted (c ∷ s) = if is_bullet c then some (spaces? s) else none

abbrev not_bracket : ℕ → Bool
not_bracket c = not (c == b']')

abbrev non_empty : Text → Option Text
non_empty s = if is_empty s then none else some s

-- `_LINK_RE` on a stripped line
unfoldable pub link_of : Text → Option LlmsTxtLink
unfolding url_end
link_of line = bulleted line >>= code b'[' >>= λ s.
    non_empty (take_while not_bracket s) >>= λ title.
    code b']' (drop_while not_bracket s) >>= code b'(' >>= λ u. url_end false u >>= λ rest.
    non_empty (take (length u - length rest) u) >>= λ url. code b')' rest >>= notes_of >>= λ notes.
    some (record { title = title; url = url; notes = notes })

-- The state of the loop; the sections stand in their order, the current one last.
pub record Scan : Type 0 where
  pub title : Text
  pub description : Text
  pub sections : List LlmsTxtSection
  pub quote : List Text
  pub in_quote : Bool

-- `" ".join(q for q in quote if q)`
abbrev pub joined_quote : List Text → Text
joined_quote quote = join (str " ") (filter (λ q. not (is_empty q)) quote)

-- `_QUOTE_RE.sub("", line, count=1).strip()`
abbrev pub quoted_text : Text → Text
quoted_text line = strip (drop 1 line)

abbrev add_link : LlmsTxtLink → List LlmsTxtSection → List LlmsTxtSection
add_link link [] = []
add_link link (s ∷ []) = record s { links = s.links ++ link ∷ [] } ∷ []
add_link link (s ∷ (t ∷ ts)) = s ∷ add_link link (t ∷ ts)

-- the first quote that ends is the description
abbrev pub quote_ended : Scan → Scan
quote_ended s =
    if s.in_quote then record s { in_quote = false; description = joined_quote s.quote } else s

abbrev pub section_line : Text → Scan → Scan
section_line line s =
    if starts_with line (str "## ")
    then record s {
      sections = s.sections ++ record { name = strip (drop 3 line); links = [] } ∷ [];
    }
    else elim (link_of (strip line)) [
      | none ↦ s
      | some link ↦ record s { sections = add_link link s.sections }
    ]

abbrev pub llms_line : Text → Scan → Scan
llms_line raw_line s =
    let line = rstrip raw_line in
    if is_empty s.title && starts_with line (str "# ")
    then record s { title = strip (drop 2 line) }
    else if is_empty s.description && starts_with line (str ">")
    then record s { in_quote = true; quote = s.quote ++ quoted_text line ∷ [] }
    else section_line line (quote_ended s)

abbrev pub llms_lines : List Text → Scan → Scan
llms_lines [] s = s
llms_lines (line ∷ lines) s = llms_lines lines (llms_line line s)

-- the state after the last line
unfoldable pub scan_of : Text → Scan
unfolding split_lines starts_with rstrip strip join link_of
scan_of text =
    llms_lines (split_lines text)
      (record { title = []; description = []; sections = []; quote = []; in_quote = false })

-- a quote that the text ends in
abbrev pub description_of : Scan → Text
description_of s =
    if s.in_quote && is_empty s.description then joined_quote s.quote else s.description

unfoldable pub parse_llms_txt : Text → ParseOutcome LlmsTxtResult
unfolding scan_of join
parse_llms_txt body =
    let text = without_mark body in
    let s = scan_of text in
    if ltb max_bytes (length body)
    then fails (fetch_error (str "llms.txt body exceeds 1 MB cap"))
    else read (record {
      title = s.title;
      description = description_of s;
      sections = s.sections;
      raw = text;
    })
