-- ===== src/Policy/Parsers/Robots.antt =====
-- policy/parsers/robots.py. Protego, which reads the rules, is a parameter: its parse of a text, and
-- what a parse answers. A line of the file is matched without backtracking: the name of a field
-- begins with a letter, so `\s*` before it has nothing to give back.
pub mod Signals
use wbauth.Prelude.{
  ℕ, Bool, true, false, not, ◌&&◌, ◌||◌, Option, none, some, List, [], ◌∷◌, ◌++◌, ◌==◌,
  if◌then◌else◌, is_empty, any, drop, drop_while, take_while, reverse,
}
use wbauth.Text.{
  Text, str, text_eq, starts_with, contains, lower, is_space, lstrip, rstrip, strip, split_once,
  split_on,
}
use wbauth.Text.Lines.{split_lines, without_mark}
use wbauth.Dict.{Dict, text_keys, put, update}
use wbauth.Matching.{◌>>=◌, word, spaces?}
use wbauth.Policy.Types.{RobotsResult}
use wbauth.Policy.Errors.{Exception, robots_parse_error}
use wbauth.Policy.Inspector.Endpoints.{ParseOutcome, read, fails}

-- a parse of Protego: `can_fetch(url, token)`, `crawl_delay(token)` in milliseconds, `sitemaps`
pub record Protego : Type 0 where
  pub can_fetch : Text → Text → Bool
  pub crawl_delay : Text → Option ℕ
  pub sitemaps : List Text

pub record RobotsSource : Type 0 where
  pub parser : Protego
  pub raw : Text

-- `content_type and "html" in content_type.lower()`
abbrev is_html : Option Text → Bool
is_html none = false
is_html (some content_type) = contains (lower content_type) (str "html")

unfoldable pub parse_robots_source :
    (parse : Text → Protego) → Text → (content_type : Option Text) → ParseOutcome RobotsSource
unfolding starts_with contains lower lstrip
parse_robots_source parse text content_type =
    let text' = without_mark text in
    if starts_with (lstrip text') (str "<") || is_html content_type
    then fails robots_parse_error
    else read (record { parser = parse text'; raw = text' })

abbrev colon : Text → Option Text
colon [] = none
colon (c ∷ s) = if c == b':' then some s else none

-- `(.+?)\s*(?:#.*)?$` behind the spaces: one character at least, then what stands before a comment
abbrev pub before_comment : ℕ → Text → Text
before_comment c s = c ∷ rstrip (take_while (λ d. not (d == b'#')) s)

-- where nothing but spaces follows the colon, `\s*` gives the last one back
abbrev last_of : Text → Option Text
last_of [] = none
last_of (c ∷ s) = some (elim (reverse (c ∷ s)) [ [] ↦ [] | ◌∷◌ d ds ↦ d ∷ [] ])

abbrev pub field_text : Text → Option Text
field_text v = elim (spaces? v) [ [] ↦ last_of v | ◌∷◌ c s ↦ some (before_comment c s) ]

-- `_CONTENT_SIGNAL_RE` and `_UA_LINE_RE`, by the name of the field
unfoldable pub field : (name : Text) → Text → Option Text
unfolding rstrip
field name line = word name (spaces? line) >>= λ s. colon (spaces? s) >>= field_text

-- `[/\s(]`
abbrev pub ends_token : ℕ → Bool
ends_token c = c == b'/' || is_space c || c == b'('

unfoldable pub product_token : Text → Text
unfolding strip
product_token user_agent =
    let token = take_while (λ c. not (ends_token c)) (strip user_agent) in
    if is_empty token then user_agent else token

-- one part of a Content-Signal
abbrev pub add_signal : Text → Dict Text Text → Dict Text Text
add_signal part signals = elim (split_once b'=' part) [
  | none ↦ signals
  | some (k, v) ↦ put (lower (strip k)) (lower (strip v)) signals
]

abbrev pub add_signals : List Text → Dict Text Text → Dict Text Text
add_signals [] signals = signals
add_signals (part ∷ parts) signals = add_signals parts (add_signal part signals)

-- a group: the agents it names, and its signals
abbrev pub Group : Type 0
Group = List Text × Dict Text Text

-- The state of the loop over the lines.
pub record Scan : Type 0 where
  pub groups : List Group
  pub agents : List Text
  pub signals : Dict Text Text
  pub last_was_ua : Bool

abbrev pub closed : Scan → List Group
closed s = if is_empty s.agents then s.groups else s.groups ++ (s.agents, s.signals) ∷ []

-- a User-agent line begins a group unless another one stands before it
abbrev pub agent_line : Text → Scan → Scan
agent_line agent s =
    if s.last_was_ua
    then record s { agents = lower agent ∷ s.agents }
    else record { groups = closed s; agents = lower agent ∷ []; signals = []; last_was_ua = true }

-- `line.strip() and not line.lstrip().startswith("#")`
abbrev pub is_rule : Text → Bool
is_rule line = not (is_empty (strip line)) && not (starts_with (lstrip line) (str "#"))

abbrev pub signal_line : Text → Scan → Scan
signal_line line s =
    let s' = record s { last_was_ua = s.last_was_ua && not (is_rule line) } in
    elim (field (str "content-signal") line) [
      | none ↦ s'
      | some value ↦ record s' { signals = add_signals (split_on b',' value) s.signals }
    ]

abbrev pub scan_line : Text → Scan → Scan
scan_line line s = elim (field (str "user-agent") line) [
  | some agent ↦ agent_line agent s
  | none ↦ signal_line line s
]

abbrev pub scan : List Text → Scan → Scan
scan [] s = s
scan (line ∷ lines) s = scan lines (scan_line line s)

-- the groups of a text
unfoldable pub groups_of : Text → List Group
unfolding split_lines field starts_with lower lstrip strip split_once split_on put
groups_of text = closed (
    scan (split_lines text)
      (record { groups = []; agents = []; signals = []; last_was_ua = false }))

abbrev pub is_generic : Group → Bool
is_generic g = any (λ a. text_eq a (str "*")) g.0

abbrev pub is_specific : (token : Text) → Group → Bool
is_specific token g = any (λ a. not (text_eq a (str "*")) && contains token a) g.0

-- `generic` and `specific`: the signals of the groups of a kind, later ones first
abbrev pub merged : (Group → Bool) → List Group → Dict Text Text → Dict Text Text
merged p [] out = out
merged p (g ∷ gs) out = merged p gs (if p g then update out g.1 else out)

unfoldable pub parse_content_signals : (text user_agent : Text) → Dict Text Text
unfolding groups_of product_token lower contains update
parse_content_signals text user_agent =
    let token = lower (product_token user_agent) in
    let groups = groups_of text in
    update (merged is_generic groups []) (merged (is_specific token) groups [])

unfoldable pub evaluate_robots : RobotsSource → (target_url user_agent : Text) → RobotsResult
unfolding parse_content_signals product_token
evaluate_robots source target_url user_agent =
    let token = product_token user_agent in
    record {
      can_fetch_url = source.parser.can_fetch target_url token;
      sitemaps = source.parser.sitemaps;
      raw = source.raw;
      user_agent_evaluated = user_agent;
      crawl_delay = source.parser.crawl_delay token;
      content_signals = parse_content_signals source.raw user_agent;
    }
