-- ===== src/Policy/Verdict/Paths.antt =====
-- The paths that an ai.txt rule names, and whether a rule applies to a path (policy/verdict.py).
pub mod Covering
use wbauth.Prelude.{
  ℕ, Bool, true, false, not, ◌&&◌, ◌||◌, Option, none, some, List, [], ◌∷◌, ◌++◌, ◌==◌,
  if◌then◌else◌, any, is_empty, map,
}
use wbauth.Text.{Text, str, text_eq, starts_with, ends_with, is_space, is_word, rstrip_of}

-- `[^\s,;()"']`
abbrev pub in_token : ℕ → Bool
in_token c =
    not (is_space c || c == b',' || c == b';' || c == b'(' || c == b')' || c == 0x22 || c == 0x27)

-- the look-behind `(?<![\w./:])`, on the code point before, if there is one
abbrev pub starts_token : Option ℕ → Bool
starts_token none = true
starts_token (some c) = not (is_word c || c == b'.' || c == b'/' || c == b':')

-- the look-ahead `(?!/)`
abbrev pub slash_next : Text → Bool
slash_next [] = false
slash_next (c ∷ s) = c == b'/'

-- `_PATH_TOKEN_RE.finditer`. `cur` is the token that the scan stands in, `before` the code point
-- before; a token ends at the first code point that it cannot hold.
unfoldable pub tokens : Option Text → Option ℕ → Text → List Text
tokens none before [] = []
tokens (some cur) before [] = cur ∷ []
tokens none before (c ∷ s) =
    let opened = tokens (some (c ∷ [])) (some c) s in
    let passed = tokens none (some c) s in
    if c == b'/' && starts_token before && not (slash_next s) then opened else passed
tokens (some cur) before (c ∷ s) =
    let longer = tokens (some (cur ++ c ∷ [])) (some c) s in
    let closed = tokens none (some c) s in if in_token c then longer else cur ∷ closed

-- `m.group(0).rstrip(".*") or "/"`
abbrev pub trimmed : Text → Text
trimmed token =
    let t = rstrip_of (λ c. c == b'.' || c == b'*') token in if is_empty t then str "/" else t

unfoldable pub restriction_paths : Text → List Text
unfolding tokens rstrip_of
restriction_paths rule = map trimmed (tokens none none rule)

unfoldable pub path_covers : Text → Text → Bool
path_covers rule_path target =
    if ends_with rule_path (str "/")
    then starts_with target rule_path
    else text_eq target rule_path || starts_with target (rule_path ++ str "/")

abbrev pub covered_by : List Text → Text → Bool
covered_by paths path =
    let target = if is_empty path then str "/" else path in any (λ p. path_covers p target) paths

unfoldable pub restriction_applies : Text → Option Text → Bool
unfolding restriction_paths path_covers
restriction_applies rule none = true
restriction_applies rule (some path) =
    let paths = restriction_paths rule in if is_empty paths then true else covered_by paths path
