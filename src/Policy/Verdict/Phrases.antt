-- ===== src/Policy/Verdict/Phrases.antt =====
-- `_LLMS_RESTRICTIVE_RE` of policy/verdict.py, a search that ignores case. Each part of the
-- pattern begins with a letter, so the greedy `\s+` before it never has to give a space back.
use wbauth.Prelude.{
  ◌-◌, Bool, false, Option, none, some, [], ◌∷◌, if◌then◌else◌, or_else, length, take,
}
use wbauth.Text.{Text, str, is_word}
use wbauth.Matching.{◌>>=◌, word, spaces, boundary}

abbrev pub no_access : Text → Option Text
no_access s = do
  s ← word (str "no") s
  s ← spaces s
  s ← or_else (word (str "automated") s) (or_else (word (str "ai") s) (word (str "bot") s))
  s ← spaces s
  s ← word (str "access") s
  boundary s

abbrev pub do_not : Text → Option Text
do_not s = do
  s ← word (str "do") s
  s ← spaces s
  s ← word (str "not") s
  s ← spaces s
  s ← or_else (word (str "scrape") s) (word (str "crawl") s)
  boundary s

-- `re.search`: the first place where the pattern matches, behind a boundary; `m.group(0)`
unfoldable pub search_from : Bool → Text → Option Text
search_from inside [] = none
search_from inside (c ∷ s) =
    let later = search_from (is_word c) s in
    if inside then later else elim (or_else (no_access (c ∷ s)) (do_not (c ∷ s))) [
      | none ↦ later
      | some rest ↦ some (take (length (c ∷ s) - length rest) (c ∷ s))
    ]

unfoldable pub restrictive_phrase : Text → Option Text
unfolding search_from
restrictive_phrase description = search_from false description
