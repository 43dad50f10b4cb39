-- ===== src/Policy/Parsers/AiTxt/Written.antt =====
-- An ai.txt with a list of permissions and one of restrictions, and what is read of it.
use wbauth.Prelude.{
  ℕ, ◌≤◌, Bool, true, false, not, ◌&&◌, ◌≡◌, refl, sym, ap, ◌∙◌, inl, inr, none, some, List, [],
  ◌∷◌, ◌++◌, ◌==◌, arith, all, is_empty, map, All, All-append, Bool-cases, append_assoc, append-nil,
  length, ltb,
}
use wbauth.Text.{Text, str, text_eq, starts_with, is_space, strip, lstrip}
use wbauth.Text.Laws.{text_eq_self}
use wbauth.Text.Lines.{without_mark, is_break, cons_line, lines_from, split_lines}
use wbauth.Text.Solid.{ends_solid, strip_solid}
use wbauth.Dict.{Dict, text_keys, get, put}
use wbauth.Dict.Laws.{get-put_self}
use wbauth.Policy.Types.{AiTxtResult}
use wbauth.Policy.Inspector.Endpoints.{read}
use wbauth.Policy.Parsers.AiTxt.{
  max_bytes, find_comment, strip_inline_comment, Sections, content_line, append_line, ai_line,
  ai_lines, sections_of, bullet, bullets, parse_ai_txt,
}

-- the lines, each with its end
abbrev pub text_of : List Text → Text
text_of [] = []
text_of (line ∷ lines) = line ++ 10 ∷ text_of lines

abbrev pub unbroken : ℕ → Bool
unbroken c = not (is_break c)

lines_from-line :
    (line rest : Text)
    → all unbroken line ≡ true
    → lines_from false (line ++ 10 ∷ rest) ≡ line ∷ lines_from false rest
unfolding lines_from
lines_from-line [] rest h = refl
lines_from-line (c ∷ line) rest h =
    let whole : is_break c ≡ false = ground (arith, h) in
    let no_return : (c == 13) ≡ false = ground (arith, h) in
    rw (whole, no_return) (ap (cons_line c) (lines_from-line line rest (ground (arith, h))))

split_lines-text_of :
    (lines : List Text)
    → All (λ l. all unbroken l ≡ true) lines
    → split_lines (text_of lines) ≡ lines
unfolding split_lines
split_lines-text_of [] h = refl
split_lines-text_of (line ∷ lines) (h, hs) =
    lines_from-line line (text_of lines) h ∙ ap (λ ls. line ∷ ls) (split_lines-text_of lines hs)

-- What an item may be: one line without a comment sign, and without a space at its ends.
abbrev pub item_code : ℕ → Bool
item_code c = unbroken c && not (c == b'#')

abbrev pub IsItem : Text → Type 0
IsItem [] = ⊥
IsItem (a ∷ s) = (is_space a ≡ false) × (ends_solid (a ∷ s) ≡ true) × (all item_code (a ∷ s) ≡ true)

abbrev pub bulleted : Text → Text
bulleted item = b'-' ∷ b' ' ∷ item

find_comment-plain : (s : Text) → all item_code s ≡ true → find_comment s ≡ none
unfolding find_comment starts_with
find_comment-plain [] h = refl
find_comment-plain (c ∷ []) h = ground arith
find_comment-plain (c ∷ (d ∷ s)) h = ground (arith, find_comment-plain (d ∷ s))

strip_inline_comment-plain : (s : Text) → all item_code s ≡ true → strip_inline_comment s ≡ s
unfolding strip_inline_comment
strip_inline_comment-plain s h = rw (strip_inline_comment, find_comment-plain s h) refl

strip-bulleted : (item : Text) → IsItem item → strip (bulleted item) ≡ bulleted item
strip-bulleted [] h = absurd h
strip-bulleted (a ∷ s) (h, k, i) = strip_solid b'-' (b' ' ∷ a ∷ s) refl k

bullet-bulleted : (item : Text) → IsItem item → bullet (bulleted item) ≡ item
unfolding strip lstrip
bullet-bulleted [] h = absurd h
bullet-bulleted (a ∷ s) (h, k, i) = strip_solid a s h k

ai_line-bulleted :
    (item : Text) (s : Sections)
    → IsItem item
    → ai_line (bulleted item) s ≡ content_line (bulleted item) s
unfolding starts_with
ai_line-bulleted [] s h = absurd h
ai_line-bulleted (a ∷ t) s (h, k, i) =
    let kept = strip-bulleted (a ∷ t) (h, k, i) in
    let line = strip_inline_comment-plain (bulleted (a ∷ t)) (ground (arith, i)) in
    rw kept (rw line refl)

put-put : (k : Text) (v w : List Text) (d : Dict Text (List Text)) → put k v (put k w d) ≡ put k v d
unfolding put
put-put k v w [] = rw (text_eq_self k) refl
put-put k v w ((j, u) ∷ d) = elim (Bool-cases (text_eq j k)) [
  | inl same ↦ rw same (rw same refl)
  | inr other ↦ rw other (rw other (ap (λ e. (j, u) ∷ e) (put-put k v w d)))
]

some_injective : (v w : List Text) → some v ≡ some w → v ≡ w
some_injective v w h = ground arith

put-get : (k : Text) (v : List Text) (d : Dict Text (List Text)) → get k d ≡ some v → put k v d ≡ d
unfolding put get
put-get k v [] h = absurd (cc)
put-get k v ((j, u) ∷ d) h = elim (Bool-cases (text_eq j k)) [
  | inl same ↦ let e : u ≡ v = some_injective u v (rw same at h) in rw (same, e) refl
  | inr other ↦ rw other (ap (λ e. (j, u) ∷ e) (put-get k v d (rw other at h)))
]

-- The items go under the section that is open.
ai_lines-bulleted :
    (items more : List Text) (name : Text) (lines : List Text) (sections : Dict Text (List Text))
    → All IsItem items
    → get name sections ≡ some lines
    → ai_lines (map bulleted items ++ more) (sections, some name)
      ≡ ai_lines more (put name (lines ++ map bulleted items) sections, some name)
ai_lines-bulleted [] more name lines sections h k =
    ap (λ d. ai_lines more (d, some name))
      (sym (put-get name lines sections k)
        ∙ ap (λ ls. put name ls sections) (sym (append-nil lines)))
ai_lines-bulleted (item ∷ items) more name lines sections (h, hs) k =
    let line = bulleted item in
    ap (ai_lines (map bulleted items ++ more)) (ai_line-bulleted item (sections, some name) h)
    ∙ ap (λ d. ai_lines (map bulleted items ++ more) (d, some name)) (rw (append_line, k) refl)
    ∙ ai_lines-bulleted items more name (lines ++ line ∷ [])
        (put name (lines ++ line ∷ []) sections) hs
        (get-put_self name (lines ++ line ∷ []) sections)
    ∙ ap (λ d. ai_lines more (d, some name))
        (put-put name ((lines ++ line ∷ []) ++ map bulleted items) (lines ++ line ∷ []) sections
          ∙ ap (λ ls. put name ls sections) (append_assoc lines (line ∷ []) (map bulleted items)))

IsItem-full : (item : Text) → IsItem item → is_empty item ≡ false
IsItem-full [] h = absurd h
IsItem-full (a ∷ s) h = refl

bullets-bulleted : (items : List Text) → All IsItem items → bullets (map bulleted items) ≡ items
bullets-bulleted [] h = refl
bullets-bulleted (item ∷ items) (h, hs) =
    let b = bullet-bulleted item h in
    let full = IsItem-full item h in rw (b, full) (ap (λ ts. item ∷ ts) (bullets-bulleted items hs))

abbrev pub permissions_name : Text
permissions_name = str "permissions"

abbrev pub restrictions_name : Text
restrictions_name = str "restrictions"

-- an ai.txt that lists the permissions and the restrictions
abbrev pub lines_of : (permissions restrictions : List Text) → List Text
lines_of permissions restrictions =
    str "[permissions]"
    ∷ (map bulleted permissions ++ str "[restrictions]" ∷ map bulleted restrictions)

abbrev pub ai_text : (permissions restrictions : List Text) → Text
ai_text permissions restrictions = text_of (lines_of permissions restrictions)

all-unbroken : (s : Text) → all item_code s ≡ true → all unbroken s ≡ true
all-unbroken [] h = refl
all-unbroken (c ∷ s) h = ground (arith, all-unbroken s)

unbroken-bulleted :
    (items : List Text) → All IsItem items → All (λ l. all unbroken l ≡ true) (map bulleted items)
unbroken-bulleted [] h = tt
unbroken-bulleted ([] ∷ items) (h, hs) = absurd h
unbroken-bulleted ((a ∷ s) ∷ items) ((h, k, i), hs) =
    (all-unbroken (a ∷ s) i, unbroken-bulleted items hs)

sections_of-ai_text :
    (ps rs : List Text)
    → All IsItem ps
    → All IsItem rs
    → sections_of (ai_text ps rs)
      ≡ (permissions_name, map bulleted ps) ∷ (restrictions_name, map bulleted rs) ∷ []
unfolding sections_of get put text_eq
sections_of-ai_text ps rs h k =
    let first = (permissions_name, []) ∷ [] in
    let second = (permissions_name, map bulleted ps) ∷ (restrictions_name, []) ∷ [] in
    let whole = split_lines-text_of (lines_of ps rs) (
      refl,
      All-append (λ l. all unbroken l ≡ true) (map bulleted ps)
          (str "[restrictions]" ∷ map bulleted rs) (unbroken-bulleted ps h)
          (refl, unbroken-bulleted rs k),
    ) in
    ap (λ ls. (ai_lines ls ([], none)).0) whole
    ∙ ap (λ (s : Sections). s.0)
        (ai_lines-bulleted ps (str "[restrictions]" ∷ map bulleted rs) permissions_name [] first h
          refl)
    ∙ ap (λ ls. (ai_lines ls (second, some restrictions_name)).0)
        (sym (append-nil (map bulleted rs)))
    ∙ ap (λ (s : Sections). s.0) (ai_lines-bulleted rs [] restrictions_name [] second k refl)

abbrev pub result_of : (permissions restrictions : List Text) → (raw : Text) → AiTxtResult
result_of permissions restrictions raw = record {
  identity = [];
  permissions = permissions;
  restrictions = restrictions;
  attribution = [];
  contact = [];
  content_types = [];
  raw = raw;
}

parse_of_sections :
    (body : Text) (ls ms : List Text)
    → ltb max_bytes (length body) ≡ false
    → without_mark body ≡ body
    → sections_of body ≡ (permissions_name, ls) ∷ (restrictions_name, ms) ∷ []
    → parse_ai_txt body ≡ read (result_of (bullets ls) (bullets ms) body)
unfolding parse_ai_txt get text_eq
parse_of_sections body ls ms small plain h = rw (parse_ai_txt, small) (rw plain (rw h refl))

-- An ai.txt that lists permissions and restrictions, each one line without a comment sign and
-- without a space at its ends, is read as these permissions and these restrictions.
pub parse_ai_txt-ai_text :
    (ps rs : List Text)
    → All IsItem ps
    → All IsItem rs
    → length (ai_text ps rs) ≤ max_bytes
    → parse_ai_txt (ai_text ps rs) ≡ read (result_of ps rs (ai_text ps rs))
parse_ai_txt-ai_text ps rs h k fits =
    parse_of_sections (ai_text ps rs) (map bulleted ps) (map bulleted rs) (ground arith) refl
      (sections_of-ai_text ps rs h k)
    ∙ ap (λ ts. read (result_of ts (bullets (map bulleted rs)) (ai_text ps rs)))
        (bullets-bulleted ps h)
    ∙ ap (λ ts. read (result_of ps ts (ai_text ps rs))) (bullets-bulleted rs k)
