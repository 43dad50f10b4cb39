-- ===== src/Policy/Parsers/Robots/Signals.antt =====
-- Which Content-Signal lines of a robots.txt count for an agent.
use wbauth.Prelude.{
  Bool, ◌≡◌, refl, sym, ap, ◌∙◌, inl, inr, Option, none, some, List, [], ◌∷◌, if◌then◌else◌,
  is_empty, or_else, Bool-cases, Option-cases, All, All-append,
}
use wbauth.Text.{Text, str, lower, split_once, split_on, strip}
use wbauth.Text.Lines.{split_lines}
use wbauth.Dict.{Dict, text_keys, get, update}
use wbauth.Dict.Distinct.{IsDistinct, IsDistinct-put, IsDistinct-update, get-update}
use wbauth.Policy.Parsers.Robots.{
  Group, Scan, closed, agent_line, signal_line, scan_line, scan, field, groups_of, add_signal,
  add_signals, is_generic, is_specific, merged, parse_content_signals, product_token,
}

-- each group holds one value for a signal
abbrev HasDistinct : Group → Type 0
HasDistinct g = IsDistinct g.1

record IsScan (s : Scan) : Type 0 where
  groups_distinct : All HasDistinct s.groups
  signals_distinct : IsDistinct s.signals

add_signal-IsDistinct :
    (part : Text) (d : Dict Text Text) → IsDistinct d → IsDistinct (add_signal part d)
add_signal-IsDistinct part d h = elim (Option-cases (split_once b'=' part)) [
  | inl whole ↦ rw (add_signal, whole) h
  | inr ((k, v), split) ↦
      rw (add_signal, split) (IsDistinct-put (lower (strip k)) (lower (strip v)) d h)
]

add_signals-IsDistinct :
    (parts : List Text) (d : Dict Text Text) → IsDistinct d → IsDistinct (add_signals parts d)
add_signals-IsDistinct [] d h = h
add_signals-IsDistinct (part ∷ parts) d h =
    add_signals-IsDistinct parts (add_signal part d) (add_signal-IsDistinct part d h)

closed-All : (s : Scan) → IsScan s → All HasDistinct (closed s)
closed-All s h = elim (Bool-cases (is_empty s.agents)) [
  | inl idle ↦ rw idle h.groups_distinct
  | inr busy ↦ rw busy (
      All-append HasDistinct s.groups ((s.agents, s.signals) ∷ []) h.groups_distinct
        (h.signals_distinct, tt))
]

agent_line-IsScan : (agent : Text) (s : Scan) → IsScan s → IsScan (agent_line agent s)
unfolding IsDistinct
agent_line-IsScan agent s h = elim (Bool-cases s.last_was_ua) [
  | inl again ↦
      rw again
        (record { groups_distinct = h.groups_distinct; signals_distinct = h.signals_distinct })
  | inr first ↦ rw first (record { groups_distinct = closed-All s h; signals_distinct = tt })
]

signal_line-IsScan : (line : Text) (s : Scan) → IsScan s → IsScan (signal_line line s)
signal_line-IsScan line s h = elim (Option-cases (field (str "content-signal") line)) [
  | inl other ↦
      rw (signal_line, other)
        (record { groups_distinct = h.groups_distinct; signals_distinct = h.signals_distinct })
  | inr (value, found) ↦
      rw (signal_line, found)
        (record {
          groups_distinct = h.groups_distinct;
          signals_distinct =
              add_signals-IsDistinct (split_on b',' value) s.signals h.signals_distinct;
        })
]

scan_line-IsScan : (line : Text) (s : Scan) → IsScan s → IsScan (scan_line line s)
scan_line-IsScan line s h = elim (Option-cases (field (str "user-agent") line)) [
  | inl other ↦ rw (scan_line, other) (signal_line-IsScan line s h)
  | inr (agent, found) ↦ rw (scan_line, found) (agent_line-IsScan agent s h)
]

scan-IsScan : (lines : List Text) (s : Scan) → IsScan s → IsScan (scan lines s)
scan-IsScan [] s h = h
scan-IsScan (line ∷ lines) s h = scan-IsScan lines (scan_line line s) (scan_line-IsScan line s h)

groups_of-All : (text : Text) → All HasDistinct (groups_of text)
unfolding groups_of IsDistinct
groups_of-All text =
    closed-All _
      (scan-IsScan (split_lines text) _ (record { groups_distinct = tt; signals_distinct = tt }))

-- the signal in the last group of a kind that has it
abbrev pub last_signal : (Group → Bool) → (name : Text) → List Group → Option Text
last_signal p name [] = none
last_signal p name (g ∷ gs) = or_else (last_signal p name gs) (if p g then get name g.1 else none)

or_else_assoc : (a b c : Option Text) → or_else (or_else a b) c ≡ or_else a (or_else b c)
or_else_assoc none b c = refl
or_else_assoc (some x) b c = refl

or_else-none : (a : Option Text) → or_else a none ≡ a
or_else-none none = refl
or_else-none (some x) = refl

get-merged :
    (p : Group → Bool) (name : Text) (gs : List Group) (out : Dict Text Text)
    → All HasDistinct gs
    → get name (merged p gs out) ≡ or_else (last_signal p name gs) (get name out)
get-merged p name [] out h = refl
get-merged p name (g ∷ gs) out (h, hs) = elim (Bool-cases (p g)) [
  | inl chosen ↦ rw chosen (
      get-merged p name gs (update out g.1) hs
      ∙ ap (or_else (last_signal p name gs)) (get-update name out g.1 h)
      ∙ sym (or_else_assoc (last_signal p name gs) (get name g.1) (get name out)))
  | inr other ↦ rw other (
      get-merged p name gs out hs ∙ sym (or_else_assoc (last_signal p name gs) none (get name out)))
]

get-merged_new :
    (p : Group → Bool) (name : Text) (gs : List Group)
    → All HasDistinct gs
    → get name (merged p gs []) ≡ last_signal p name gs
unfolding get
get-merged_new p name gs h = get-merged p name gs [] h ∙ or_else-none (last_signal p name gs)

merged-IsDistinct :
    (p : Group → Bool) (gs : List Group) (out : Dict Text Text)
    → IsDistinct out
    → IsDistinct (merged p gs out)
merged-IsDistinct p [] out h = h
merged-IsDistinct p (g ∷ gs) out h = elim (Bool-cases (p g)) [
  | inl chosen ↦ rw chosen (merged-IsDistinct p gs (update out g.1) (IsDistinct-update out g.1 h))
  | inr other ↦ rw other (merged-IsDistinct p gs out h)
]

-- A signal that an agent is given is that of the last group that names the agent and has the
-- signal; where there is none, that of the last group for every agent that has it.
pub get-parse_content_signals :
    (text user_agent name : Text)
    → get name (parse_content_signals text user_agent)
      ≡ or_else
          (last_signal (is_specific (lower (product_token user_agent))) name (groups_of text))
          (last_signal is_generic name (groups_of text))
unfolding parse_content_signals IsDistinct get
get-parse_content_signals text user_agent name =
    let groups = groups_of text in
    let token = lower (product_token user_agent) in
    get-update name (merged is_generic groups []) (merged (is_specific token) groups [])
      (merged-IsDistinct (is_specific token) groups [] tt)
    ∙ ap (λ o. or_else o (get name (merged is_generic groups [])))
        (get-merged_new (is_specific token) name groups (groups_of-All text))
    ∙ ap (or_else (last_signal (is_specific token) name groups))
        (get-merged_new is_generic name groups (groups_of-All text))
