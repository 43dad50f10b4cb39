-- ===== src/Policy/Cache/Lifetimes.antt =====
-- How long an entry of policy/cache.py is served whose response says `max-age`.
use wbauth.Prelude.{
  ℕ, ◌+◌, ◌<◌, min, true, false, ◌≡◌, refl, sym, ap, ◌∙◌, none, some, [], ◌∷◌, ◌++◌, arith, all,
  take_while, ltb, if◌then◌else◌,
}
use wbauth.Text.{Text, str, lower, contains, starts_with, decimal, is_digit}
use wbauth.Text.Decimal.{number-decimal}
use wbauth.Matching.{digits, optional, spaces?, number_from}
use wbauth.Protocol.Pieces.{IsNumeral, decimal-IsNumeral}
use wbauth.Policy.Types.{Endpoint}
use wbauth.Policy.Cache.Control.{parse_cache_control, parse_header, max_age}
use wbauth.Policy.Cache.Store.{StoreLaws}
use wbauth.Policy.Cache.Entries.{
  CacheEntry, Value, Meta, Now, Key, PolicyCache, set_entry, entry_ttl, says_no_store, new_entry,
  seconds, max_ttl, parse_age,
}
use wbauth.Policy.Cache.Laws.{entry_at, entry_at-set_entry}
use wbauth.Policy.Cache.Spellings.{IsSpelling, normalize_host-IsSpelling}

-- `max-age=n`
abbrev pub max_age_header : ℕ → Text
max_age_header n = str "max-age=" ++ decimal n

take_while_digits : (s : Text) → all is_digit s ≡ true → take_while is_digit s ≡ s
take_while_digits [] h = refl
take_while_digits (c ∷ s) h = ground (arith, take_while_digits s)

digits-IsNumeral :
    (d : Text) → IsNumeral d → digits (optional 0x22 (spaces? d)) ≡ some (number_from 0 d)
digits-IsNumeral [] h = absurd h
digits-IsNumeral (a ∷ s) (h, i) = ground (arith, take_while_digits s i)

lower_digits : (s : Text) → all is_digit s ≡ true → lower s ≡ s
unfolding lower
lower_digits [] h = refl
lower_digits (c ∷ s) h = ground (arith, lower_digits s)

numeral_digits : (d : Text) → IsNumeral d → all is_digit d ≡ true
numeral_digits [] h = absurd h
numeral_digits (a ∷ s) (h, i) = ground (arith, h, i)

no_directive : (s p : Text) → all is_digit s ≡ true → contains s (b'n' ∷ p) ≡ false
unfolding contains starts_with
no_directive [] p h = refl
no_directive (c ∷ s) p h = ground (arith, no_directive s p)

lower_header :
    (d : Text) → all is_digit d ≡ true → lower (str "max-age=" ++ d) ≡ str "max-age=" ++ d
unfolding lower
lower_header d h = ap (λ t. str "max-age=" ++ t) (lower_digits d h)

header_without :
    (d p : Text) → all is_digit d ≡ true → contains (str "max-age=" ++ d) (b'n' ∷ p) ≡ false
unfolding contains starts_with
header_without d p h = no_directive d p h

max_age-max_age_header :
    (d : Text) → IsNumeral d → max_age (str "max-age=" ++ d) ≡ some (number_from 0 d)
unfolding max_age
max_age-max_age_header d h = rw (digits-IsNumeral d h) refl

parse_cache_control-max_age_header :
    (n : ℕ) → parse_cache_control (some (max_age_header n)) ≡ (true, some n)
unfolding parse_cache_control parse_header
parse_cache_control-max_age_header n =
    let d = decimal n in
    let is = numeral_digits d (decimal-IsNumeral n) in
    let store : contains (lower (max_age_header n)) (str "no-store") ≡ false =
      ap (λ h. contains h (str "no-store")) (lower_header d is)
      ∙ header_without d (str "o-store") is in
    let cache : contains (lower (max_age_header n)) (str "no-cache") ≡ false =
      ap (λ h. contains h (str "no-cache")) (lower_header d is)
      ∙ header_without d (str "o-cache") is in
    rw (store, cache, lower_header d is)
      (ap (λ o. (true, o))
        (max_age-max_age_header d (decimal-IsNumeral n) ∙ ap some (number-decimal n)))

says_no_store-max_age_header : (n : ℕ) → says_no_store (some (max_age_header n)) ≡ false
says_no_store-max_age_header n =
    let is = numeral_digits (decimal n) (decimal-IsNumeral n) in
    let header = str "max-age=" ++ decimal n in
    let store : contains header (str "no-store") ≡ false =
      header_without (decimal n) (str "o-store") is in
    rw (lower_header (decimal n) is, store) refl

-- `max-age=n` makes a life of n seconds, and 24 hours at most.
entry_ttl-max_age_header :
    (endpoint : Endpoint) (m : Meta) (n : ℕ)
    → m.ttl_override ≡ none
    → m.age ≡ none
    → m.cache_control ≡ some (max_age_header n)
    → entry_ttl endpoint m ≡ min (seconds n) max_ttl
unfolding entry_ttl parse_age
entry_ttl-max_age_header endpoint m n o a h =
    rw (o, a, h) (rw (parse_cache_control-max_age_header n) (omega arith))

module _ {P : Type 0} (L : StoreLaws Key (CacheEntry P)) (U : StoreLaws Key (CacheEntry P)) where
  -- An entry that was stored with `max-age=n`, without an Age or an override, is served under every
  -- spelling of its host, in any case, with dots behind it and with or without the port of https,
  -- until n seconds are over, or 24 hours where that is less, and no longer.
  pub entry_at-set_entry_spelled :
      (now : Now) (t n : ℕ) (host h h' : Text) (endpoint : Endpoint) (value : Value P) (m : Meta)
      (c : PolicyCache L U)
      → IsSpelling host h
      → IsSpelling host h'
      → m.ttl_override ≡ none
      → m.age ≡ none
      → m.cache_control ≡ some (max_age_header n)
      → 0 < n
      → entry_at L U t h' endpoint (set_entry L U now h endpoint value m c) ≡ (
          if ltb t (now.mono + min (seconds n) max_ttl)
          then some (new_entry now endpoint value m)
          else none)
  entry_at-set_entry_spelled now t n host h h' endpoint value m c s s' o a says some_time =
      let life = entry_ttl-max_age_header endpoint m n o a says in
      let same = normalize_host-IsSpelling host h' s' ∙ sym (normalize_host-IsSpelling host h s) in
      entry_at-set_entry L U now t h h' endpoint value m c
        (ap says_no_store says ∙ says_no_store-max_age_header n) (omega (arith, life, some_time))
        same
      ∙ ap (λ ttl. if ltb t (now.mono + ttl) then some (new_entry now endpoint value m) else none)
          life
