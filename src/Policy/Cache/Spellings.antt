-- ===== src/Policy/Cache/Spellings.antt =====
-- The spellings of a host that `normalize_host` of policy/cache.py takes for one.
use wbauth.Prelude.{
  ℕ, ◌-◌, Bool, true, false, not, ◌||◌, ◌≡◌, refl, sym, ap, ◌∙◌, inl, inr, [], ◌∷◌, ◌++◌, ◌==◌,
  arith, all, length, length-append, take-append, append_assoc, append-nil, Bool-cases,
}
use wbauth.Text.{Text, str, lower, lower_code, strip, is_alpha, is_digit, starts_with, ends_with}
use wbauth.Text.Laws.{starts_with_sound}
use wbauth.Text.Affixes.{ends_with_sound, ends_with-append}
use wbauth.Text.Solid.{ends_solid, ends_solid-append, strip_solid}
use wbauth.Text.Ranges.{all-append, rstrip_of-append}
use wbauth.Policy.Cache.Host.{normalize_host, without_suffix, without_dots}

-- a character of a host name, its dots excepted
abbrev pub label_code : ℕ → Bool
label_code c = is_alpha c || is_digit c || c == b'-' || c == b'_'

abbrev pub is_dot : ℕ → Bool
is_dot c = c == b'.'

abbrev pub name_code : ℕ → Bool
name_code c = label_code c || is_dot c

abbrev pub port_of : Bool → Text
port_of true = str ":443"
port_of false = []

-- A host name in any case, of letters, digits, `-`, `_` and dots between them; then dots, and
-- perhaps the port of https.
pub record IsSpelling (host h : Text) : Type 0 where
  pub first : ℕ
  pub middle : Text
  pub last : ℕ
  pub dots : Text
  pub with_port : Bool
  pub first_ok : label_code first ≡ true
  pub middle_ok : all name_code middle ≡ true
  pub last_ok : label_code last ≡ true
  pub dots_ok : all is_dot dots ≡ true
  pub same_name : lower (first ∷ middle ++ last ∷ []) ≡ host
  pub written : h ≡ (first ∷ middle ++ last ∷ []) ++ (dots ++ port_of with_port)

lower-append : (s t : Text) → lower (s ++ t) ≡ lower s ++ lower t
unfolding lower
lower-append [] t = refl
lower-append (c ∷ s) t = ap (λ r. lower_code c ∷ r) (lower-append s t)

all-lower : (s : Text) → all name_code s ≡ true → all name_code (lower s) ≡ true
unfolding lower
all-lower [] h = refl
all-lower (c ∷ s) h = ground (arith, all-lower s)

lower_dots : (d : Text) → all is_dot d ≡ true → lower d ≡ d
unfolding lower
lower_dots [] h = refl
lower_dots (c ∷ d) h = ground (arith, lower_dots d)

dots_name : (d : Text) → all is_dot d ≡ true → all name_code d ≡ true
dots_name [] h = refl
dots_name (c ∷ d) h = ground (arith, dots_name d)

dots_or_port_solid :
    (d : Text) (port : Bool) (last : ℕ)
    → label_code last ≡ true
    → all is_dot d ≡ true
    → ends_solid (last ∷ d ++ port_of port) ≡ true
dots_or_port_solid [] true last l h = refl
dots_or_port_solid [] false last l h = ground arith
dots_or_port_solid (c ∷ d) true last l h = ends_solid-append (last ∷ c ∷ d) (str ":443") refl
dots_or_port_solid (c ∷ d) false last l h =
    rw (append-nil d) (go c d (ground (arith, h)) (ground (arith, h)))
  where
    go : (a : ℕ) (s : Text) → is_dot a ≡ true → all is_dot s ≡ true → ends_solid (a ∷ s) ≡ true
    go a [] i j = ground arith
    go a (b ∷ s) i j = go b s (ground (arith, j)) (ground (arith, j))

-- No name begins as a URL does, or ends with a port.
not_url :
    (s : Text) (port : Bool)
    → all name_code s ≡ true
    → starts_with (s ++ port_of port) (str "http://") ≡ false
not_url s port h = elim (Bool-cases (starts_with (s ++ port_of port) (str "http://"))) [
  | inr other ↦ other
  | inl url ↦
      let (r, e) = starts_with_sound (s ++ port_of port) (str "http://") url in
      absurd (cc (sym (no_slash s port h) ∙ ap (all (λ c. not (c == b'/'))) e))
]
  where
    no_slash :
        (t : Text) (p : Bool)
        → all name_code t ≡ true
        → all (λ c. not (c == b'/')) (t ++ port_of p) ≡ true
    no_slash [] true k = refl
    no_slash [] false k = refl
    no_slash (c ∷ t) p k = ground (arith, no_slash t p)

not_ported : (s : Text) → all name_code s ≡ true → ends_with s (str ":443") ≡ false
not_ported s h = elim (Bool-cases (ends_with s (str ":443"))) [
  | inr other ↦ other
  | inl ported ↦
      let (r, e) = ends_with_sound s (str ":443") ported in
      absurd (ground (arith, sym h ∙ ap (all name_code) e ∙ all-append name_code r (str ":443")))
]

without_suffix-port :
    (s : Text) (port : Bool)
    → all name_code s ≡ true
    → without_suffix (s ++ port_of port) (str ":443") ≡ s
unfolding without_suffix
without_suffix-port s false h = rw (append-nil s, not_ported s h) refl
without_suffix-port s true h =
    let n : length (s ++ str ":443") - 4 ≡ length s = omega (arith, length-append s (str ":443")) in
    rw (ends_with-append s (str ":443"), n) (take-append s (str ":443"))

lower_end :
    (d : Text) (port : Bool) → all is_dot d ≡ true → lower (d ++ port_of port) ≡ d ++ port_of port
unfolding lower
lower_end d true h = lower-append d (str ":443") ∙ ap (λ t. t ++ str ":443") (lower_dots d h)
lower_end d false h = lower-append d [] ∙ ap (λ t. t ++ []) (lower_dots d h)

name_ok :
    (a : ℕ) (s : Text) (z : ℕ)
    → label_code a ≡ true
    → all name_code s ≡ true
    → label_code z ≡ true
    → all name_code (a ∷ s ++ z ∷ []) ≡ true
name_ok a s z h i j = ground (arith, all-append name_code s (z ∷ []), h, i, j)

without_dots-name :
    (a : ℕ) (s : Text) (z : ℕ) (d : Text)
    → label_code z ≡ true
    → all is_dot d ≡ true
    → without_dots (lower (a ∷ s ++ z ∷ []) ++ d) ≡ lower (a ∷ s ++ z ∷ [])
unfolding lower
without_dots-name a s z d h i =
    let split = lower-append (a ∷ s) (z ∷ []) in
    ap (λ t. without_dots (t ++ d)) split
    ∙ rstrip_of-append is_dot (lower (a ∷ s)) (lower_code z) d (ground (arith, h)) i
    ∙ sym split

-- Every spelling of a host is the host in lower case.
pub normalize_host-IsSpelling : (host h : Text) → IsSpelling host h → normalize_host h ≡ host
unfolding normalize_host
normalize_host-IsSpelling host h s =
    let name = s.first ∷ s.middle ++ s.last ∷ [] in
    let end = s.dots ++ port_of s.with_port in
    let small = lower name in
    let dotted = small ++ s.dots in
    let stripped : strip h ≡ name ++ end =
      ap strip s.written
      ∙ strip_solid s.first ((s.middle ++ s.last ∷ []) ++ end) (ground (arith, s.first_ok)) (
          rw (append_assoc s.middle (s.last ∷ []) end) (
            ends_solid-append (s.first ∷ s.middle) (s.last ∷ end)
              (dots_or_port_solid s.dots s.with_port s.last s.last_ok s.dots_ok))) in
    let lowered : lower (strip h) ≡ dotted ++ port_of s.with_port =
      ap lower stripped
      ∙ lower-append name end
      ∙ ap (λ t. small ++ t) (lower_end s.dots s.with_port s.dots_ok)
      ∙ sym (append_assoc small s.dots (port_of s.with_port)) in
    let named : all name_code dotted ≡ true =
      all-append name_code small s.dots
      ∙ rw (all-lower name (name_ok s.first s.middle s.last s.first_ok s.middle_ok s.last_ok))
          (dots_name s.dots s.dots_ok) in
    rw (lowered, not_url dotted s.with_port named, without_suffix-port dotted s.with_port named)
      (without_dots-name s.first s.middle s.last s.dots s.last_ok s.dots_ok ∙ s.same_name)
