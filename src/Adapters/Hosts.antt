-- ===== src/Adapters/Hosts.antt =====
-- What the allow-list of adapters/_utils.py matches, and which URLs are signed.
use wbauth.Prelude.{
  true, false, ◌||◌, ◌≡◌, ◌↔◌, ◌⊎◌, inl, inr, refl, ap, some, List, [], ◌∷◌, ◌++◌, drop, is_empty,
  Bool-cases, Option-cases, arith, In,
}
use wbauth.Text.{Text, str, text_eq, starts_with, ends_with, lower}
use wbauth.Text.Laws.{text_eq_iff, starts_with_sound, starts_with-append}
use wbauth.Text.Affixes.{ends_with_sound, ends_with-append}
use wbauth.Urls.{UrlSplit, Split, host_name}
use wbauth.Adapters.{
  plain_host, pattern_matches, host_matches, Decider, listed, decide_parts, decide,
}

-- A pattern `*.base` stands for the base and for every name below it, another one for itself.
abbrev pub Matches : (host : Text) → (a : Text) → Type 0
Matches h a =
    ((starts_with a (str "*.") ≡ false) × (h ≡ a))
    ⊎ ((base : Text) × (a ≡ str "*." ++ base)
        × ((h ≡ base) ⊎ ((r : Text) × (h ≡ r ++ (str "." ++ base)))))

wildcard_sound :
    (h base : Text)
    → (text_eq h base || ends_with h (str "." ++ base)) ≡ true
    → (h ≡ base) ⊎ ((r : Text) × (h ≡ r ++ (str "." ++ base)))
wildcard_sound h base e = elim (Bool-cases (text_eq h base)) [
  | inl same ↦ inl ((text_eq_iff h base).0 same)
  | inr other ↦ inr (ends_with_sound h (str "." ++ base) (ground (arith, other)))
]

wildcard_complete :
    (h base : Text)
    → (h ≡ base) ⊎ ((r : Text) × (h ≡ r ++ (str "." ++ base)))
    → (text_eq h base || ends_with h (str "." ++ base)) ≡ true
wildcard_complete h base (inl same) = ground (arith, (text_eq_iff h base).1 same)
wildcard_complete h base (inr (r, e)) =
    let found : ends_with h (str "." ++ base) ≡ true =
      rw e (ends_with-append r (str "." ++ base)) in
    ground (arith, found)

pattern_matches_sound : (h a : Text) → pattern_matches h a ≡ true → Matches h a
unfolding pattern_matches
pattern_matches_sound h a e = elim (Bool-cases (starts_with a (str "*."))) [
  | inr plain ↦ inl (plain, (text_eq_iff h a).0 (ground (arith, plain)))
  | inl wild ↦
      let (base, split) = starts_with_sound a (str "*.") wild in
      let hit : (text_eq h (drop 2 a) || ends_with h (str "." ++ drop 2 a)) ≡ true =
        ground (arith, wild) in
      inr (base, split, wildcard_sound h base (rw split at hit))
]

pattern_matches_complete : (h a : Text) → Matches h a → pattern_matches h a ≡ true
unfolding pattern_matches
pattern_matches_complete h a (inl (plain, same)) = ground (arith, (text_eq_iff h a).1 same)
pattern_matches_complete h a (inr (base, split, hit)) =
    rw (split, starts_with-append (str "*.") base) (wildcard_complete h base hit)

host_matches_complete :
    (h : Text) (allow : List Text) (a : Text)
    → In a allow
    → Matches (plain_host h) (plain_host a)
    → host_matches h allow ≡ true
unfolding host_matches
host_matches_complete h [] a p m = absurd p
host_matches_complete h (b ∷ allow) a (inl same) m =
    let hit = pattern_matches_complete (plain_host h) (plain_host a) m in
    ground (arith, rw same at hit)
host_matches_complete h (b ∷ allow) a (inr there) m =
    ground (arith, host_matches_complete h allow a there m)

-- `host_matches` holds exactly when a pattern of the list, both sides in lower case and without
-- trailing dots, is the host itself, or is `*.base` for the host or a name above it.
pub host_matches_iff :
    (h : Text) (allow : List Text)
    → (host_matches h allow ≡ true)
      ↔ ((a : Text) × In a allow × Matches (plain_host h) (plain_host a))
unfolding host_matches
host_matches_iff h [] = (λ e. absurd (cc), λ p. absurd (p.1))
host_matches_iff h (a ∷ allow) =
    let (down, up) = host_matches_iff h allow in
    (
      λ e. elim (Bool-cases (pattern_matches (plain_host h) (plain_host a))) [
        | inl hit ↦ (a, inl refl, pattern_matches_sound (plain_host h) (plain_host a) hit)
        | inr miss ↦ let (b, there, m) = down (rw miss at e) in (b, inr there, m)
      ],
      λ p. host_matches_complete h (a ∷ allow) p.0 p.1 p.2,
    )

-- The schemes that are signed.
abbrev pub IsSecure : Decider → Split → Type 0
IsSecure d parts =
    (text_eq (lower parts.scheme) (str "https") ≡ true)
    ⊎ ((text_eq (lower parts.scheme) (str "http") ≡ true) × (d.allow_insecure ≡ true))

https_not_http : (s : Text) → text_eq s (str "https") ≡ true → text_eq s (str "http") ≡ false
unfolding text_eq
https_not_http s e = rw ((text_eq_iff s (str "https")).0 e) refl

decide_parts_complete :
    (d : Decider) (url : Text) (parts : Split)
    → is_empty (host_name parts) ≡ false
    → IsSecure d parts
    → listed d url (host_name parts) ≡ true
    → decide_parts d url parts ≡ true
decide_parts_complete d url parts h (inl https) l =
    ground (arith, h, https, l, https_not_http (lower parts.scheme) https)
decide_parts_complete d url parts h (inr (http, open_text)) l =
    ground (arith, h, http, open_text, l)

-- A URL is signed exactly when it has a host, is an https URL, or an http URL where that is allowed,
-- and the caller's predicate says so or, without one, the allow-list has its host or is not given.
pub decide_iff :
    (urlsplit : UrlSplit) (d : Decider) (url : Text)
    → (decide urlsplit d url ≡ some true) ↔ (
        (parts : Split) × (urlsplit url ≡ some parts)
        × (is_empty (host_name parts) ≡ false)
        × IsSecure d parts
        × (listed d url (host_name parts) ≡ true))
unfolding decide
decide_iff urlsplit d url = elim (Option-cases (urlsplit url)) [
  | inl bad ↦ (λ e. absurd (ground (arith, bad)), λ p. absurd (ground (arith, bad, p.1)))
  | inr (parts, split) ↦ (
    λ e.
        let chosen : decide_parts d url parts ≡ true = ground (arith, split) in
        (parts, split, ground arith, ground arith, ground arith),
    λ p. rw (p.1, decide) (ap some (decide_parts_complete d url p.0 p.2 p.3 p.4)),
  )
]
