-- ===== src/DirectoryServer/Serving.antt =====
-- Which paths the directory server answers.
use wbauth.Prelude.{
  ℕ, Bool, true, false, not, ◌&&◌, ◌≡◌, ◌↔◌, ◌⊎◌, inl, inr, refl, sym, ap, ◌∙◌, Option, none, some,
  List, [], ◌∷◌, ◌++◌, ◌==◌, arith, if◌then◌else◌, all, is_empty, take_while, drop_while,
  Bool-cases, append-nil,
}
use wbauth.Text.{Text, str, starts_with}
use wbauth.Text.Laws.{starts_with_sound}
use wbauth.Urls.{UrlSplit, Split}
use wbauth.Json.{Json}
use wbauth.DirectoryServer.{
  directory_root, slash_end, kid_part, match_path, matches, Handler, Reply, found, not_found,
  respond, is_served, reply_headers,
}

abbrev pub not_slash : ℕ → Bool
not_slash c = not (c == b'/')

abbrev pub no_newline : ℕ → Bool
no_newline c = not (c == 10)

-- What may stand behind the root of the directory, with the key id that it names.
abbrev pub IsKidPath : Text → Option Text → Type 0
IsKidPath r none = (r ≡ []) ⊎ (r ≡ str "/")
IsKidPath r (some kid) =
    (is_empty kid ≡ false)
    × (all not_slash kid ≡ true)
    × ((r ≡ b'/' ∷ kid) ⊎ (r ≡ b'/' ∷ (kid ++ str "/")))

split_slash : (s : Text) → s ≡ take_while not_slash s ++ drop_while not_slash s
split_slash [] = refl
split_slash (c ∷ s) = elim (Bool-cases (not_slash c)) [
  | inl other ↦ rw other (ap (λ t. c ∷ t) (split_slash s))
  | inr slash ↦ rw slash refl
]

take_while-all : (s : Text) → all not_slash (take_while not_slash s) ≡ true
take_while-all [] = refl
take_while-all (c ∷ s) = ground (arith, take_while-all s)

drop_while-no_newline :
    (s : Text) → all no_newline s ≡ true → all no_newline (drop_while not_slash s) ≡ true
drop_while-no_newline [] h = refl
drop_while-no_newline (c ∷ s) h = ground (arith, drop_while-no_newline s)

slash_end_sound :
    (r : Text) → all no_newline r ≡ true → slash_end r ≡ true → (r ≡ []) ⊎ (r ≡ str "/")
slash_end_sound [] n h = inl refl
slash_end_sound (c ∷ []) n h = inr (ground arith)
slash_end_sound (c ∷ (d ∷ s)) n h = absurd (ground arith)

named_sound :
    (s : Text) (g : Option Text)
    → all no_newline s ≡ true
    → is_empty (take_while not_slash s) ≡ false
    → (if slash_end (drop_while not_slash s) then some (some (take_while not_slash s)) else none)
      ≡ some g
    → IsKidPath (b'/' ∷ s) g
named_sound s g n full h =
    let kid = take_while not_slash s in
    let rest = drop_while not_slash s in
    elim (Bool-cases (slash_end rest)) [
      | inr open_end ↦ absurd (cc (rw open_end at h))
      | inl closed_end ↦
          let same : g ≡ some kid = ground (arith, closed_end) in
          rw same (
            full,
            take_while-all s,
            elim (slash_end_sound rest (drop_while-no_newline s n) closed_end) [
              | inl e ↦
                  inl (ap (λ t. b'/' ∷ t) (split_slash s ∙ ap (λ t. kid ++ t) e ∙ append-nil kid))
              | inr e ↦ inr (ap (λ t. b'/' ∷ t) (split_slash s ∙ ap (λ t. kid ++ t) e))
            ],
          )
    ]

kid_part_sound :
    (r : Text) (g : Option Text) → all no_newline r ≡ true → kid_part r ≡ some g → IsKidPath r g
kid_part_sound [] none n h = inl refl
kid_part_sound [] (some kid) n h = absurd (cc)
kid_part_sound (c ∷ s) g n h =
    elim (Bool-cases (c == b'/' && not (is_empty (take_while not_slash s)))) [
      | inl named ↦
          let slash : c ≡ b'/' = ground (arith, named) in
          rw slash (named_sound s g (ground arith) (ground (arith, named)) (rw named at h))
      | inr bare ↦ elim (Bool-cases (slash_end (c ∷ s))) [
        | inl ends ↦
            let same : g ≡ none = ground (arith, bare, ends) in
            rw same (slash_end_sound (c ∷ s) n ends)
        | inr open_end ↦ absurd (ground (arith, bare, open_end))
      ]
    ]

take_while-slash :
    (kid : Text)
    → all not_slash kid ≡ true
    → (take_while not_slash (kid ++ str "/") ≡ kid)
      × (drop_while not_slash (kid ++ str "/") ≡ str "/")
take_while-slash [] h = (refl, refl)
take_while-slash (c ∷ s) h = ground (arith, take_while-slash s)

take_while-whole :
    (kid : Text)
    → all not_slash kid ≡ true
    → (take_while not_slash kid ≡ kid) × (drop_while not_slash kid ≡ [])
take_while-whole [] h = (refl, refl)
take_while-whole (c ∷ s) h = ground (arith, take_while-whole s)

kid_part_complete : (r : Text) (g : Option Text) → IsKidPath r g → kid_part r ≡ some g
kid_part_complete r none (inl e) = ap kid_part e
kid_part_complete r none (inr e) = ap kid_part e
kid_part_complete r (some kid) (h, i, inl e) =
    let (taken, left) = take_while-whole kid i in ap kid_part e ∙ rw (taken, left) (rw h refl)
kid_part_complete r (some kid) (h, i, inr e) =
    let (taken, left) = take_while-slash kid i in ap kid_part e ∙ rw (taken, left) (rw h refl)

match_path_root : (r : Text) → match_path (directory_root ++ r) ≡ kid_part r
unfolding match_path starts_with
match_path_root r = refl

match_path_rooted :
    (path : Text) (g : Option Text)
    → match_path path ≡ some g
    → (r : Text) × (path ≡ directory_root ++ r)
unfolding match_path
match_path_rooted path g h = elim (Bool-cases (starts_with path directory_root)) [
  | inr other ↦ absurd (cc (rw other at h))
  | inl rooted ↦ starts_with_sound path directory_root rooted
]

-- A path that the pattern matches is the root and what may stand behind it.
match_path_iff :
    (path : Text) (g : Option Text)
    → all no_newline path ≡ true
    → (match_path path ≡ some g) ↔ ((r : Text) × (path ≡ directory_root ++ r) × IsKidPath r g)
match_path_iff path g n = (
  λ h.
      let (r, e) = match_path_rooted path g h in
      let part : kid_part r ≡ some g = sym (match_path_root r) ∙ ap match_path (sym e) ∙ h in
      (r, e, kid_part_sound r g (ap (all no_newline) (sym e) ∙ n) part),
  λ k. ap match_path k.1 ∙ match_path_root k.0 ∙ kid_part_complete k.0 g k.2,
)

-- the key id is one of the file, if the path names one
abbrev pub IsServed : List Json → Option Text → Type 0
IsServed kids none = Unit
IsServed kids (some kid) = is_served kids kid ≡ true

matches_sound :
    (kids : List Json) (m : Option (Option Text))
    → matches kids m ≡ true
    → (g : Option Text) × (m ≡ some g) × IsServed kids g
matches_sound kids none h = absurd (cc)
matches_sound kids (some none) h = (none, refl, tt)
matches_sound kids (some (some kid)) h = (some kid, refl, h)

matches_complete :
    (kids : List Json) (g : Option Text) → IsServed kids g → matches kids (some g) ≡ true
matches_complete kids none h = refl
matches_complete kids (some kid) h = h

module _ (urlsplit : UrlSplit) (b64 : Text → Text) (handler : Handler) (now : ℕ) (with_body : Bool)
    (target : Text) (host : Option Text) (parts : Split) where
  -- what a request that is served gets
  abbrev pub served : Reply
  served =
      found (reply_headers urlsplit b64 handler now host)
        (if with_body then handler.jwks_bytes else [])

  respond_of_matches :
      (ok : Bool)
      → urlsplit target ≡ some parts
      → matches handler.kids (match_path parts.path) ≡ ok
      → respond urlsplit b64 handler now with_body target host ≡ (if ok then served else not_found)
  unfolding respond
  respond_of_matches ok split h = rw (respond, split) (rw h refl)

  -- The server answers a request with the file exactly when its path is the root of the directory,
  -- or that and a key id of the file, each with or without a slash at the end.
  pub respond-served_iff :
      urlsplit target ≡ some parts
      → all no_newline parts.path ≡ true
      → (respond urlsplit b64 handler now with_body target host ≡ served) ↔ (
          (g : Option Text) × (r : Text) × (parts.path ≡ directory_root ++ r)
          × IsKidPath r g
          × IsServed handler.kids g)
  respond-served_iff split plain = (
    λ h. elim (Bool-cases (matches handler.kids (match_path parts.path))) [
      | inr other ↦ absurd (cc (sym (respond_of_matches false split other) ∙ h))
      | inl ok ↦
          let (g, m, k) = matches_sound handler.kids (match_path parts.path) ok in
          let (r, e, p) = (match_path_iff parts.path g plain).0 m in (g, r, e, p, k)
    ],
    λ (g, r, e, p, k). respond_of_matches true split (
        ap (matches handler.kids) ((match_path_iff parts.path g plain).1 (r, e, p))
        ∙ matches_complete handler.kids g k),
  )
