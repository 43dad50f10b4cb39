-- ===== src/Tests/Adapting.antt =====
-- An allow-list with a wildcard.
use wbauth.Prelude.{true, false, ◌≡◌, ◌↔◌, refl, none, some, List, In, [], ◌∷◌, is_empty}
use wbauth.Text.{Text, str, text_eq, lower}
use wbauth.Dict.{put, remove}
use wbauth.Urls.{UrlSplit, Split, no_port, host_name}
use wbauth.Adapters.{plain_host, host_matches, Decider, listed, decide, ensure_content_digest}
use wbauth.Adapters.Hosts.{Matches, IsSecure, host_matches_iff, decide_iff}

abbrev allow : List Text
allow = str "*.Example.com" ∷ str "other.org." ∷ []

abbrev parts : Split
parts = record {
  scheme = str "HTTPS";
  hostname = some (str "api.example.com");
  port_of = no_port;
  path = [];
}

abbrev split_one : UrlSplit
split_one url = some parts

abbrev decider : Decider
decider = record { hosts = some allow; should_sign = none; allow_insecure = false }

below_is_signed : decide split_one decider (str "HTTPS://api.example.com") ≡ some true
unfolding decide text_eq
below_is_signed = refl

neighbour_is_not : host_matches (str "badexample.com") allow ≡ false
unfolding host_matches
neighbour_is_not = refl

stale_digest_is_replaced :
    ensure_content_digest
      (λ b. str "new")
      ((str "content-digest", str "sha-256=:old:") ∷ [])
      (some (str "b"))
    ≡ (str "Content-Digest", str "sha-256=:new:") ∷ []
unfolding ensure_content_digest put remove text_eq lower
stale_digest_is_replaced = refl

host_matches_iff_example :
    (host_matches (str "EXAMPLE.com.") allow ≡ true)
    ↔ ((a : Text) × In a allow × Matches (plain_host (str "EXAMPLE.com.")) (plain_host a))
host_matches_iff_example = host_matches_iff (str "EXAMPLE.com.") allow

decide_iff_example : (decide split_one decider (str "HTTPS://api.example.com") ≡ some true) ↔ (
    (p : Split) × (split_one (str "HTTPS://api.example.com") ≡ some p)
    × (is_empty (host_name p) ≡ false)
    × IsSecure decider p
    × (listed decider (str "HTTPS://api.example.com") (host_name p) ≡ true))
decide_iff_example = decide_iff split_one decider (str "HTTPS://api.example.com")
