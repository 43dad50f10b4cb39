-- ===== src/Tests/Parsing.antt =====
-- Runs of the parsers of verifier.py.
use wbauth.Prelude.{◌≡◌, refl, some, [], ◌∷◌, none}
use wbauth.Text.{str, text_eq}
use wbauth.Dict.{put}
use wbauth.Verifier.Parse.{
  param_of, parse_signature_input, parse_signature, flag, pos, negsuc, text,
}

members_are_read :
    parse_signature_input
      (str "sig1=(\"@authority\" \"a\\\"b\");created=17;x=-3;alg=\"ed25519\";z, b=();k=1.5")
    ≡ some (
        record {
          label = str "sig1";
          raw_params = str "(\"@authority\" \"a\\\"b\");created=17;x=-3;alg=\"ed25519\";z";
          covered = str "@authority" ∷ str "a\"b" ∷ [];
          params_of =
              (str "created", pos 17)
              ∷ (str "x", negsuc 2)
              ∷ (str "alg", text (str "ed25519"))
              ∷ (str "z", flag)
              ∷ [];
        }
        ∷ record {
          label = str "b";
          raw_params = str "();k=1.5";
          covered = [];
          params_of = (str "k", text (str "1.5")) ∷ [];
        }
        ∷ [])
unfolding parse_signature_input put text_eq param_of
members_are_read = refl

component_params_are_refused : parse_signature_input (str "a=(\"x\";sf)") ≡ none
unfolding parse_signature_input
component_params_are_refused = refl

signatures_are_read :
    parse_signature (λ t. some t) (str "??sig1=:YQ==:, b=:YY:")
    ≡ some ((str "sig1", str "YQ==") ∷ (str "b", str "YY") ∷ [])
unfolding parse_signature put text_eq
signatures_are_read = refl
