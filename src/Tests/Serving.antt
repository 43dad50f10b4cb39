-- ===== src/Tests/Serving.antt =====
-- A directory that answers with one key, and a middleware in front of an application.
use wbauth.Prelude.{◌≡◌, ◌≢◌, true, false, refl, none, some, List, [], ◌∷◌}
use wbauth.Text.{Text, str, text_eq}
use wbauth.Dict.{text_keys}
use wbauth.Json.{obj, arr, nil, cons, end, member}
use wbauth.Policy.Inspector.Private.{resolves_private}
use wbauth.Verifier.Nonces.{make_room}
use wbauth.Verifier.Parse.{parse_signature, parse_signature_input, param_of}
use wbauth.Verifier.Checks.{accepted, ◌>>=◌, window_fault, agent_of}
use wbauth.Verifier.Directory.{Surroundings, streams, JwksCache, fetch_keys, keys}
use wbauth.Verifier.Directory.Remembered.{Published, fetch_keys-Published}
use wbauth.Verifier.Middleware.{Message, Scope, Middleware, called, waiting, call}
use wbauth.Verifier.Middleware.Guarded.{Guarded, call-Guarded, call_ends}
use wbauth.Tests.Fetching.{addresses}
use wbauth.Tests.Verifying.{services, settings, store, one_nonce, agent_with, published_key}

abbrev around : Surroundings
around = record {
  host = λ u. some (str "h.example");
  reply = λ u. streams 200 (str "{" ∷ str "}" ∷ []) false;
  loads = λ t. some (obj (member (str "keys") (arr (cons published_key nil)) end));
  start = 10;
  finish = 11;
  attempt = 0;
}

abbrev later : Surroundings
later = record around { start = 300; reply = λ u. streams 500 [] false }

abbrev directory : Text
directory = str "https://h.example/keys"

abbrev no_keys : JwksCache
no_keys = record { ttl = 600; allow_private = false; entries = [] }

abbrev one_directory : JwksCache
one_directory = record no_keys { entries = (directory, (611, published_key ∷ [])) ∷ [] }

keys_are_fetched :
    keys addresses around directory no_keys ≡ (accepted (published_key ∷ []), one_directory)
unfolding keys ◌>>=◌ resolves_private
keys_are_fetched = refl

keys_fetched : fetch_keys addresses around false directory ≡ accepted (published_key ∷ [])
unfolding fetch_keys ◌>>=◌ resolves_private
keys_fetched = refl

fetch_keys-Published_example : Published addresses around false directory (published_key ∷ [])
fetch_keys-Published_example =
    fetch_keys-Published addresses around false directory (published_key ∷ []) keys_fetched

abbrev scope : Scope
scope = record {
  kind = str "http";
  method = str "POST";
  scheme = none;
  raw_path = str "/";
  query_string = [];
  headers =
      (str "Host", str "h")
      ∷ (str "Signature", str "s=:YES=:")
      ∷ (
        str "Signature-Input",
        str "s=(\"@authority\");created=3;keyid=\"k\";expires=60;tag=\"web-bot-auth\";nonce=\"a\"",
      )
      ∷ [];
}

abbrev guard : Middleware
guard = record { required = true; max_body = 100 }

abbrev empty_part : Message
empty_part = record { body = []; more_body = true }

abbrev last_part : Message
last_part = record { body = []; more_body = false }

abbrev parts : List Message
parts = empty_part ∷ last_part ∷ []

abbrev server : List Message
server = empty_part ∷ last_part ∷ last_part ∷ []

signed_call :
    call services settings 9000000 9000000 guard scope server store
    ≡ (called (some (agent_with (str "a"))) parts (last_part ∷ []), one_nonce)
unfolding call text_eq ◌>>=◌ parse_signature parse_signature_input param_of window_fault agent_of
    make_room
signed_call = refl

call-Guarded_example :
    Guarded services settings 9000000 9000000 guard scope server store one_nonce
      (some (agent_with (str "a")))
      parts
      (last_part ∷ [])
call-Guarded_example =
    call-Guarded services settings 9000000 9000000 guard scope server store one_nonce
      (some (agent_with (str "a"))) parts (last_part ∷ []) signed_call

call_ends_example : (call services settings 9000000 9000000 guard scope server store).0 ≢ waiting
unfolding call
call_ends_example = call_ends services settings 9000000 9000000 guard scope server store refl
