-- ===== src/Protocol/Members.antt =====
-- The members of `Signature-Input` and `Signature` that signer.py writes, as the expressions of
-- verifier.py read them.
use wbauth.Prelude.{
  ℕ, zero, ◌-◌, Bool, true, false, ◌≡◌, refl, sym, ap, ◌∙◌, Option, some, List, [], ◌∷◌, ◌++◌,
  arith, length, map, append-nil,
}
use wbauth.Text.{Text, str, starts_with}
use wbauth.Dict.{text_keys}
use wbauth.Matching.{spaces?}
use wbauth.StructuredFields.{quote, unquote, unescape, inner}
use wbauth.Signer.{quoted, components_for}
use wbauth.Verifier.Parse.{
  consumed, string_end, sf_string_end, key_end, suffixes_end, components, params, params_dict,
  has_component_params, Candidate, input_member, parse_members, parse_signature_input,
}
use wbauth.Protocol.Pieces.{length-diff, consumed-append}
use wbauth.Protocol.Params.{IsKey, key_end-append, spaces?-key}

components_skip : (u left : Text) → components (length u) (u ++ left) ≡ components zero left
unfolding components
components_skip [] left = refl
components_skip (a ∷ u) left = components_skip u left

components_of_parts :
    (a : ℕ) (s rest left : Text) (cs : List Text) (end : Text)
    → sf_string_end (spaces? (a ∷ s)) ≡ some rest
    → suffixes_end rest ≡ left
    → components (length s - length left) s ≡ (cs, end)
    → components zero (a ∷ s) ≡ (consumed (spaces? (a ∷ s)) rest ∷ cs, end)
unfolding components
components_of_parts a s rest left cs end h i e = rw (components, h) (rw i (rw e refl))

components_of_string :
    (a : ℕ) (u w left : Text) (cs : List Text) (end : Text)
    → spaces? (a ∷ (u ++ left)) ≡ w ++ left
    → sf_string_end (w ++ left) ≡ some left
    → suffixes_end left ≡ left
    → components zero left ≡ (cs, end)
    → components zero (a ∷ (u ++ left)) ≡ (w ∷ cs, end)
components_of_string a u w left cs end h k i e =
    let m : components (length (u ++ left) - length left) (u ++ left) ≡ (cs, end) =
      rw (length-diff u left) (components_skip u left ∙ e) in
    let o : consumed (spaces? (a ∷ (u ++ left))) left ≡ w = rw h (consumed-append w left) in
    components_of_parts a (u ++ left) left left cs end (ap sf_string_end h ∙ k) i m
    ∙ ap (λ c. (c ∷ cs, end)) o

-- the names of the components with their quotes, behind the opening parenthesis
abbrev names_text : Bool → Text
names_text false = str "\"@authority\" \"signature-agent\""
names_text true = str "\"@authority\" \"signature-agent\" \"content-digest\""

abbrev names : Bool → List Text
names digest = map quoted (components_for digest)

components-close : (ps : Text) → components zero (b')' ∷ ps) ≡ ([], b')' ∷ ps)
unfolding components sf_string_end
components-close ps = refl

components-agent :
    (ps : Text)
    → components zero (str " \"signature-agent\")" ++ ps)
      ≡ (str "\"signature-agent\"" ∷ [], b')' ∷ ps)
unfolding sf_string_end string_end suffixes_end
components-agent ps =
    components_of_string b' ' (str "\"signature-agent\"") (str "\"signature-agent\"") (b')' ∷ ps) []
      _ refl refl refl (components-close ps)

components-agent_and_digest :
    (ps : Text)
    → components zero (str " \"signature-agent\" \"content-digest\")" ++ ps)
      ≡ (str "\"signature-agent\"" ∷ str "\"content-digest\"" ∷ [], b')' ∷ ps)
unfolding sf_string_end string_end suffixes_end
components-agent_and_digest ps =
    components_of_string b' ' (str "\"signature-agent\"") (str "\"signature-agent\"")
      (str " \"content-digest\")" ++ ps) _ _ refl refl refl
      (components_of_string b' ' (str "\"content-digest\"") (str "\"content-digest\"") (b')' ∷ ps)
        [] _ refl refl refl (components-close ps))

components-names :
    (digest : Bool) (ps : Text)
    → components zero (names_text digest ++ b')' ∷ ps) ≡ (names digest, b')' ∷ ps)
unfolding sf_string_end string_end suffixes_end
components-names false ps =
    components_of_string quote (str "@authority\"") (str "\"@authority\"")
      (str " \"signature-agent\")" ++ ps) _ _ refl refl refl (components-agent ps)
components-names true ps =
    components_of_string quote (str "@authority\"") (str "\"@authority\"")
      (str " \"signature-agent\" \"content-digest\")" ++ ps) _ _ refl refl refl
      (components-agent_and_digest ps)

-- the list of components with its parentheses, in front of the parameters
abbrev pub list_text : Bool → Text → Text
list_text digest ps = b'(' ∷ (names_text digest ++ b')' ∷ ps)

pub list_text-append : (digest : Bool) (ps : Text) → list_text digest ps ≡ list_text digest [] ++ ps
list_text-append false ps = refl
list_text-append true ps = refl

has_component_params-list_text :
    (digest : Bool) → has_component_params (list_text digest []) ≡ false
unfolding has_component_params
has_component_params-list_text false = refl
has_component_params-list_text true = refl

unquote-names : (digest : Bool) → map unquote (names digest) ≡ components_for digest
unfolding unquote unescape inner starts_with
unquote-names false = refl
unquote-names true = refl

input_member_parts :
    (s list ps left : Text) (cs : List Text) (kvs : List (Text × Option Text))
    → key_end (spaces? s) ≡ some (b'=' ∷ b'(' ∷ list)
    → components zero list ≡ (cs, b')' ∷ ps)
    → params zero ps ≡ (kvs, left)
    → input_member s
      ≡ some (
        (
          record {
            label = consumed (spaces? s) (b'=' ∷ b'(' ∷ list);
            raw_params = consumed (b'(' ∷ list) left;
            covered = map unquote cs;
            params_of = params_dict kvs [];
          },
          has_component_params (consumed (b'(' ∷ list) ps),
        ),
        left,
      )
unfolding input_member
input_member_parts s list ps left cs kvs h k e = rw (input_member, h) (rw k (rw e refl))

consumed-whole : (u : Text) → consumed u [] ≡ u
consumed-whole u = ap (λ t. consumed t []) (sym (append-nil u)) ∙ consumed-append u []

abbrev pub written_member :
    (label : Text) → Bool → (ps : Text) → List (Text × Option Text) → Candidate
written_member label digest ps kvs = record {
  label = label;
  raw_params = list_text digest ps;
  covered = components_for digest;
  params_of = params_dict kvs [];
}

module _ (label : Text) (digest : Bool) (ps : Text) (kvs : List (Text × Option Text))
    (is_key : IsKey label) (read : params zero ps ≡ (kvs, [])) where
  abbrev member_of :
      (label raw_params : Text)
      → (covered : List Text) → (bad : Bool) → Option ((Candidate × Bool) × Text)
  member_of label raw_params covered bad = some (
    (
      record {
        label = label;
        raw_params = raw_params;
        covered = covered;
        params_of = params_dict kvs [];
      },
      bad,
    ),
    [],
  )

  input_member-written :
      input_member (label ++ b'=' ∷ list_text digest ps)
      ≡ some ((written_member label digest ps kvs, false), [])
  input_member-written =
      let list = list_text digest ps in
      let behind = b'=' ∷ list in
      let s = label ++ behind in
      let start : spaces? s ≡ s = spaces?-key label behind is_key in
      let name : consumed (spaces? s) behind ≡ label =
        ap (λ t. consumed t behind) start ∙ consumed-append label behind in
      let plain : has_component_params (consumed list ps) ≡ false =
        ap (λ t. has_component_params (consumed t ps)) (list_text-append digest ps)
        ∙ ap has_component_params (consumed-append (list_text digest []) ps)
        ∙ has_component_params-list_text digest in
      input_member_parts s (names_text digest ++ b')' ∷ ps) ps [] (names digest) kvs
        (ap key_end start ∙ key_end-append label b'=' list is_key refl) (components-names digest ps)
        read
      ∙ ap (member_of (consumed (spaces? s) behind) (consumed list []) (map unquote (names digest)))
          plain
      ∙ ap (λ l. member_of l (consumed list []) (map unquote (names digest)) false) name
      ∙ ap (λ r. member_of label r (map unquote (names digest)) false) (consumed-whole list)
      ∙ ap (λ c. member_of label list c false) (unquote-names digest)

parse_members_skip : (s : Text) → parse_members (length s) s ≡ some []
unfolding parse_members
parse_members_skip [] = refl
parse_members_skip (a ∷ s) = parse_members_skip s

parse_members_of_last :
    (a : ℕ) (s : Text) (m : Candidate)
    → input_member (a ∷ s) ≡ some ((m, false), [])
    → parse_members zero (a ∷ s) ≡ some (m ∷ [])
unfolding parse_members
parse_members_of_last a s m h =
    let z : length s - 0 ≡ length s = omega arith in
    rw (parse_members, h) (rw (z, parse_members_skip s) refl)

-- The value of `Signature-Input` that is written has one member, and it is read whole.
pub parse_signature_input-written :
    (label : Text) (digest : Bool) (ps : Text) (kvs : List (Text × Option Text))
    → IsKey label
    → params zero ps ≡ (kvs, [])
    → parse_signature_input (label ++ b'=' ∷ list_text digest ps)
      ≡ some (written_member label digest ps kvs ∷ [])
unfolding parse_signature_input
parse_signature_input-written [] digest ps kvs h k = absurd h
parse_signature_input-written (a ∷ label) digest ps kvs h k =
    parse_members_of_last a (label ++ b'=' ∷ list_text digest ps)
      (written_member (a ∷ label) digest ps kvs)
      (input_member-written (a ∷ label) digest ps kvs h k)
