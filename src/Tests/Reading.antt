-- ===== src/Tests/Reading.antt =====
-- The four files of a site, read.
use wbauth.Prelude.{◌≡◌, refl, some, [], ◌∷◌, drop, or_else, arith}
use wbauth.Text.{Text, str, lower, text_eq, rstrip}
use wbauth.Text.Lines.{split_lines}
use wbauth.Dict.{text_keys, get}
use wbauth.Policy.Inspector.Endpoints.{read}
use wbauth.Policy.Parsers.Robots.{
  field, groups_of, parse_content_signals, product_token, is_specific, is_generic,
}
use wbauth.Policy.Parsers.Robots.Signals.{last_signal, get-parse_content_signals}
use wbauth.Policy.Parsers.AiTxt.{parse_ai_txt}
use wbauth.Policy.Parsers.AiTxt.Written.{text_of, ai_text, result_of, parse_ai_txt-ai_text}
use wbauth.Policy.Parsers.LlmsTxt.{parse_llms_txt}

lines_end :
    split_lines (b'a' ∷ 13 ∷ 10 ∷ b'b' ∷ 10 ∷ 10 ∷ 0x2028 ∷ []) ≡ str "a" ∷ str "b" ∷ [] ∷ [] ∷ []
unfolding split_lines
lines_end = refl

agent_is_read : field (str "user-agent") (str " User-Agent : GPTBot  # x") ≡ some (str "GPTBot")
unfolding field rstrip
agent_is_read = refl

abbrev robots_txt : Text
robots_txt = text_of (
    str "User-agent: *"
    ∷ str "Content-Signal: search=yes, ai-train=no"
    ∷ str "User-agent: Example"
    ∷ str "Disallow: /x"
    ∷ str "content-signal: AI-Train=yes"
    ∷ [])

signals_are_read :
    parse_content_signals robots_txt (str "ExampleBot/1.0")
    ≡ (str "search", str "yes") ∷ (str "ai-train", str "yes") ∷ []
unfolding parse_content_signals text_eq
signals_are_read = refl

get-parse_content_signals_example :
    get (str "ai-train") (parse_content_signals robots_txt (str "ExampleBot/1.0"))
    ≡ or_else
        (last_signal
          (is_specific (lower (product_token (str "ExampleBot/1.0"))))
          (str "ai-train")
          (groups_of robots_txt))
        (last_signal is_generic (str "ai-train") (groups_of robots_txt))
get-parse_content_signals_example =
    get-parse_content_signals robots_txt (str "ExampleBot/1.0") (str "ai-train")

abbrev ai_txt : Text
ai_txt =
    0xfeff
    ∷ text_of (
        str "[identity]"
        ∷ str "Name: A: B"
        ∷ str "[Restrictions]"
        ∷ str "# c"
        ∷ str "- no /x # c"
        ∷ str "plain"
        ∷ str "* y"
        ∷ [])

ai_txt_is_read :
    parse_ai_txt ai_txt
    ≡ read (record {
      identity = (str "name", str "A: B") ∷ [];
      permissions = [];
      restrictions = str "no /x" ∷ str "y" ∷ [];
      attribution = [];
      contact = [];
      content_types = [];
      raw = drop 1 ai_txt;
    })
unfolding parse_ai_txt text_eq
ai_txt_is_read = refl

abbrev llms_txt : Text
llms_txt = text_of (
    str "# T"
    ∷ str "> a"
    ∷ str ">  b"
    ∷ str "## S"
    ∷ str "- [w](https://e/w_(x)): n"
    ∷ str "* [v](u"
    ∷ str "+ [z](y)"
    ∷ [])

llms_txt_is_read :
    parse_llms_txt llms_txt
    ≡ read (record {
      title = str "T";
      description = str "a b";
      sections =
          record {
            name = str "S";
            links =
                record { title = str "w"; url = str "https://e/w_(x)"; notes = str "n" }
                ∷ record { title = str "z"; url = str "y"; notes = [] }
                ∷ [];
          }
          ∷ [];
      raw = llms_txt;
    })
unfolding parse_llms_txt
llms_txt_is_read = refl

parse_ai_txt-ai_text_example :
    parse_ai_txt (ai_text (str "read /a" ∷ []) (str "index" ∷ str "/x: y" ∷ []))
    ≡ read (
        result_of
          (str "read /a" ∷ [])
          (str "index" ∷ str "/x: y" ∷ [])
          (ai_text (str "read /a" ∷ []) (str "index" ∷ str "/x: y" ∷ [])))
parse_ai_txt-ai_text_example =
    parse_ai_txt-ai_text (str "read /a" ∷ []) (str "index" ∷ str "/x: y" ∷ [])
      ((refl, refl, refl), tt) ((refl, refl, refl), ((refl, refl, refl), tt)) (omega arith)
