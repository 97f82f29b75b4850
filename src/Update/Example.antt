-- ===== src/Update/Example.antt =====
-- An update whose source is a link, and a parser that knows it, on which the tests run.
use piiptyyt.Prelude.{ℕ, true, false, Option, none, some, List, [], ◌∷◌, Bytes, codes}
use piiptyyt.Prelude.Int.{ℤ, pos}
use piiptyyt.Format.Json.{JsonObject}
use piiptyyt.Update.Parse.{UpdateJson}
use piiptyyt.Update.Source.{Event, start_element, characters}

abbrev pub a_link : Bytes
a_link = codes "<a href=\"u\">web</a>"

abbrev pub link_sax : Bytes → List Event × ℤ
link_sax source = (
  start_element (codes "a") ((codes "href", codes "u") ∷ []) ∷ characters (codes "web") ∷ [],
  pos 0,
)

abbrev pub an_update : UpdateJson
an_update = record {
  members = record {
    member = λ name. some false;
    int_member = λ name. 5;
    boolean_member = λ name. true;
    string_member = λ name. some a_link;
  };
  user = none;
}

abbrev pub no_cache : Option (JsonObject → ℕ → Option (Option ℕ × ℕ))
no_cache = none
