-- ===== src/Update/Source.antt =====
-- The SAX parser of the source of an update in pt-update.c. `sax` stands for
-- `xmlSAXUserParseMemory`: the calls of the handlers, and its result.
use piiptyyt.Prelude.{
  Option, none, some, List, [], ◌∷◌, ◌++◌, Bytes, codes, bytes_eq, if◌then◌else◌,
}
use piiptyyt.Prelude.Int.{ℤ, is_negative}

-- A call of a handler; an attribute is a name with its value.
pub data Event : Type 0 where
  start_element : Bytes → List (Bytes × Bytes) → Event
  characters : Bytes → Event

-- `struct source_uri_ctx`.
pub record SourceContext : Type 0 where
  pub uri : Option Bytes
  pub text : Bytes

-- The last `href`.
unfoldable pub find_href : Option Bytes → List (Bytes × Bytes) → Option Bytes
find_href href [] = href
find_href href ((n, v) ∷ attrs) =
    let kept = find_href href attrs in
    let found = find_href (some v) attrs in
    if bytes_eq n (codes "rel") then kept else if bytes_eq n (codes "href") then found else kept

unfoldable pub source_uri_element : Bytes → List (Bytes × Bytes) → SourceContext → SourceContext
source_uri_element element attrs dat =
    if bytes_eq element (codes "a") then record dat { uri = find_href none attrs } else dat

unfoldable pub source_uri_characters : Bytes → SourceContext → SourceContext
source_uri_characters ch dat = record dat { text = dat.text ++ ch }

unfoldable pub handle : Event → SourceContext → SourceContext
handle (start_element name attrs) dat = source_uri_element name attrs dat
handle (characters ch) dat = source_uri_characters ch dat

unfoldable pub handle_all : List Event → SourceContext → SourceContext
handle_all [] dat = dat
handle_all (e ∷ events) dat = handle_all events (handle e dat)

-- The address and the text; `none` is the result false, which comes with no error set.
unfoldable pub separate_source_uri :
    (Bytes → List Event × ℤ) → Bytes → Option (Option Bytes × Bytes)
separate_source_uri sax source =
    let (events, n) = sax source in
    let dat = handle_all events (record { uri = none; text = [] }) in
    if is_negative n then none else some (dat.uri, dat.text)
