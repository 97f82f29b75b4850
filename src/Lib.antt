-- ===== src/Lib.antt =====
-- A verification library for piiptyyt, a microblog client on GTK in C.
--
-- The program signs its requests with OAuth (oauth.c, login.c), reads updates and users as JSON
-- and from SQLite (format.c), shows them in a list (model.c, main.c), and keeps the users that it
-- knows in a replacing cache of GObjects (usercache.c over pt-cache.c).
--
-- Prelude has the shared names: Boolean tests and lists over the native numbers, C strings as
-- lists of byte values, and the monad of code that can stop, where `none` is a failed assertion,
-- an abort or an access through a bad pointer.
--
-- Glib is the contract of GHashTable, a parameter of the models, with an association list that
-- meets it for the tests.
--
-- Oauth is about oauth.c. Escape has `oauth_url_escape`: the text it makes, and in Escape.Buffer
-- the loop with its buffer, where the sizes wrap around at 2 ^ 64. Base64 has
-- `oauth_encode_base64`. Request has `struct oauth_request`, its setters and the gathering of its
-- parameters; Sent says what a signed request sends; Sign has the base string, the signature, the
-- header and the post body, and Response has `oa_parse_response`. A `char *` is an optional list
-- of bytes. What comes from libgcrypt (`digest`), the clock and /dev/urandom (`Environment`), and
-- GLib's sort and split is a parameter.
--
-- Model is about the part of model.c that keeps the ids of the updates shown and places new ones,
-- `add_updates_to_model`, and about the rows that it inserts; qsort, bsearch and the insertion
-- into the GtkListStore are parameters, and Sorts has functions that meet what is asked of them.
-- Picture has the cell with the picture of a user, over PtCache and UserInfo.
--
-- PtCache is about pt-cache.c. State has `struct cache_item` and `struct _pt_cache`: an item is an
-- address, the intrusive lists are lists of addresses, and the hash table is a parameter. The list
-- heads never stand for an item, so a pointer to a head is `none`. Put takes the address of a new
-- item from a parameter, since `g_slice_new` is GLib's. Replace has `flush_items`,
-- `pt_cache_replace` and `pt_cache_replace_full`; the loop of the last runs on fuel, one round
-- more than `count`, which is enough since every further round has a smaller count. Props has the
-- properties, and Dispose the end of a cache, whose loop runs on the number of the items as fuel:
-- each round takes an item at least. Whether the key of an item still is the pointer in the hash
-- table is an argument there, since keys are values in the model. A toggle reference is modelled
-- by what may call the callback: Reach has the histories, in which GLib calls it for the last
-- reference to an active item and for a new reference to an inactive one. Its rules leave out what
-- the model does not see, since keys and objects are values there: a put over an entry, which
-- frees a copied key that the hash table keeps, and the drop of an item of age 0 whose key is not
-- copied and may end with its object. Counts are of type `size_t`, and stay below 2 ^ 31 by
-- hypothesis, since loops count with `int`.
--
-- Format is about format.c. A structure is a map from the offsets of its members to values, and a
-- table of fields is the code's own; json-glib's object and SQLite's row are records of what their
-- accessors give, and a prepared statement is the list of the calls that bind its parameters.
-- Dates has `parse_datetime` over Chars, what it uses of the C library; Json, Sqlite and Store
-- have the routines named for them.
--
-- UserInfo is about pt-user-info.c: Table has its table and `struct user_info`, and Userpic the
-- pictures, which go through a cache of PtCache whose keys are file names.
--
-- UserCache is about usercache.c, which ties PtCache, Format and UserInfo together. Database is
-- what it asks of SQLite, with the transactions as laws on the contents of the tables; Fetch,
-- Flush, Open and Close have the routines that the names say, and Users has `get_user_info` and
-- `get_user_info_from_json`, on a heap of objects by number. The flush function runs inside calls
-- of the cache, which do not depend on it; the model runs it after them, on the objects that the
-- cache has reported. Hash has the hash of an id.
--
-- Update is about pt-update.c and `parse_update_array` of main.c: Source has the handlers of the
-- SAX parser, which is a parameter, Parse reads updates, with the cache of users as a parameter,
-- and Markup has the text that is shown of an update, and Tags a reader of markup.
--
-- StateFile is about state.c: KeyFile is the contract of GKeyFile, for names of small letters and
-- strings that are UTF-8, and the results of the system calls are an argument.
--
-- Login is about login.c and `make_resource_request_msg` of main.c: Messages has the requests,
-- over Oauth, and Flow the course of `oauth_login`; the answers of the server and of the dialog
-- are parameters, and what the browser shows is not part of the result.
--
-- Main is about main.c, which ties the parts together. Fetch has `fetch_more_updates`, and Start
-- has `main` from the reading of the state to its last write. Libraries is what the program is
-- linked with, and Surroundings what one run meets; the cache of users is a state there, with
-- `get_user_info_from_json` as a function on it.
--
-- Not modelled: the windows, the columns of model.c, the memory of keys, the registration of
-- GObjects, the dialog of login.c, and of main.c the widgets, the timer and the main loop. The
-- code of the directory ccan is that of another project.
mod Prelude
pub mod Glib
pub mod Oauth
pub mod Model
pub mod PtCache
pub mod Format
pub mod UserInfo
pub mod UserCache
pub mod Update
pub mod StateFile
pub mod Login
pub mod Main
