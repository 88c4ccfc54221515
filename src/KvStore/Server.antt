-- ===== src/KvStore/Server.antt =====
-- The servers over the store: a request of mini-key-value/server.c (key-value/server.c is the same
-- code), and a connection of Modularize Key-Value/server_main.c. A request is what one `read` returns,
-- at most 255 bytes (so that the widths of `%255s` and `%255[^\n]` in server_main.c, which the other
-- servers do not have, never cut), and empty where `read` returns 0 or fails. In server_main.c the store is not locked:
-- the model takes the calls of its threads one after the other.
pub mod Laws
use genspark_training.Base.{
  ℕ, Option, none, some, Bool, true, false, not, List, [], ◌∷◌, ◌++◌, Text, bytes, ◌==◌,
  if◌then◌else◌, take,
}
use genspark_training.KvStore.Store.{buf_len, Store, kv_get, kv_set}
use genspark_training.KvStore.Scan.{c_string, scan_set, scan_get}

abbrev pub ok_reply : Text
ok_reply = bytes "OK" ++ 10 ∷ []

abbrev pub not_found_reply : Text
not_found_reply = bytes "NOT_FOUND" ++ 10 ∷ []

abbrev pub error_reply : Text
error_reply = bytes "ERROR" ++ 10 ∷ []

-- The replies that go through `write`, whose result is tested, and the one that goes through `dprintf`.
pub data Reply : Type 0 where
  written : Text → Reply
  printed : Text → Reply

abbrev pub reply_text : Reply → Text
reply_text (written t) = t
reply_text (printed t) = t

unfoldable pub reply_get : Option Text → Reply
reply_get none = Reply.written not_found_reply
reply_get (some val) = Reply.printed (val ++ 10 ∷ [])

-- The two `else` branches: the store stays as it is.
unfoldable pub respond_get : Option Text → Store → Reply
unfolding reply_get
respond_get none store = Reply.written error_reply
respond_get (some key) store = reply_get (kv_get key store)

unfoldable pub respond_to : Option (Text × Text) → Text → Store → Reply × Store
unfolding respond_get
respond_to (some (key, value)) s store = (Reply.written ok_reply, kv_set key value store)
respond_to none s store = (respond_get (scan_get s) store, store)

-- The `if` chain on a request.
unfoldable pub respond : Text → Store → Reply × Store
unfolding respond_to c_string
respond buf store = respond_to (scan_set (c_string buf)) (c_string buf) store

-- What follows the `read` in the loop of `main` in mini-key-value/server.c: no reply to an empty request.
unfoldable pub serve_read : Text → Store → Option Text × Store
unfolding respond
serve_read [] store = (none, store)
serve_read (b ∷ buf) store =
    let (reply, store') = respond (b ∷ buf) store in (some (reply_text reply), store')

-- One round of that loop on what the client has sent: the only `read` takes 255 bytes at most, and the
-- connection is closed behind the reply.
unfoldable pub serve : Text → Store → Option Text × Store
unfolding serve_read
serve sent store = serve_read (take buf_len sent) store

-- `write` fails: the connection is closed.
abbrev pub breaks : Reply → Bool → Bool
breaks (Reply.written t) succeeded = not succeeded
breaks (Reply.printed t) succeeded = false

-- `handle_client` of server_main.c on the requests of a connection, each with whether its reply can be
-- written.
unfoldable pub handle_client : List (Text × Bool) → Store → Store
unfolding respond
handle_client [] store = store
handle_client (([], succeeded) ∷ requests) store = store
handle_client (((b ∷ buf), succeeded) ∷ requests) store =
    let (reply, store') = respond (b ∷ buf) store in
    let rest = handle_client requests store' in if breaks reply succeeded then store' else rest
