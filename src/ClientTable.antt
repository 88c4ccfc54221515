-- ===== src/ClientTable.antt =====
-- The servers of multi-client-chat-server and multi-client-echo: a table of client sockets, which a round of
-- the loop around select serves. A slot is `none` for -1. What accept and read return, and which sockets are
-- ready, are the events of a round.
pub mod Table
pub mod Kept
pub mod Runs
pub mod Broadcast
mod Tests
use genspark_training.KvStore.Scan.{c_string}
use genspark_training.Base.{
  ℕ, zero, suc, ◌+◌, Bool, true, false, not, ◌&&◌, Option, none, some, List, [], ◌∷◌, ◌++◌, Text,
  bytes, update, find_first, ltb, ◌==◌, if◌then◌else◌,
}

-- `MAX_USERS` of the chat server, and `MAX_CLIENTS`, which is FD_SETSIZE, of the echo server.
abbrev pub max_users : ℕ
max_users = 10

abbrev pub max_clients : ℕ
max_clients = 1024

-- The table, which sockets are open, and what was sent, each with its socket, the first one first.
pub record Server : Type 0 where
  pub client_fd : ℕ → Option ℕ
  pub opened : ℕ → Bool
  pub sent : List (ℕ × Text)

-- What read returns: bytes, 0, an error, or EAGAIN.
pub data Read : Type 0 where
  received : Text → Read
  ended failed again : Read

-- What accept returns; `idle`: the listening socket is not ready.
pub data Accept : Type 0 where
  idle failure : Accept
  connection : ℕ → Accept

abbrev pub Events : Type 0
Events = Accept × (ℕ → Option Read)

abbrev pub is_free : Option ℕ → Bool
is_free none = true
is_free (some fd) = false

abbrev pub is_fd : ℕ → Option ℕ → Bool
is_fd fd none = false
is_fd fd (some g) = g == fd

-- The first free slot gets the socket; a full table stays as it is.
unfoldable pub store : (slots fd : ℕ) → Server → Server
store slots fd s = elim (find_first (λ i. is_free (s.client_fd i)) 0 slots) [
  | none ↦ s
  | some i ↦ record s { client_fd = update s.client_fd i (some fd) }
]

abbrev pub accepted : ℕ → Server → Server
accepted fd s = record s { opened = update s.opened fd true }

abbrev pub send : ℕ → Text → Server → Server
send fd text s = record s { sent = s.sent ++ ((fd, text) ∷ []) }

-- `close(fd)`, and the slot is free.
abbrev pub close_slot : (i fd : ℕ) → Server → Server
close_slot i fd s = record s {
  client_fd = update s.client_fd i none;
  opened = update s.opened fd false;
}

-- The other clients, from slot `j` on.
unfoldable pub recipients : (fd : ℕ) → (ℕ → Option ℕ) → (j rounds : ℕ) → List ℕ
recipients fd table j zero = []
recipients fd table j (suc n) =
    let rest = recipients fd table (suc j) n in
    elim (table j) [ none ↦ rest | some g ↦ if g == fd then rest else g ∷ rest ]

unfoldable pub send_all : List ℕ → Text → Server → Server
send_all [] text s = s
send_all (fd ∷ fds) text s = send_all fds text (send fd text s)

unfoldable pub chat_read : (i fd : ℕ) → Read → Server → Server
chat_read i fd (Read.received text) s =
    send_all (recipients fd s.client_fd 0 max_users) (c_string text) s
chat_read i fd Read.ended s = close_slot i fd s
chat_read i fd Read.failed s = close_slot i fd s
chat_read i fd Read.again s = close_slot i fd s

unfoldable pub echo_read : (i fd : ℕ) → Read → Server → Server
echo_read i fd (Read.received text) s = send fd text s
echo_read i fd Read.ended s = close_slot i fd s
echo_read i fd Read.failed s = close_slot i fd s
echo_read i fd Read.again s = s

-- The part of the loop for slot `i`.
unfoldable pub serve_slot :
    ((i fd : ℕ) → Read → Server → Server) → (ℕ → Option Read) → ℕ → Server → Server
serve_slot handle ready i s = elim (s.client_fd i) [
  | none ↦ s
  | some fd ↦ elim (if ltb 0 fd then ready fd else none) [ none ↦ s | some r ↦ handle i fd r s ]
]

unfoldable pub serve_slots :
    ((i fd : ℕ) → Read → Server → Server) → (ℕ → Option Read) → (i rounds : ℕ) → Server → Server
serve_slots handle ready i zero s = s
serve_slots handle ready i (suc n) s =
    serve_slots handle ready (suc i) n (serve_slot handle ready i s)

abbrev pub greet : Text
greet = bytes "Hello! Welcome to the chat room.\n"

-- A round of the chat server; after a failed accept it goes on to the next round.
unfoldable pub chat_round : Events → Server → Server
chat_round (Accept.idle, ready) s = serve_slots chat_read ready 0 max_users s
chat_round (Accept.failure, ready) s = s
chat_round (Accept.connection fd, ready) s =
    serve_slots chat_read ready 0 max_users (store max_users fd (send fd greet (accepted fd s)))

-- A round of the echo server.
unfoldable pub echo_round : Events → Server → Server
echo_round (Accept.idle, ready) s = serve_slots echo_read ready 0 max_clients s
echo_round (Accept.failure, ready) s = serve_slots echo_read ready 0 max_clients s
echo_round (Accept.connection fd, ready) s =
    serve_slots echo_read ready 0 max_clients (store max_clients fd (accepted fd s))

abbrev pub init : Server
init = record { client_fd = λ i. none; opened = λ fd. false; sent = [] }
