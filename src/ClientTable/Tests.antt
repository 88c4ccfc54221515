-- ===== src/ClientTable/Tests.antt =====
-- Rounds of the chat and the echo server.
use genspark_training.Base.{
  ℕ, ◌+◌, ◌<◌, ◌≡◌, ◌≢◌, refl, Option, none, some, List, [], ◌∷◌, ◌++◌, map, bytes, find_first, ltb,
  ◌==◌, if◌then◌else◌, arith,
}
use genspark_training.KvStore.Scan.{c_string}
use genspark_training.ClientTable.{
  max_users, max_clients, Server, Read, Accept, Events, store, send_all, recipients, chat_read,
  serve_slot, serve_slots, chat_round, echo_round, greet, init,
}
use genspark_training.ClientTable.Table.{IsTable, Leaks}
use genspark_training.ClientTable.Runs.{Run, Run-IsTable, Run-Leaks}
use genspark_training.ClientTable.Broadcast.{occurs, chat_read-received}

-- Nothing to read.
abbrev quiet : ℕ → Option Read
quiet fd = none

-- Client 4 writes, and client 5 ends.
abbrev busy : ℕ → Option Read
busy fd =
    if fd == 4 then some (Read.received (bytes "hi")) else if fd == 5 then some Read.ended else none

abbrev connect : ℕ → Events
connect fd = (Accept.connection fd, quiet)

abbrev three : Server
unfolding store send_all recipients chat_read serve_slot serve_slots chat_round find_first
three = chat_round (connect 6) (chat_round (connect 5) (chat_round (connect 4) init))

abbrev later : Server
unfolding store send_all recipients chat_read serve_slot serve_slots chat_round find_first
later = chat_round (Accept.idle, busy) three

later_sent :
    later.sent ≡ (4, greet) ∷ (5, greet) ∷ (6, greet) ∷ (5, bytes "hi") ∷ (6, bytes "hi") ∷ []
unfolding later three c_string
later_sent = refl

later_slots :
    (later.client_fd 0 ≡ some 4) × (later.client_fd 1 ≡ none) × (later.client_fd 2 ≡ some 6)
unfolding later three c_string
later_slots = (refl, refl, refl)

-- The ten slots have the sockets 4 to 13.
abbrev full : Server
full = record { client_fd = λ i. some (i + 4); opened = λ fd. ltb fd 14; sent = [] }

full-IsTable : IsTable max_users full.client_fd full.opened
full-IsTable = record {
  once = λ i j fd h g e f. ground (arith, e, f);
  alive = λ i fd h e. ground (arith, h, e);
}

Run-IsTable_example :
    IsTable max_users (chat_round (connect 4) init).client_fd (chat_round (connect 4) init).opened
    × IsTable max_clients
        (echo_round (Accept.failure, quiet) init).client_fd
        (echo_round (Accept.failure, quiet) init).opened
Run-IsTable_example =
    Run-IsTable (chat_round (connect 4) init) (echo_round (Accept.failure, quiet) init)
      (Run.more (connect 4) Run.stop refl) (Run.more (Accept.failure, quiet) Run.stop tt)

Run-Leaks_example :
    Leaks max_users
      (chat_round (Accept.idle, busy) (chat_round (connect 14) full)).client_fd
      (chat_round (Accept.idle, busy) (chat_round (connect 14) full)).opened
      14
Run-Leaks_example =
    Run-Leaks full (chat_round (Accept.idle, busy) (chat_round (connect 14) full)) 14 quiet
      full-IsTable (λ i h. refl) refl (Run.more (Accept.idle, busy) Run.stop tt)

chat_read-received_example :
    (fds : List ℕ) × (chat_read 0 4 (Read.received (bytes "hi")) full
      ≡ record full { sent = [] ++ map (λ g. (g, c_string (bytes "hi"))) fds })
    × ((g k : ℕ) → g ≢ 4 → k < max_users → some (k + 4) ≡ some g → occurs g fds ≡ 1)
    × ((g : ℕ) → ((k : ℕ) → k < max_users → some (k + 4) ≢ some g) → occurs g fds ≡ 0)
    × (occurs 4 fds ≡ 0)
chat_read-received_example = chat_read-received 0 4 (bytes "hi") full full-IsTable
