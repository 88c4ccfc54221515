-- ===== src/ClientTable/Runs.antt =====
-- Every run of the chat and of the echo server.
use mathlib.Core.Path.{subst}
use genspark_training.Base.{
  ℕ, ◌<◌, ◌≡◌, refl, sym, inl, inr, Bool, true, false, Option, update, find_first, find_first-some,
  ◌==◌, arith, Option-cases,
}
use genspark_training.ClientTable.{
  max_users, max_clients, Server, Read, Accept, Events, is_free, store, accepted, send, chat_read,
  chat_round, echo_round, greet, init,
}
use genspark_training.ClientTable.Kept.{
  LeakIn, chat_read-Good, serve_slots-Good, chat_round-Good, echo_round-Good, IsTable-IsKept,
  LeakIn-IsKept,
}
use genspark_training.ClientTable.Table.{IsTable, Leaks, IsFresh, opened-IsTable}

-- The rounds from one state of a server to another, where accept returns sockets that are not open.
pub data Run (round : Events → Server → Server) (s : Server) : Server → Type 0 where
  stop : Run round s s
  more : {s' : Server} (e : Events) → Run round s s' → IsFresh e s' → Run round s (round e s')

module _ (P : (ℕ → Option ℕ) → (ℕ → Bool) → Type 0) (round : Events → Server → Server)
    (step : (e : Events) (s : Server)
      → IsFresh e s
      → P s.client_fd s.opened
      → P (round e s).client_fd (round e s).opened) where
  Run-kept : (s s' : Server) → Run round s s' → P s.client_fd s.opened → P s'.client_fd s'.opened
  Run-kept s s' Run.stop g = g
  Run-kept s s' (Run.more {s' = t} e r f) g = step e t f (Run-kept s t r g)

init-IsTable : (slots : ℕ) → IsTable slots init.client_fd init.opened
init-IsTable slots = record {
  once = λ i j fd a b p q. absurd (ground (arith, p));
  alive = λ i fd a p. absurd (ground (arith, p));
}

-- In every run of the chat server, and of the echo server, no socket has two slots of the table, and the
-- sockets of the table are open: none is served after it was closed.
pub Run-IsTable :
    (s t : Server)
    → Run chat_round init s
    → Run echo_round init t
    → IsTable max_users s.client_fd s.opened × IsTable max_clients t.client_fd t.opened
Run-IsTable s t r q = (
  Run-kept (IsTable max_users) chat_round
      (chat_round-Good (IsTable max_users) (IsTable-IsKept max_users)) init s r
      (init-IsTable max_users),
  Run-kept (IsTable max_clients) echo_round
      (echo_round-Good (IsTable max_clients) (IsTable-IsKept max_clients)) init t q
      (init-IsTable max_clients),
)

abbrev IsFull : Server → Type 0
IsFull s = (i : ℕ) → i < max_users → is_free (s.client_fd i) ≡ false

store-IsFull : (fd : ℕ) (s : Server) → IsFull s → store max_users fd s ≡ s
unfolding store
store-IsFull fd s full =
    elim (Option-cases (find_first (λ i. is_free (s.client_fd i)) 0 max_users)) [
      | inl e ↦ rw (store, e) refl
      | inr (i, e) ↦
          (let (a, b, c) = find_first-some (λ i. is_free (s.client_fd i)) 0 max_users i e in
            let no = full i (omega (arith, c)) in absurd (ground (arith, a, no)))
    ]

turned_away :
    (s : Server) (fd : ℕ)
    → IsTable max_users s.client_fd s.opened
    → s.opened fd ≡ false
    → LeakIn max_users fd s.client_fd (update s.opened fd true)
turned_away s fd v f =
    let self : (fd == fd) ≡ true = ground arith in
    (
      opened-IsTable max_users s.client_fd s.opened v fd f,
      (rw self refl, (λ i h e. ground (arith, f, v.alive i fd h e))),
    )

leaks_after :
    (s : Server) (fd : ℕ) (ready : ℕ → Option Read)
    → IsTable max_users s.client_fd s.opened
    → IsFull s
    → s.opened fd ≡ false
    → LeakIn max_users fd
        (chat_round (Accept.connection fd, ready) s).client_fd
        (chat_round (Accept.connection fd, ready) s).opened
unfolding chat_round
leaks_after s fd ready v full f =
    let k = LeakIn-IsKept max_users fd in
    let t = send fd greet (accepted fd s) in
    serve_slots-Good max_users (LeakIn max_users fd) k chat_read ready
      (chat_read-Good max_users (LeakIn max_users fd) k) max_users 0 (store max_users fd t)
      (omega arith)
      (subst (λ u. LeakIn max_users fd u.client_fd u.opened) (sym (store-IsFull fd t full))
        (turned_away s fd v f))

-- A connection that the chat server accepts while the table is full gets no slot in that round or in any
-- later one, and it is never closed.
pub Run-Leaks :
    (s s' : Server) (fd : ℕ) (ready : ℕ → Option Read)
    → IsTable max_users s.client_fd s.opened
    → ((i : ℕ) → i < max_users → is_free (s.client_fd i) ≡ false)
    → s.opened fd ≡ false
    → Run chat_round (chat_round (Accept.connection fd, ready) s) s'
    → Leaks max_users s'.client_fd s'.opened fd
Run-Leaks s s' fd ready v full f r =
    (Run-kept (LeakIn max_users fd) chat_round
      (chat_round-Good (LeakIn max_users fd) (LeakIn-IsKept max_users fd))
      (chat_round (Accept.connection fd, ready) s) s' r (leaks_after s fd ready v full f)).1
