-- ===== src/ClientTable/Kept.antt =====
-- What a round of the chat or the echo server keeps.
use genspark_training.Base.{
  ℕ, zero, suc, ◌+◌, ◌≤◌, ◌<◌, ◌≡◌, refl, ◌∙◌, inl, inr, Bool, true, false, Option, none, some,
  List, [], ◌∷◌, Text, update, find_first, ltb, if◌then◌else◌, arith, Option-cases,
}
use genspark_training.ClientTable.{
  max_users, max_clients, Server, Read, Accept, Events, is_free, store, accepted, send, send_all,
  recipients, chat_read, echo_read, serve_slot, serve_slots, chat_round, echo_round, greet,
}
use genspark_training.KvStore.Scan.{c_string}
use genspark_training.ClientTable.Table.{
  IsTable, Leaks, IsFresh, closed-IsTable, closed-Leaks, opened-IsTable, stored-IsTable,
  stored-Leaks, update_other,
}

-- A predicate of the table and the open sockets that closing a client and accepting one keep.
pub record IsKept (slots : ℕ) (P : (ℕ → Option ℕ) → (ℕ → Bool) → Type 0) : Type 0 where
  pub closed :
      (table : ℕ → Option ℕ) (opened : ℕ → Bool) (i fd : ℕ)
      → i < slots
      → table i ≡ some fd
      → P table opened
      → P (update table i none) (update opened fd false)
  pub added :
      (table : ℕ → Option ℕ) (opened : ℕ → Bool) (fd : ℕ)
      → opened fd ≡ false
      → P table opened
      → P table (update opened fd true)
  pub stored :
      (table : ℕ → Option ℕ) (opened : ℕ → Bool) (i fd : ℕ)
      → opened fd ≡ false
      → P table opened
      → P (update table i (some fd)) (update opened fd true)

send_all_lem :
    (fds : List ℕ) (text : Text) (s : Server)
    → ((send_all fds text s).client_fd ≡ s.client_fd) × ((send_all fds text s).opened ≡ s.opened)
unfolding send_all
send_all_lem [] text s = (refl, refl)
send_all_lem (fd ∷ fds) text s = send_all_lem fds text (send fd text s)

module _ (slots : ℕ) (P : (ℕ → Option ℕ) → (ℕ → Bool) → Type 0) (k : IsKept slots P) where
  abbrev pub Good : Server → Type 0
  Good s = P s.client_fd s.opened

  abbrev pub Handles : ((i fd : ℕ) → Read → Server → Server) → Type 0
  Handles handle =
      (i fd : ℕ) (r : Read) (s : Server)
      → i < slots
      → s.client_fd i ≡ some fd
      → Good s
      → Good (handle i fd r s)

  pub chat_read-Good : Handles chat_read
  unfolding chat_read
  chat_read-Good i fd (Read.received text) s h e g =
      let (a, b) = send_all_lem (recipients fd s.client_fd 0 max_users) (c_string text) s in
      rw (a, b) g
  chat_read-Good i fd Read.ended s h e g = k.closed s.client_fd s.opened i fd h e g
  chat_read-Good i fd Read.failed s h e g = k.closed s.client_fd s.opened i fd h e g
  chat_read-Good i fd Read.again s h e g = k.closed s.client_fd s.opened i fd h e g

  echo_read-Good : Handles echo_read
  unfolding echo_read
  echo_read-Good i fd (Read.received text) s h e g = g
  echo_read-Good i fd Read.ended s h e g = k.closed s.client_fd s.opened i fd h e g
  echo_read-Good i fd Read.failed s h e g = k.closed s.client_fd s.opened i fd h e g
  echo_read-Good i fd Read.again s h e g = g

  store-Good :
      (fd : ℕ) (s : Server) (opened : ℕ → Bool)
      → s.opened ≡ update opened fd true
      → opened fd ≡ false
      → P s.client_fd opened
      → Good (store slots fd s)
  unfolding store
  store-Good fd s opened a f g =
      elim (Option-cases (find_first (λ i. is_free (s.client_fd i)) 0 slots)) [
        | inl e ↦ rw (store, e, a) (k.added s.client_fd opened fd f g)
        | inr (i, e) ↦ rw (store, e, a) (k.stored s.client_fd opened i fd f g)
      ]

  module _ (handle : (i fd : ℕ) → Read → Server → Server) (ready : ℕ → Option Read)
      (h : Handles handle) where
    serve_slot-Good : (i : ℕ) (s : Server) → i < slots → Good s → Good (serve_slot handle ready i s)
    unfolding serve_slot
    serve_slot-Good i s lt g = elim (Option-cases (s.client_fd i)) [
      | inl e ↦ rw (serve_slot, e) g
      | inr (fd, e) ↦ elim (Option-cases (if ltb 0 fd then ready fd else none)) [
        | inl f ↦ rw (serve_slot, e, f) g
        | inr (r, f) ↦ rw (serve_slot, e, f) (h i fd r s lt e g)
      ]
    ]

    pub serve_slots-Good :
        (n i : ℕ) (s : Server) → i + n ≤ slots → Good s → Good (serve_slots handle ready i n s)
    unfolding serve_slots
    serve_slots-Good zero i s le g = g
    serve_slots-Good (suc n) i s le g =
        serve_slots-Good n (suc i) (serve_slot handle ready i s) (omega (arith, le))
          (serve_slot-Good i s (omega (arith, le)) g)

-- The two servers.
module _ (P : (ℕ → Option ℕ) → (ℕ → Bool) → Type 0) where
  pub chat_round-Good :
      IsKept max_users P
      → (e : Events) (s : Server) → IsFresh e s
      → P s.client_fd s.opened
      → P (chat_round e s).client_fd (chat_round e s).opened
  unfolding chat_round
  chat_round-Good k (Accept.idle, ready) s f g =
      serve_slots-Good max_users P k chat_read ready (chat_read-Good max_users P k) max_users 0 s
        (omega arith) g
  chat_round-Good k (Accept.failure, ready) s f g = g
  chat_round-Good k (Accept.connection fd, ready) s f g =
      serve_slots-Good max_users P k chat_read ready (chat_read-Good max_users P k) max_users 0
        (store max_users fd (send fd greet (accepted fd s))) (omega arith)
        (store-Good max_users P k fd (send fd greet (accepted fd s)) s.opened refl f g)

  pub echo_round-Good :
      IsKept max_clients P
      → (e : Events) (s : Server) → IsFresh e s
      → P s.client_fd s.opened
      → P (echo_round e s).client_fd (echo_round e s).opened
  unfolding echo_round
  echo_round-Good k (Accept.idle, ready) s f g =
      serve_slots-Good max_clients P k echo_read ready (echo_read-Good max_clients P k) max_clients
        0 s (omega arith) g
  echo_round-Good k (Accept.failure, ready) s f g =
      serve_slots-Good max_clients P k echo_read ready (echo_read-Good max_clients P k) max_clients
        0 s (omega arith) g
  echo_round-Good k (Accept.connection fd, ready) s f g =
      serve_slots-Good max_clients P k echo_read ready (echo_read-Good max_clients P k) max_clients
        0 (store max_clients fd (accepted fd s)) (omega arith)
        (store-Good max_clients P k fd (accepted fd s) s.opened refl f g)

pub IsTable-IsKept : (slots : ℕ) → IsKept slots (IsTable slots)
IsTable-IsKept slots = record {
  closed = λ table opened i fd h e v. closed-IsTable slots table opened v i fd h e;
  added = λ table opened fd f v. opened-IsTable slots table opened v fd f;
  stored = λ table opened i fd f v. stored-IsTable slots table opened v i fd f;
}

abbrev pub LeakIn : ℕ → ℕ → (ℕ → Option ℕ) → (ℕ → Bool) → Type 0
LeakIn slots g table opened = IsTable slots table opened × Leaks slots table opened g

pub LeakIn-IsKept : (slots g : ℕ) → IsKept slots (LeakIn slots g)
LeakIn-IsKept slots g = record {
  closed = λ table opened i fd h e (v, l). (
    closed-IsTable slots table opened v i fd h e,
    closed-Leaks slots table opened v i fd g h e l,
  );
  added = λ table opened fd f (v, l). (
    opened-IsTable slots table opened v fd f,
    (update_other opened fd g true (λ same. ground (arith, f, l.0, same)) ∙ l.0, l.1),
  );
  stored = λ table opened i fd f (v, l).
      (stored-IsTable slots table opened v i fd f, stored-Leaks slots table opened v i fd g f l);
}
