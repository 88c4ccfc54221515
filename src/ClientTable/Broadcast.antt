-- ===== src/ClientTable/Broadcast.antt =====
-- What the chat server sends on when a client wrote a message.
use mathlib.Core.List.{append-nil, append_assoc}
use genspark_training.KvStore.Scan.{c_string}
use genspark_training.Base.{
  ℕ, zero, suc, ◌+◌, ◌≤◌, ◌<◌, ◌≡◌, refl, sym, ap, ◌∙◌, ◌≢◌, inl, inr, true, false, Option, some,
  List, [], ◌∷◌, ◌++◌, map, Text, ◌==◌, if◌then◌else◌, arith, Bool-cases, Option-cases, ℕ_discrete,
}
use genspark_training.ClientTable.{max_users, Server, Read, send, send_all, recipients, chat_read}
use genspark_training.ClientTable.Table.{IsTable}

-- How often a socket is in a list.
abbrev pub occurs : ℕ → List ℕ → ℕ
occurs g [] = 0
occurs g (x ∷ l) = let rest = occurs g l in if x == g then 1 + rest else rest

send_all_lem :
    (fds : List ℕ) (text : Text) (s : Server)
    → send_all fds text s ≡ record s { sent = s.sent ++ map (λ g. (g, text)) fds }
unfolding send_all
send_all_lem [] text s = ap (λ l. record s { sent = l }) (sym (append-nil s.sent))
send_all_lem (fd ∷ fds) text s =
    send_all_lem fds text (send fd text s)
    ∙ ap (λ l. record s { sent = l })
        (append_assoc s.sent ((fd, text) ∷ []) (map (λ g. (g, text)) fds))

module _ (fd : ℕ) (table : ℕ → Option ℕ) where
  recipients_absent :
      (g j n : ℕ)
      → ((k : ℕ) → j ≤ k → k < j + n → table k ≢ some g)
      → occurs g (recipients fd table j n) ≡ 0
  unfolding recipients
  recipients_absent g j zero h = refl
  recipients_absent g j (suc n) h =
      let rest =
        recipients_absent g (suc j) n (λ k a b. h k (omega (arith, a)) (omega (arith, b))) in
      elim (Option-cases (table j)) [
        | inl e ↦ rw (recipients, e) rest
        | inr (x, e) ↦ elim (Bool-cases (x == fd)) [
          | inl f ↦ rw (recipients, e, f) rest
          | inr f ↦
              (let ne : (x == g) ≡ false =
                  (let apart = h j (omega arith) (omega arith) in
                    elim (Bool-cases (x == g)) [
                      | inl same ↦ absurd (apart (e ∙ ap some (ground (arith, same))))
                      | inr other ↦ other
                    ]) in
                rw (recipients, e, f, ne) rest)
        ]
      ]

  recipients_self : (j n : ℕ) → occurs fd (recipients fd table j n) ≡ 0
  unfolding recipients
  recipients_self j zero = refl
  recipients_self j (suc n) =
      let rest = recipients_self (suc j) n in
      elim (Option-cases (table j)) [
        | inl e ↦ rw (recipients, e) rest
        | inr (x, e) ↦ elim (Bool-cases (x == fd)) [
          | inl f ↦ rw (recipients, e, f) rest
          | inr f ↦ rw (recipients, e, f, f) rest
        ]
      ]

  recipients_present :
      (g j n k : ℕ)
      → g ≢ fd
      → ((a b : ℕ) → a < j + n → b < j + n → table a ≡ some g → table b ≡ some g → a ≡ b)
      → j ≤ k
      → k < j + n
      → table k ≡ some g
      → occurs g (recipients fd table j n) ≡ 1
  unfolding recipients
  recipients_present g j zero k ne once a b e = absurd (omega (arith, a, b))
  recipients_present g j (suc n) k ne once a b e = elim (ℕ_discrete j k) [
    | yes same ↦
        (let here : table j ≡ some g = ap table same ∙ e in
          let other : (g == fd) ≡ false = ground (arith, ne) in
          let self : (g == g) ≡ true = ground arith in
          let rest = recipients_absent g (suc j) n (λ m c d h.
            let f = once m j (omega (arith, d)) (omega arith) h here in omega (arith, c, f)) in
          rw (recipients, here, other, self, rest) refl)
    | no apart ↦
        (let rest =
            recipients_present g (suc j) n k ne
              (λ c d p q. once c d (omega (arith, p)) (omega (arith, q))) (omega (arith, a, apart))
              (omega (arith, b)) e in
          elim (Option-cases (table j)) [
            | inl h ↦ rw (recipients, h) rest
            | inr (x, h) ↦ elim (Bool-cases (x == fd)) [
              | inl f ↦ rw (recipients, h, f) rest
              | inr f ↦
                  (let no_twin : (x == g) ≡ false = elim (Bool-cases (x == g)) [
                    | inl same ↦ absurd (
                        apart (
                          once j k (omega arith) (omega (arith, b))
                            (h ∙ ap some (ground (arith, same))) e))
                    | inr other ↦ other
                  ] in
                    rw (recipients, h, f, no_twin) rest)
            ]
          ])
  ]

-- A message of a client goes, up to its first 0, once to every other client of the table, and to nobody else.
pub chat_read-received :
    (i fd : ℕ) (text : Text) (s : Server)
    → IsTable max_users s.client_fd s.opened
    → (fds : List ℕ) × (chat_read i fd (Read.received text) s
        ≡ record s { sent = s.sent ++ map (λ g. (g, c_string text)) fds })
      × ((g k : ℕ) → g ≢ fd → k < max_users → s.client_fd k ≡ some g → occurs g fds ≡ 1)
      × ((g : ℕ) → ((k : ℕ) → k < max_users → s.client_fd k ≢ some g) → occurs g fds ≡ 0)
      × (occurs fd fds ≡ 0)
unfolding chat_read
chat_read-received i fd text s v = (
  recipients fd s.client_fd 0 max_users,
  send_all_lem (recipients fd s.client_fd 0 max_users) (c_string text) s,
  (λ g k ne h e.
      recipients_present fd s.client_fd g 0 max_users k ne
        (λ a b p q x y. v.once a b g (omega (arith, p)) (omega (arith, q)) x y) (omega arith)
        (omega (arith, h)) e),
  (λ g h. recipients_absent fd s.client_fd g 0 max_users (λ k a b. h k (omega (arith, b)))),
  recipients_self fd s.client_fd 0 max_users,
)
