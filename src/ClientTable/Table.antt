-- ===== src/ClientTable/Table.antt =====
-- The client table of the chat and the echo server in every run: no socket has two slots, and every socket of
-- the table is open.
use genspark_training.Base.{
  ℕ, ◌<◌, ◌≡◌, refl, sym, ap, ◌∙◌, ◌≢◌, ◌⊎◌, inl, inr, Bool, true, false, Option, none, some,
  update, ◌==◌, arith, Bool-cases,
}
use genspark_training.ClientTable.{Server, Accept, Events}

-- No socket has two slots, and the sockets of the table are open.
pub record IsTable (slots : ℕ) (table : ℕ → Option ℕ) (opened : ℕ → Bool) : Type 0 where
  pub once : (i j fd : ℕ) → i < slots → j < slots → table i ≡ some fd → table j ≡ some fd → i ≡ j
  pub alive : (i fd : ℕ) → i < slots → table i ≡ some fd → opened fd ≡ true

-- The socket is open and has no slot: nothing reads from it, writes to it or closes it.
abbrev pub Leaks : (slots : ℕ) → (ℕ → Option ℕ) → (ℕ → Bool) → ℕ → Type 0
Leaks slots table opened fd = (opened fd ≡ true) × ((i : ℕ) → i < slots → table i ≢ some fd)

-- accept returns a socket that is not open.
abbrev pub IsFresh : Events → Server → Type 0
IsFresh (Accept.idle, ready) s = Unit
IsFresh (Accept.failure, ready) s = Unit
IsFresh (Accept.connection fd, ready) s = s.opened fd ≡ false

update-none :
    (table : ℕ → Option ℕ) (i j fd : ℕ)
    → update table i none j ≡ some fd
    → (i ≢ j) × (table j ≡ some fd)
update-none table i j fd h = elim (Bool-cases (i == j)) [
  | inl e ↦ absurd (ground (arith, h, e))
  | inr e ↦ (ground (arith, e), ground (arith, h, e))
]

update-some :
    (table : ℕ → Option ℕ) (i j fd g : ℕ)
    → update table i (some fd) j ≡ some g
    → ((i ≡ j) × (fd ≡ g)) ⊎ ((i ≢ j) × (table j ≡ some g))
update-some table i j fd g h = elim (Bool-cases (i == j)) [
  | inl e ↦ inl (ground (arith, e), ground (arith, h, e))
  | inr e ↦ inr (ground (arith, e), ground (arith, h, e))
]

pub update_other :
    (opened : ℕ → Bool) (fd g : ℕ) (b : Bool) → fd ≢ g → update opened fd b g ≡ opened g
update_other opened fd g b h = let other : (fd == g) ≡ false = ground (arith, h) in rw other refl

module _ (slots : ℕ) (table : ℕ → Option ℕ) (opened : ℕ → Bool)
    (v : IsTable slots table opened) where
  pub closed-IsTable :
      (i fd : ℕ)
      → i < slots
      → table i ≡ some fd
      → IsTable slots (update table i none) (update opened fd false)
  closed-IsTable i fd h e = record {
    once = (λ j k g a b p q.
        v.once j k g a b (update-none table i j g p).1 (update-none table i k g q).1);
    alive = (λ j g a p.
        let (ne, q) = update-none table i j g p in
        update_other opened fd g false (λ same. ne (v.once i j g h a (e ∙ ap some same) q))
        ∙ v.alive j g a q);
  }

  pub closed-Leaks :
      (i fd g : ℕ)
      → i < slots
      → table i ≡ some fd
      → Leaks slots table opened g
      → Leaks slots (update table i none) (update opened fd false) g
  closed-Leaks i fd g h e l = (
    update_other opened fd g false (λ same. l.1 i h (e ∙ ap some same)) ∙ l.0,
    (λ j a p. l.1 j a (update-none table i j g p).1),
  )

  pub opened-IsTable : (fd : ℕ) → opened fd ≡ false → IsTable slots table (update opened fd true)
  opened-IsTable fd h = record {
    once = v.once;
    alive = (λ j g a p.
        update_other opened fd g true (λ same. ground (arith, h, v.alive j g a p, same))
        ∙ v.alive j g a p);
  }

  pub stored-IsTable :
      (i fd : ℕ)
      → opened fd ≡ false
      → IsTable slots (update table i (some fd)) (update opened fd true)
  stored-IsTable i fd h = record {
    once = (λ j k g a b p q. elim (update-some table i j fd g p) [
      | inl (e, f) ↦ elim (update-some table i k fd g q) [
        | inl (e2, f2) ↦ sym e ∙ e2
        | inr (ne, r) ↦ absurd (ground (arith, h, v.alive k g b r, f))
      ]
      | inr (ne, r) ↦ elim (update-some table i k fd g q) [
        | inl (e2, f2) ↦ absurd (ground (arith, h, v.alive j g a r, f2))
        | inr (ne2, r2) ↦ v.once j k g a b r r2
      ]
    ]);
    alive = (λ j g a p. elim (update-some table i j fd g p) [
      | inl (e, f) ↦ (let self : (fd == g) ≡ true = ground (arith, f) in rw self refl)
      | inr (ne, r) ↦
          (update_other opened fd g true (λ same. ground (arith, h, v.alive j g a r, same))
            ∙ v.alive j g a r)
    ]);
  }

  pub stored-Leaks :
      (i fd g : ℕ)
      → opened fd ≡ false
      → Leaks slots table opened g
      → Leaks slots (update table i (some fd)) (update opened fd true) g
  stored-Leaks i fd g h l = (
    update_other opened fd g true (λ same. ground (arith, h, l.0, same)) ∙ l.0,
    (λ j a p. elim (update-some table i j fd g p) [
      | inl (e, f) ↦ ground (arith, h, l.0, f)
      | inr (ne, r) ↦ l.1 j a r
    ]),
  )
