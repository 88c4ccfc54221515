-- ===== src/BoundedQueue/Totals.antt =====
-- How many items the threads of bounded-producer-consumer-queue.c have handled, and what is there when
-- they have all finished.
use genspark_training.Base.{
  ℕ, ◌*◌, ◌+◌, ◌≤◌, ◌≡◌, refl, sym, ap, ◌∙◌, true, ◌&&◌, some, List, [], ◌∷◌, ◌++◌, length,
  length-append, ltb, ◌==◌, find_first, arith, Bool-cases, Option-cases, inl, inr,
}
use genspark_training.BoundedQueue.{
  buffer_size, num_threads, items_to_produce, Thread, State, Phase, init, is_asleep, set_phase,
  next_round, futex_wake, wake_if, put_item, take_item, producer_locked, consumer_locked,
  futex_wait, Move, may_lock, may_wait, step, Run,
}
use genspark_training.BoundedQueue.Fifo.{Run-IsValid, contents, length-items}
use mathlib.Core.List.{append-nil}

-- The rounds that both threads of a kind have finished.
abbrev pub total : (ℕ → Thread) → ℕ
total threads = (threads 0).i + (threads 1).i

set_phase-i :
    (threads : ℕ → Thread) (t u : ℕ) (p : Phase) → (set_phase threads t p u).i ≡ (threads u).i
set_phase-i threads t u p = ground arith

futex_wake-i :
    (threads threads' : ℕ → Thread) (w u : ℕ)
    → futex_wake threads w ≡ some threads'
    → (threads' u).i ≡ (threads u).i
unfolding futex_wake
futex_wake-i threads threads' w u h =
    elim (Bool-cases (ltb w num_threads && is_asleep (threads w).phase)) [
      | inl e ↦
          let shape : threads' ≡ set_phase threads w Phase.ready = ground arith in
          rw shape (set_phase-i threads w u Phase.ready)
      | inr e ↦ elim (Option-cases (find_first (λ u. is_asleep (threads u).phase) 0 num_threads)) [
        | inl f ↦ let shape : threads' ≡ threads = ground arith in rw shape refl
        | inr f ↦ absurd (ground arith)
      ]
    ]

wake_if-i :
    (flag : ℕ) (threads : ℕ → Thread) (w u : ℕ) (p : ℕ × (ℕ → Thread))
    → wake_if flag threads w ≡ some p
    → (p.1 u).i ≡ (threads u).i
unfolding wake_if
wake_if-i flag threads w u p h = elim (Bool-cases (flag == 1)) [
  | inl e ↦ elim (Option-cases (futex_wake threads w)) [
    | inl f ↦ absurd (ground arith)
    | inr (q, f) ↦ let shape : p ≡ (0, q) = ground arith in rw shape (futex_wake-i threads q w u f)
  ]
  | inr e ↦ let shape : p ≡ (flag, threads) = ground arith in rw shape refl
]

-- What was printed counts the rounds, of which a thread makes at most `items_to_produce`.
pub record Counts (s : State) : Type 0 where
  pub produced_total : length s.produced ≡ total s.producers
  pub consumed_total : length s.consumed ≡ total s.consumers
  pub producer_bound : (t : ℕ) → (s.producers t).i ≤ items_to_produce
  pub consumer_bound : (t : ℕ) → (s.consumers t).i ≤ items_to_produce

Counts-same :
    (s s' : State)
    → s'.produced ≡ s.produced
    → s'.consumed ≡ s.consumed
    → ((t : ℕ) → (s'.producers t).i ≡ (s.producers t).i)
    → ((t : ℕ) → (s'.consumers t).i ≡ (s.consumers t).i)
    → Counts s
    → Counts s'
Counts-same s s' ep ec fp fc c = record {
  produced_total = rw (ep, fp 0, fp 1) c.produced_total;
  consumed_total = rw (ec, fc 0, fc 1) c.consumed_total;
  producer_bound = λ t. rw (fp t) (c.producer_bound t);
  consumer_bound = λ t. rw (fc t) (c.consumer_bound t);
}

total-next_round :
    (threads : ℕ → Thread) (t : ℕ)
    → ltb t num_threads ≡ true
    → total (next_round threads t) ≡ total threads + 1
total-next_round threads t h = ground arith

length-snoc : (xs : List ℕ) (x : ℕ) → length (xs ++ x ∷ []) ≡ length xs + 1
length-snoc xs x = length-append xs (x ∷ [])

bound-next_round :
    (threads : ℕ → Thread) (t u : ℕ)
    → may_lock t (threads t) ≡ true
    → (threads u).i ≤ items_to_produce
    → (next_round threads t u).i ≤ items_to_produce
bound-next_round threads t u h b = ground arith

may_lock-thread : (t : ℕ) (th : Thread) → may_lock t th ≡ true → ltb t num_threads ≡ true
may_lock-thread t th h = ground arith

producer_locked-Counts :
    (t w : ℕ) (s s' : State)
    → may_lock t (s.producers t) ≡ true
    → producer_locked t w s ≡ some s'
    → Counts s
    → Counts s'
unfolding producer_locked
producer_locked-Counts t w s s' m h c = elim (Bool-cases (s.shared.count == buffer_size)) [
  | inl full ↦
      let shape : s' ≡ record s {
        shared = record s.shared { not_full = 1 };
        producers = set_phase s.producers t Phase.calling;
      } =
        ground arith in
      rw shape
        (Counts-same s _ refl refl (λ u. set_phase-i s.producers t u Phase.calling) (λ u. refl) c)
  | inr free ↦ elim (Option-cases (wake_if s.shared.not_empty s.consumers w)) [
    | inl e ↦ absurd (ground arith)
    | inr (p, e) ↦
        let shape : s' ≡ record {
          shared = record (put_item ((s.producers t).i + 1) s.shared) { not_empty = p.0 };
          producers = next_round s.producers t;
          consumers = p.1;
          produced = s.produced ++ ((s.producers t).i + 1) ∷ [];
          consumed = s.consumed;
        } =
          ground arith in
        rw shape (record {
          produced_total =
              length-snoc s.produced ((s.producers t).i + 1)
              ∙ (ap (λ n. n + 1) c.produced_total
                  ∙ sym (total-next_round s.producers t (may_lock-thread t (s.producers t) m)));
          consumed_total =
              rw
                (
                  wake_if-i s.shared.not_empty s.consumers w 0 p e,
                  wake_if-i s.shared.not_empty s.consumers w 1 p e,
                )
                c.consumed_total;
          producer_bound = λ u. bound-next_round s.producers t u m (c.producer_bound u);
          consumer_bound =
              λ u. rw (wake_if-i s.shared.not_empty s.consumers w u p e) (c.consumer_bound u);
        })
  ]
]

consumer_locked-Counts :
    (t w : ℕ) (s s' : State)
    → may_lock t (s.consumers t) ≡ true
    → consumer_locked t w s ≡ some s'
    → Counts s
    → Counts s'
unfolding consumer_locked
consumer_locked-Counts t w s s' m h c = elim (Bool-cases (s.shared.count == 0)) [
  | inl empty ↦
      let shape : s' ≡ record s {
        shared = record s.shared { not_empty = 1 };
        consumers = set_phase s.consumers t Phase.calling;
      } =
        ground arith in
      rw shape
        (Counts-same s _ refl refl (λ u. refl) (λ u. set_phase-i s.consumers t u Phase.calling) c)
  | inr some_item ↦ elim (Option-cases (wake_if s.shared.not_full s.producers w)) [
    | inl e ↦ absurd (ground arith)
    | inr (p, e) ↦
        let shape : s' ≡ record {
          shared = record (take_item s.shared) { not_full = p.0 };
          producers = p.1;
          consumers = next_round s.consumers t;
          produced = s.produced;
          consumed = s.consumed ++ s.shared.buffer s.shared.out ∷ [];
        } =
          ground arith in
        rw shape (record {
          produced_total =
              rw
                (
                  wake_if-i s.shared.not_full s.producers w 0 p e,
                  wake_if-i s.shared.not_full s.producers w 1 p e,
                )
                c.produced_total;
          consumed_total =
              length-snoc s.consumed (s.shared.buffer s.shared.out)
              ∙ (ap (λ n. n + 1) c.consumed_total
                  ∙ sym (total-next_round s.consumers t (may_lock-thread t (s.consumers t) m)));
          producer_bound =
              λ u. rw (wake_if-i s.shared.not_full s.producers w u p e) (c.producer_bound u);
          consumer_bound = λ u. bound-next_round s.consumers t u m (c.consumer_bound u);
        })
  ]
]

step-Counts : (m : Move) (s s' : State) → step m s ≡ some s' → Counts s → Counts s'
unfolding step
step-Counts (Move.producer_locks t w) s s' h c = elim (Bool-cases (may_lock t (s.producers t))) [
  | inl e ↦ producer_locked-Counts t w s s' e (ground arith) c
  | inr e ↦ absurd (ground arith)
]
step-Counts (Move.consumer_locks t w) s s' h c = elim (Bool-cases (may_lock t (s.consumers t))) [
  | inl e ↦ consumer_locked-Counts t w s s' e (ground arith) c
  | inr e ↦ absurd (ground arith)
]
step-Counts (Move.producer_waits t) s s' h c = elim (Bool-cases (may_wait t (s.producers t))) [
  | inl e ↦
      let shape : s'
          ≡ record s { producers = set_phase s.producers t (futex_wait s.shared.not_full) } =
        ground arith in
      rw shape (
        Counts-same s _ refl refl (λ u. set_phase-i s.producers t u (futex_wait s.shared.not_full))
          (λ u. refl) c)
  | inr e ↦ absurd (ground arith)
]
step-Counts (Move.consumer_waits t) s s' h c = elim (Bool-cases (may_wait t (s.consumers t))) [
  | inl e ↦
      let shape : s'
          ≡ record s { consumers = set_phase s.consumers t (futex_wait s.shared.not_empty) } =
        ground arith in
      rw shape (
        Counts-same s _ refl refl (λ u. refl)
          (λ u. set_phase-i s.consumers t u (futex_wait s.shared.not_empty)) c)
  | inr e ↦ absurd (ground arith)
]

Run-preserves : {s s' : State} → Run s s' → Counts s → Counts s'
Run-preserves Run.stop c = c
Run-preserves (Run.move {s} m {u} e r) c = Run-preserves r (step-Counts m s u e c)

init-Counts : Counts init
unfolding init
init-Counts = record {
  produced_total = refl;
  consumed_total = refl;
  producer_bound = λ t. omega arith;
  consumer_bound = λ t. omega arith;
}

nil-of-length : (xs : List ℕ) → length xs ≡ 0 → xs ≡ []
nil-of-length [] h = refl
nil-of-length (x ∷ xs) h = absurd (omega arith)

-- When the producers have made all their rounds and the consumers too, every item that was produced was
-- consumed, in the same order, and the ring is empty.
pub Run-finished :
    (s : State)
    → Run init s
    → total s.producers ≡ num_threads * items_to_produce
    → total s.consumers ≡ num_threads * items_to_produce
    → (s.shared.count ≡ 0) × (s.consumed ≡ s.produced)
Run-finished s r p q =
    let v = Run-IsValid s r in
    let c = Run-preserves r init-Counts in
    let empty : s.shared.count ≡ 0 = omega (
      arith,
      c.produced_total,
      c.consumed_total,
      p,
      q,
      ap length v.fifo,
      length-append s.consumed (contents s.shared),
      length-items s.shared.buffer s.shared.out s.shared.count,
    ) in
    (empty, sym (v.fifo ∙ (rw empty (append-nil s.consumed))))
