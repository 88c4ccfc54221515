-- ===== src/BoundedQueue/Wakeup.antt =====
-- Wake-ups in bounded-producer-consumer-queue.c: a wake resets the flag though more threads may sleep.
use genspark_training.Base.{
  ℕ, ◌≡◌, ◌∙◌, ◌≢◌, true, false, some, update, ◌==◌, arith, Bool-cases, Option-cases, inl, inr,
}
use genspark_training.BoundedQueue.{
  buffer_size, Thread, State, Phase, is_asleep, set_phase, next_round, wake_if, producer_locked,
  consumer_locked, futex_wait, Move, may_lock, may_wait, step, Run,
}

-- A producer sleeps and the flag says that none does.
pub record Forgotten (t : ℕ) (s : State) : Type 0 where
  pub sleeps : (s.producers t).phase ≡ Phase.asleep
  pub unset : s.shared.not_full ≡ 0

other-thread :
    (threads : ℕ → Thread) (t u : ℕ) (th : Thread)
    → (threads t).phase ≡ Phase.asleep
    → is_asleep (threads u).phase ≡ false
    → (update threads u th t).phase ≡ Phase.asleep
other-thread threads t u th h k = elim (Bool-cases (u == t)) [
  | inl e ↦ let same : u ≡ t = ground arith in absurd (ground (arith, same, h, k))
  | inr e ↦ rw e h
]

may_lock-awake : (t : ℕ) (th : Thread) → may_lock t th ≡ true → is_asleep th.phase ≡ false
may_lock-awake t th h = ground arith

may_wait-awake : (t : ℕ) (th : Thread) → may_wait t th ≡ true → is_asleep th.phase ≡ false
may_wait-awake t th h = ground arith

producer_locked-Forgotten :
    (u w t : ℕ) (s s' : State)
    → is_asleep (s.producers u).phase ≡ false
    → producer_locked u w s ≡ some s'
    → s.shared.count ≢ buffer_size
    → Forgotten t s
    → Forgotten t s'
unfolding producer_locked
producer_locked-Forgotten u w t s s' awake h room f =
    elim (Option-cases (wake_if s.shared.not_empty s.consumers w)) [
      | inl e ↦ absurd (ground arith)
      | inr (p, e) ↦
          let shape : s'.producers ≡ next_round s.producers u = ground arith in
          let flag : s'.shared.not_full ≡ s.shared.not_full = ground arith in
          record {
            sleeps = rw shape (other-thread s.producers t u _ f.sleeps awake);
            unset = flag ∙ f.unset;
          }
    ]

consumer_locked-Forgotten :
    (u w t : ℕ) (s s' : State) → consumer_locked u w s ≡ some s' → Forgotten t s → Forgotten t s'
unfolding consumer_locked wake_if
consumer_locked-Forgotten u w t s s' h f =
    let shape : s'.producers ≡ s.producers = ground (arith, f.unset) in
    let flag : s'.shared.not_full ≡ s.shared.not_full = ground (arith, f.unset) in
    record { sleeps = rw shape f.sleeps; unset = flag ∙ f.unset }

step-Forgotten :
    (m : Move) (t : ℕ) (s s' : State)
    → step m s ≡ some s'
    → s.shared.count ≢ buffer_size
    → Forgotten t s
    → Forgotten t s'
unfolding step
step-Forgotten (Move.producer_locks u w) t s s' h room f =
    elim (Bool-cases (may_lock u (s.producers u))) [
      | inl e ↦
          producer_locked-Forgotten u w t s s' (may_lock-awake u (s.producers u) e) (ground arith)
            room f
      | inr e ↦ absurd (ground arith)
    ]
step-Forgotten (Move.consumer_locks u w) t s s' h room f =
    consumer_locked-Forgotten u w t s s' (ground arith) f
step-Forgotten (Move.producer_waits u) t s s' h room f =
    elim (Bool-cases (may_wait u (s.producers u))) [
      | inl e ↦
          let shape : s'.producers ≡ set_phase s.producers u (futex_wait s.shared.not_full) =
            ground arith in
          let flag : s'.shared.not_full ≡ s.shared.not_full = ground arith in
          record {
            sleeps =
                rw shape
                  (other-thread s.producers t u _ f.sleeps (may_wait-awake u (s.producers u) e));
            unset = flag ∙ f.unset;
          }
      | inr e ↦ absurd (ground arith)
    ]
step-Forgotten (Move.consumer_waits u) t s s' h room f =
    let shape : s'.producers ≡ s.producers = ground arith in
    let flag : s'.shared.not_full ≡ s.shared.not_full = ground arith in
    record { sleeps = rw shape f.sleeps; unset = flag ∙ f.unset }

-- The buffer is not full in front of any of the moves.
abbrev pub NeverFull : {s s' : State} → Run s s' → Type 0
NeverFull Run.stop = Unit
NeverFull (Run.move {s} m e r) = (s.shared.count ≢ buffer_size) × NeverFull r

-- A producer that sleeps while `not_full` is 0 sleeps on, with the flag at 0, through every execution in
-- which the buffer does not get full again, whatever the consumers take.
pub Run-Forgotten :
    (t : ℕ) {s s' : State} (r : Run s s') → NeverFull r → Forgotten t s → Forgotten t s'
Run-Forgotten t Run.stop h f = f
Run-Forgotten t (Run.move {s} m {u} e r) h f =
    Run-Forgotten t r h.1 (step-Forgotten m t s u e h.0 f)
