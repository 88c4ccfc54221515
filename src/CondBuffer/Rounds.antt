-- ===== src/CondBuffer/Rounds.antt =====
-- The executions of threads-buffer-w-p&c.c: every number is consumed once, and the threads are never stuck.
use mathlib.Core.Path.{subst}
use genspark_training.Base.{
  ℕ, zero, suc, ◌+◌, ◌-◌, ◌≤◌, ◌<◌, ◌≡◌, refl, inl, inr, Bool, true, false, List, [], ◌∷◌, ◌&&◌,
  update, ltb, leb, ◌==◌, if◌then◌else◌, arith, Bool-cases,
}
use genspark_training.CondBuffer.{
  Thread, State, buffer_size, rounds, init, signal, go_on, produce, consume,
}

-- A step of a thread that is active.
pub data Turn : State → State → Type 0 where
  produced : {s : State} → s.producer ≡ Thread.active → Turn s (produce s)
  consumed : {s : State} → s.consumer ≡ Thread.active → Turn s (consume s)

-- The turns in any order, and wake-ups that no signal caused.
pub data Reachable : State → Type 0 where
  start : Reachable init
  turn : {s s' : State} → Reachable s → Turn s s' → Reachable s'
  wake_producer :
      {s : State}
      → Reachable s
      → s.producer ≡ Thread.waiting
      → Reachable (record s { producer = Thread.active })
  wake_consumer :
      {s : State}
      → Reachable s
      → s.consumer ≡ Thread.waiting
      → Reachable (record s { consumer = Thread.active })

abbrev pub one_if : Bool → ℕ
one_if b = if b then 1 else 0

-- How often a number is in a list, and in the first `n` cells of the buffer.
abbrev pub occurs : ℕ → List ℕ → ℕ
occurs v [] = 0
occurs v (x ∷ l) = one_if (x == v) + occurs v l

abbrev pub tally : (ℕ → ℕ) → ℕ → ℕ → ℕ
tally buffer v zero = 0
tally buffer v (suc n) = one_if (buffer n == v) + tally buffer v n

-- A producer in front of round `next`, and a consumer after `taken` rounds.
abbrev pub ProducerFits : Thread → ℕ → ℕ → Type 0
ProducerFits Thread.active next count = next ≤ rounds
ProducerFits Thread.waiting next count = (next ≤ rounds) × (count ≡ buffer_size)
ProducerFits Thread.finished next count = next ≡ suc rounds

abbrev pub ConsumerFits : Thread → ℕ → ℕ → Type 0
ConsumerFits Thread.active taken count = taken < rounds
ConsumerFits Thread.waiting taken count = (taken < rounds) × (count ≡ 0)
ConsumerFits Thread.finished taken count = taken ≡ rounds

pub record IsBalanced (s : State) : Type 0 where
  pub counted : s.count + s.taken + 1 ≡ s.next
  pub bounded : s.count ≤ buffer_size
  pub producer : ProducerFits s.producer s.next s.count
  pub consumer : ConsumerFits s.consumer s.taken s.count
  pub once :
      (v : ℕ) → occurs v s.printed + tally s.buffer v s.count ≡ one_if (ltb 0 v && ltb v s.next)

tally-update :
    (buffer : ℕ → ℕ) (v x n m : ℕ) → n ≤ m → tally (update buffer m x) v n ≡ tally buffer v n
tally-update buffer v x zero m h = refl
tally-update buffer v x (suc n) m h =
    let other : (m == n) ≡ false = ground (arith, h) in
    rw (other, tally-update buffer v x n m (omega (arith, h))) refl

tally_last :
    (buffer : ℕ → ℕ) (v n : ℕ)
    → 0 < n
    → tally buffer v n ≡ one_if (buffer (n - 1) == v) + tally buffer v (n - 1)
tally_last buffer v zero h = absurd (omega (arith, h))
tally_last buffer v (suc n) h = let less : suc n - 1 ≡ n = omega arith in rw less refl

tally_push :
    (buffer : ℕ → ℕ) (v x n : ℕ)
    → tally (update buffer n x) v (n + 1) ≡ one_if (x == v) + tally buffer v n
tally_push buffer v x n =
    let more : n + 1 ≡ suc n = omega arith in
    let self : (n == n) ≡ true = ground arith in
    let same = tally-update buffer v x n n (omega arith) in rw (more, self, same) refl

producer_signal :
    (t : Thread) (next count count' : ℕ)
    → ProducerFits t next count
    → ProducerFits (signal t) next count'
producer_signal Thread.active next count count' h = h
producer_signal Thread.waiting next count count' h = h.0
producer_signal Thread.finished next count count' h = h

consumer_signal :
    (t : Thread) (taken count count' : ℕ)
    → ConsumerFits t taken count
    → ConsumerFits (signal t) taken count'
consumer_signal Thread.active taken count count' h = h
consumer_signal Thread.waiting taken count count' h = h.0
consumer_signal Thread.finished taken count count' h = h

producer_goes_on :
    (next count : ℕ) → next ≤ rounds → ProducerFits (go_on (leb (next + 1) rounds)) (next + 1) count
producer_goes_on next count h = elim (Bool-cases (leb (next + 1) rounds)) [
  | inl e ↦ rw e (ground (arith, e))
  | inr e ↦ rw e (ground (arith, e, h))
]

consumer_goes_on :
    (taken count : ℕ)
    → taken < rounds
    → ConsumerFits (go_on (ltb (taken + 1) rounds)) (taken + 1) count
consumer_goes_on taken count h = elim (Bool-cases (ltb (taken + 1) rounds)) [
  | inl e ↦ rw e (ground (arith, e))
  | inr e ↦ rw e (ground (arith, e, h))
]

one_more :
    (v next : ℕ)
    → 0 < next
    → one_if (next == v) + one_if (ltb 0 v && ltb v next) ≡ one_if (ltb 0 v && ltb v (next + 1))
one_more v next h = ground (arith, h)

produce-IsBalanced :
    (s : State) → IsBalanced s → s.producer ≡ Thread.active → IsBalanced (produce s)
unfolding produce
produce-IsBalanced s v e =
    let ready : s.next ≤ rounds = subst (λ t. ProducerFits t s.next s.count) e v.producer in
    elim (Bool-cases (s.count == buffer_size)) [
      | inl full ↦ rw full (record {
        counted = v.counted;
        bounded = v.bounded;
        producer = (ready, ground (arith, full));
        consumer = v.consumer;
        once = v.once;
      })
      | inr room ↦ rw room (record {
        counted = omega (arith, v.counted);
        bounded = ground (arith, room, v.bounded);
        producer = producer_goes_on s.next (s.count + 1) ready;
        consumer = consumer_signal s.consumer s.taken s.count (s.count + 1) v.consumer;
        once = (λ w.
            let push = tally_push s.buffer w s.next s.count in
            let more = one_more w s.next (omega (arith, v.counted)) in
            let before = v.once w in omega (arith, before, more, push));
      })
    ]

consume-IsBalanced :
    (s : State) → IsBalanced s → s.consumer ≡ Thread.active → IsBalanced (consume s)
unfolding consume
consume-IsBalanced s v e =
    let ready : s.taken < rounds = subst (λ t. ConsumerFits t s.taken s.count) e v.consumer in
    elim (Bool-cases (s.count == 0)) [
      | inl empty ↦ rw empty (record {
        counted = v.counted;
        bounded = v.bounded;
        producer = v.producer;
        consumer = (ready, ground (arith, empty));
        once = v.once;
      })
      | inr some_left ↦
          (let above : 0 < s.count = ground (arith, some_left) in
            rw some_left (record {
              counted = omega (arith, v.counted, above);
              bounded = omega (arith, v.bounded);
              producer = producer_signal s.producer s.next s.count (s.count - 1) v.producer;
              consumer = consumer_goes_on s.taken (s.count - 1) ready;
              once = (λ w.
                  let split = tally_last s.buffer w s.count above in
                  let before = v.once w in omega (arith, before, split));
            }))
    ]

-- Whatever the order of the turns and wake-ups: the buffer has no more than five numbers, as many as were
-- produced and not consumed; each number that was produced was printed once or is in the buffer once, and no
-- other number is; a thread waits only while the buffer is full, or empty.
pub Reachable-IsBalanced : {s : State} → Reachable s → IsBalanced s
Reachable-IsBalanced Reachable.start = record {
  counted = refl;
  bounded = omega arith;
  producer = omega arith;
  consumer = omega arith;
  once = λ v. ground arith;
}
Reachable-IsBalanced (Reachable.turn {s} r (Turn.produced e)) =
    produce-IsBalanced s (Reachable-IsBalanced r) e
Reachable-IsBalanced (Reachable.turn {s} r (Turn.consumed e)) =
    consume-IsBalanced s (Reachable-IsBalanced r) e
Reachable-IsBalanced (Reachable.wake_producer {s} r e) =
    let v = Reachable-IsBalanced r in
    let fits : (s.next ≤ rounds) × (s.count ≡ buffer_size) =
      subst (λ t. ProducerFits t s.next s.count) e v.producer in
    record {
      counted = v.counted;
      bounded = v.bounded;
      producer = fits.0;
      consumer = v.consumer;
      once = v.once;
    }
Reachable-IsBalanced (Reachable.wake_consumer {s} r e) =
    let v = Reachable-IsBalanced r in
    let fits : (s.taken < rounds) × (s.count ≡ 0) =
      subst (λ t. ConsumerFits t s.taken s.count) e v.consumer in
    record {
      counted = v.counted;
      bounded = v.bounded;
      producer = v.producer;
      consumer = fits.0;
      once = v.once;
    }

-- The threads are at the end, and each of the ten numbers was printed once.
pub record IsDone (s : State) : Type 0 where
  pub producer : s.producer ≡ Thread.finished
  pub consumer : s.consumer ≡ Thread.finished
  pub printed : (v : ℕ) → 0 < v → v ≤ rounds → occurs v s.printed ≡ 1
