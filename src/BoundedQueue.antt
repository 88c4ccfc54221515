-- ===== src/BoundedQueue.antt =====
-- bounded-producer-consumer-queue.c: producers and consumers around a ring buffer, with a mutex and two
-- futex words. What a thread does between taking and releasing the mutex is one step, a call of
-- `futex_wait` another; signals do not interrupt it. The state keeps the lines "produced" and
-- "consumed" that the program prints.
pub mod Fifo
pub mod Totals
pub mod Wakeup
mod Tests
use genspark_training.Base.{
  ℕ, zero, suc, ◌+◌, ◌-◌, ◌%◌, ◌≡◌, Bool, true, false, ◌&&◌, Option, none, some, List, [], ◌∷◌,
  ◌++◌, update, ltb, ◌==◌, if◌then◌else◌, find_first,
}

abbrev pub buffer_size : ℕ
buffer_size = 5

-- NUM_PRODUCERS and NUM_CONSUMERS
abbrev pub num_threads : ℕ
num_threads = 2

abbrev pub items_to_produce : ℕ
items_to_produce = 5

-- The globals.
pub record Shared : Type 0 where
  pub buffer : ℕ → ℕ
  pub write_index : ℕ
  pub out : ℕ
  pub count : ℕ
  pub not_full : ℕ
  pub not_empty : ℕ

-- In front of `pthread_mutex_lock`; in front of `futex_wait`; asleep in it.
pub data Phase : Type 0 where
  ready calling asleep : Phase

-- The loop counter of a thread and where it is.
pub record Thread : Type 0 where
  pub i : ℕ
  pub phase : Phase

pub record State : Type 0 where
  pub shared : Shared
  pub producers : ℕ → Thread
  pub consumers : ℕ → Thread
  pub produced : List ℕ
  pub consumed : List ℕ

unfoldable pub init : State
init = record {
  shared = record {
    buffer = λ j. 0;
    write_index = 0;
    out = 0;
    count = 0;
    not_full = 0;
    not_empty = 0;
  };
  producers = λ t. record { i = 0; phase = Phase.ready };
  consumers = λ t. record { i = 0; phase = Phase.ready };
  produced = [];
  consumed = [];
}

abbrev pub is_ready : Phase → Bool
is_ready Phase.ready = true
is_ready Phase.calling = false
is_ready Phase.asleep = false

abbrev pub is_calling : Phase → Bool
is_calling Phase.ready = false
is_calling Phase.calling = true
is_calling Phase.asleep = false

abbrev pub is_asleep : Phase → Bool
is_asleep Phase.ready = false
is_asleep Phase.calling = false
is_asleep Phase.asleep = true

abbrev pub set_phase : (ℕ → Thread) → ℕ → Phase → ℕ → Thread
set_phase threads t phase = update threads t (record (threads t) { phase = phase })

-- The end of a round of the `for` loop.
abbrev pub next_round : (ℕ → Thread) → ℕ → ℕ → Thread
next_round threads t = update threads t (record { i = (threads t).i + 1; phase = Phase.ready })

-- `futex_wake(addr, 1)`: a thread that is asleep, any, gets ready; `none`: the one named is not asleep
-- while another is.
unfoldable pub futex_wake : (ℕ → Thread) → ℕ → Option (ℕ → Thread)
futex_wake threads w =
    if ltb w num_threads && is_asleep (threads w).phase
    then some (set_phase threads w Phase.ready)
    else elim (find_first (λ u. is_asleep (threads u).phase) 0 num_threads) [
      | none ↦ some threads
      | some u ↦ none
    ]

-- `if (atomic_load(&flag) == 1) { atomic_store(&flag, 0); futex_wake(&flag, 1); }`
unfoldable pub wake_if : ℕ → (ℕ → Thread) → ℕ → Option (ℕ × (ℕ → Thread))
unfolding futex_wake
wake_if flag threads w =
    if flag == 1
    then elim (futex_wake threads w) [ none ↦ none | some threads' ↦ some (0, threads') ]
    else some (flag, threads)

-- `buffer[in] = item; in = (in + 1) % BUFFER_SIZE; count++;`
abbrev pub put_item : ℕ → Shared → Shared
put_item item q = record q {
  buffer = update q.buffer q.write_index item;
  write_index = (q.write_index + 1) % buffer_size;
  count = q.count + 1;
}

-- `item = buffer[out]; out = (out + 1) % BUFFER_SIZE; count--;`
abbrev pub take_item : Shared → Shared
take_item q = record q { out = (q.out + 1) % buffer_size; count = q.count - 1 }

-- What a producer does behind `pthread_mutex_lock`; `w` is the consumer that `futex_wake` picks.
unfoldable pub producer_locked : ℕ → ℕ → State → Option State
unfolding wake_if
producer_locked t w s =
    if s.shared.count == buffer_size
    then some (record s {
      shared = record s.shared { not_full = 1 };
      producers = set_phase s.producers t Phase.calling;
    })
    else elim (wake_if s.shared.not_empty s.consumers w) [
      | none ↦ none
      | some (flag, consumers) ↦
          let item = (s.producers t).i + 1 in
          some (record {
            shared = record (put_item item s.shared) { not_empty = flag };
            producers = next_round s.producers t;
            consumers = consumers;
            produced = s.produced ++ item ∷ [];
            consumed = s.consumed;
          })
    ]

-- The same of a consumer; `w` is a producer.
unfoldable pub consumer_locked : ℕ → ℕ → State → Option State
unfolding wake_if
consumer_locked t w s =
    if s.shared.count == 0
    then some (record s {
      shared = record s.shared { not_empty = 1 };
      consumers = set_phase s.consumers t Phase.calling;
    })
    else elim (wake_if s.shared.not_full s.producers w) [
      | none ↦ none
      | some (flag, producers) ↦ some (record {
        shared = record (take_item s.shared) { not_full = flag };
        producers = producers;
        consumers = next_round s.consumers t;
        produced = s.produced;
        consumed = s.consumed ++ s.shared.buffer s.shared.out ∷ [];
      })
    ]

-- `futex_wait(addr, 1)` with the value at `addr`.
unfoldable pub futex_wait : ℕ → Phase
futex_wait flag = if flag == 1 then Phase.asleep else Phase.ready

-- What happens next: a thread gets the mutex, or calls `futex_wait`.
pub data Move : Type 0 where
  producer_locks consumer_locks : ℕ → ℕ → Move
  producer_waits consumer_waits : ℕ → Move

abbrev pub may_lock : ℕ → Thread → Bool
may_lock t th = ltb t num_threads && (is_ready th.phase && ltb th.i items_to_produce)

abbrev pub may_wait : ℕ → Thread → Bool
may_wait t th = ltb t num_threads && is_calling th.phase

-- `none`: the thread cannot do this now.
unfoldable pub step : Move → State → Option State
unfolding producer_locked consumer_locked futex_wait
step (Move.producer_locks t w) s =
    if may_lock t (s.producers t) then producer_locked t w s else none
step (Move.consumer_locks t w) s =
    if may_lock t (s.consumers t) then consumer_locked t w s else none
step (Move.producer_waits t) s =
    if may_wait t (s.producers t)
    then some (record s { producers = set_phase s.producers t (futex_wait s.shared.not_full) })
    else none
step (Move.consumer_waits t) s =
    if may_wait t (s.consumers t)
    then some (record s { consumers = set_phase s.consumers t (futex_wait s.shared.not_empty) })
    else none

-- Executions: moves that follow one another.
pub data Run : State → State → Type 0 where
  stop : {s : State} → Run s s
  move : {s s' : State} → (m : Move) → {u : State} → step m s ≡ some u → Run u s' → Run s s'
