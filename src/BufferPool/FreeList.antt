-- ===== src/BufferPool/FreeList.antt =====
-- The free list of the buffer pool of filesystem.c holds the free buffers, each once.
use genspark_training.Base.{
  IsDistinct, Has, ℕ, zero, suc, ◌+◌, ◌-◌, ◌≤◌, ◌<◌, ◌≡◌, refl, sym, ◌≢◌, ◌⊎◌, inl, inr, true,
  false, Option, none, some, List, [], ◌∷◌, All, length, update, ◌==◌, arith, Bool-cases,
}
use genspark_training.BufferPool.{
  Buffer, Pool, createbufferpool, take_buffer, acquire_head, acquire_buffer, release_buffer,
}

-- The links from `start` on go through the list.
abbrev pub IsLinked : (ℕ → Buffer) → Option ℕ → List ℕ → Type 0
IsLinked buffers start [] = start ≡ none
IsLinked buffers start (b ∷ bs) = (start ≡ some b) × IsLinked buffers (buffers b).next bs

-- The list of free buffers.
pub record IsFreeList (pool : Pool) (free : List ℕ) : Type 0 where
  pub linked : IsLinked pool.buffers pool.freelist free
  pub distinct : IsDistinct free
  pub sound : All (λ b. (b < pool.totalbuffers) × ((pool.buffers b).is_free ≡ true)) free
  pub complete : (b : ℕ) → b < pool.totalbuffers → (pool.buffers b).is_free ≡ true → Has b free
  pub counted : pool.freecount ≡ length free

-- An update at a buffer that is not in the list.
update-IsLinked :
    (buffers : ℕ → Buffer) (b : ℕ) (x : Buffer) (start : Option ℕ) (free : List ℕ)
    → All (λ c. c ≢ b) free
    → IsLinked buffers start free
    → IsLinked (update buffers b x) start free
update-IsLinked buffers b x start [] h l = l
update-IsLinked buffers b x start (c ∷ free) h l =
    let other : (b == c) ≡ false = ground (arith, h.0) in
    (l.0, rw other (update-IsLinked buffers b x (buffers c).next free h.1 l.1))

update_sound :
    (buffers : ℕ → Buffer) (n b : ℕ) (x : Buffer) (free : List ℕ)
    → All (λ c. c ≢ b) free
    → All (λ c. (c < n) × ((buffers c).is_free ≡ true)) free
    → All (λ c. (c < n) × ((update buffers b x c).is_free ≡ true)) free
update_sound buffers n b x [] h s = tt
update_sound buffers n b x (c ∷ free) h s =
    let other : (b == c) ≡ false = ground (arith, h.0) in
    ((s.0.0, rw other s.0.1), update_sound buffers n b x free h.1 s.1)

not_free-All :
    (buffers : ℕ → Buffer) (n b : ℕ) (free : List ℕ)
    → (buffers b).is_free ≡ false
    → All (λ c. (c < n) × ((buffers c).is_free ≡ true)) free
    → All (λ c. c ≢ b) free
not_free-All buffers n b [] e s = tt
not_free-All buffers n b (c ∷ free) e s =
    (ground (arith, s.0.1, e), not_free-All buffers n b free e s.1)

take_buffer_complete :
    (buffers : ℕ → Buffer) (b c : ℕ) (x : Buffer) (rest : List ℕ)
    → x.is_free ≡ false
    → (update buffers b x c).is_free ≡ true
    → ((buffers c).is_free ≡ true → Has c (b ∷ rest))
    → Has c rest
take_buffer_complete buffers b c x rest e f h = elim (Bool-cases (b == c)) [
  | inl same ↦ absurd (ground (arith, same, e, f))
  | inr other ↦ elim (h (ground (arith, other, f))) [
    | inl same ↦ absurd (ground (arith, same, other))
    | inr there ↦ there
  ]
]

pub take_buffer-IsFreeList :
    (pool : Pool) (b : ℕ) (rest : List ℕ)
    → IsFreeList pool (b ∷ rest)
    → IsFreeList (take_buffer b pool) rest
take_buffer-IsFreeList pool b rest v =
    let x : Buffer = record (pool.buffers b) { is_free = false; next = none } in
    record {
      linked = update-IsLinked pool.buffers b x (pool.buffers b).next rest v.distinct.0 v.linked.1;
      distinct = v.distinct.1;
      sound = update_sound pool.buffers pool.totalbuffers b x rest v.distinct.0 v.sound.1;
      complete = λ c h f. take_buffer_complete pool.buffers b c x rest refl f (v.complete c h);
      counted = omega (arith, v.counted);
    }

release_complete :
    (buffers : ℕ → Buffer) (b c : ℕ) (x : Buffer) (free : List ℕ)
    → (update buffers b x c).is_free ≡ true
    → ((buffers c).is_free ≡ true → Has c free)
    → Has c (b ∷ free)
release_complete buffers b c x free f h = elim (Bool-cases (b == c)) [
  | inl same ↦ inl (ground (arith, same))
  | inr other ↦ inr (h (ground (arith, other, f)))
]

-- Where no buffer is free the pool is exhausted. Otherwise the head of the list is taken, without
-- following NULL: it was free, it is not free any more, and the rest of the list is the new list.
pub acquire_buffer-IsFreeList :
    (pool : Pool) (free : List ℕ)
    → IsFreeList pool free
    → ((free ≡ []) × (acquire_buffer pool ≡ some (none, pool)))
      ⊎ ((b : ℕ) × (rest : List ℕ) × (pool' : Pool) × (free ≡ b ∷ rest)
          × (acquire_buffer pool ≡ some (some b, pool'))
          × ((pool'.buffers b).is_free ≡ false)
          × IsFreeList pool' rest)
unfolding acquire_buffer acquire_head
acquire_buffer-IsFreeList pool [] v = inl (refl, rw v.counted refl)
acquire_buffer-IsFreeList pool (b ∷ rest) v =
    let self : (b == b) ≡ true = ground arith in
    let some_free : (pool.freecount == 0) ≡ false = ground (arith, v.counted) in
    inr (
      b,
      rest,
      take_buffer b pool,
      refl,
      rw (some_free, v.linked.0) refl,
      rw self refl,
      take_buffer-IsFreeList pool b rest v,
    )

-- A buffer that is in use goes to the front of the list, with its contents cleared.
pub release_buffer-IsFreeList :
    (pool : Pool) (free : List ℕ) (b : ℕ)
    → IsFreeList pool free
    → b < pool.totalbuffers
    → (pool.buffers b).is_free ≡ false
    → IsFreeList (release_buffer (some b) pool) (b ∷ free)
unfolding release_buffer
release_buffer-IsFreeList pool free b v h used =
    let others = not_free-All pool.buffers pool.totalbuffers b free used v.sound in
    let self : (b == b) ≡ true = ground arith in
    let freed : Buffer = record { data_text = []; is_free = true; next = pool.freelist } in
    rw used (record {
      linked =
          (refl, rw self (update-IsLinked pool.buffers b freed pool.freelist free others v.linked));
      distinct = (others, v.distinct);
      sound = (
        (h, rw self refl),
        update_sound pool.buffers pool.totalbuffers b freed free others v.sound,
      );
      complete = λ c k f. release_complete pool.buffers b c freed free f (v.complete c k);
      counted = omega (arith, v.counted);
    })

abbrev pub range : (i n : ℕ) → List ℕ
range i zero = []
range i (suc n) = i ∷ range (i + 1) n

range-IsLinked :
    (n i m : ℕ) → i + suc m ≡ n → IsLinked (createbufferpool n).buffers (some i) (range i (suc m))
unfolding createbufferpool
range-IsLinked n i zero h =
    let last : (i == n - 1) ≡ true = ground (arith, h) in (refl, rw last refl)
range-IsLinked n i (suc m) h =
    let more : (i == n - 1) ≡ false = ground (arith, h) in
    (refl, rw more (range-IsLinked n (i + 1) m (omega (arith, h))))

range_above : (a i n : ℕ) → a < i → All (λ c. c ≢ a) (range i n)
range_above a i zero h = tt
range_above a i (suc n) h = (ground (arith, h), range_above a (i + 1) n (omega (arith, h)))

range-IsDistinct : (i n : ℕ) → IsDistinct (range i n)
range-IsDistinct i zero = tt
range-IsDistinct i (suc n) = (range_above i (i + 1) n (omega arith), range-IsDistinct (i + 1) n)

range_sound :
    (n i m : ℕ)
    → i + m ≡ n
    → All (λ b. (b < n) × (((createbufferpool n).buffers b).is_free ≡ true)) (range i m)
unfolding createbufferpool
range_sound n i zero h = tt
range_sound n i (suc m) h = ((omega (arith, h), refl), range_sound n (i + 1) m (omega (arith, h)))

range-Has : (b i m : ℕ) → i ≤ b → b < i + m → Has b (range i m)
range-Has b i zero h k = absurd (omega (arith, h, k))
range-Has b i (suc m) h k = elim (Bool-cases (i == b)) [
  | inl same ↦ inl (ground (arith, same))
  | inr other ↦ inr (range-Has b (i + 1) m (ground (arith, h, other)) (omega (arith, k)))
]

pub length-range : (i m : ℕ) → length (range i m) ≡ m
length-range i zero = refl
length-range i (suc m) = omega (arith, length-range (i + 1) m)

-- In a new pool of at least one buffer every buffer is free, in the order of their numbers.
pub createbufferpool-IsFreeList : (n : ℕ) → IsFreeList (createbufferpool (suc n)) (range 0 (suc n))
unfolding createbufferpool
createbufferpool-IsFreeList n = record {
  linked = range-IsLinked (suc n) 0 n (omega arith);
  distinct = range-IsDistinct 0 (suc n);
  sound = range_sound (suc n) 0 (suc n) (omega arith);
  complete = λ b h f. range-Has b 0 (suc n) (omega arith) (omega (arith, h));
  counted = sym (length-range 0 (suc n));
}
