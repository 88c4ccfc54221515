-- ===== src/PageCache/Clock/Sweep.antt =====
-- The sweep of the clock simulation ends, gives a second chance to what was referenced, and keeps the
-- frames well formed.
use genspark_training.Base.{
  ℕ, zero, suc, ◌+◌, ◌-◌, ◌%◌, ◌≤◌, ◌<◌, ◌≡◌, refl, ◌≢◌, ◌⊎◌, inl, inr, true, false, some, List, [],
  ◌∷◌, length, update, arith, Bool-cases, Option-cases, find_first, find_first-some,
  find_first-none, not,
}
use genspark_training.PageCache.Frames.{
  max_frames, IsAbsent, find_page, find_page-some, find_page-none,
}
use genspark_training.PageCache.Clock.{Clock, init, replace, spare, sweep, request, simulate}

pub record IsValid (n : ℕ) (s : Clock) : Type 0 where
  pub in_range : s.pointer < max_frames
  pub counted : s.hits + s.misses ≡ n
  pub distinct :
      (i j p : ℕ)
      → i < max_frames
      → j < max_frames
      → s.buffer i ≡ some p
      → s.buffer j ≡ some p
      → i ≡ j

-- `s'` is `s` after a miss on `page` that took the frame `k`.
pub record Swept (page k : ℕ) (s s' : Clock) : Type 0 where
  pub in_range : k < max_frames
  pub taken : s'.buffer k ≡ some page
  pub referenced : s'.ref_bit k ≡ true
  pub kept : (i : ℕ) → i ≢ k → s'.buffer i ≡ s.buffer i
  -- No bit but that of the frame is set by the sweep.
  pub chances : (i : ℕ) → i ≢ k → s'.ref_bit i ≡ true → s.ref_bit i ≡ true
  pub pointer : s'.pointer ≡ (k + 1) % max_frames
  pub counts : (s'.hits ≡ s.hits) × (s'.misses ≡ s.misses)

replace-Swept :
    (page : ℕ) (s : Clock) → s.pointer < max_frames → Swept page s.pointer s (replace page s)
unfolding replace
replace-Swept page s l = record {
  in_range = l;
  taken = ground arith;
  referenced = ground arith;
  kept = λ i h. ground arith;
  chances = λ i h b. ground arith;
  pointer = refl;
  counts = (refl, refl);
}

-- A sweep that spares the frame under the pointer goes on like one from the next.
spare-Swept : (page k : ℕ) (s s' : Clock) → Swept page k (spare s) s' → Swept page k s s'
unfolding spare
spare-Swept page k s s' w = record {
  in_range = w.in_range;
  taken = w.taken;
  referenced = w.referenced;
  kept = w.kept;
  chances = λ i h b. ground (arith, w.chances i h b);
  pointer = w.pointer;
  counts = w.counts;
}

-- How a sweep from `s` ends: at a clear bit, at most `k` frames on.
record Stops (k fuel page : ℕ) (s : Clock) : Type 0 where
  last : Clock
  steps : ℕ
  near : steps ≤ k
  reached : sweep fuel page s ≡ some last
  swept : Swept page ((s.pointer + steps) % max_frames) s last
  off : s.ref_bit ((s.pointer + steps) % max_frames) ≡ false

Stops-here :
    (k fuel page : ℕ) (s : Clock)
    → s.pointer < max_frames
    → s.ref_bit s.pointer ≡ false
    → Stops k (suc fuel) page s
unfolding sweep
Stops-here k fuel page s l off =
    let here : (s.pointer + 0) % max_frames ≡ s.pointer = omega arith in
    record {
      last = replace page s;
      steps = 0;
      near = omega arith;
      reached = ground arith;
      swept = rw here (replace-Swept page s l);
      off = rw here off;
    }

sweep_within :
    (k fuel page : ℕ) (s : Clock)
    → k ≤ fuel
    → k < max_frames
    → s.pointer < max_frames
    → s.ref_bit ((s.pointer + k) % max_frames) ≡ false
    → Stops k (suc fuel) page s
unfolding sweep spare
sweep_within zero fuel page s q m l e = Stops-here 0 fuel page s l (ground arith)
sweep_within (suc k) zero page s q m l e = absurd (omega arith)
sweep_within (suc k) (suc fuel) page s q m l e = elim (Bool-cases (s.ref_bit s.pointer)) [
  | inr off ↦ Stops-here (suc k) (suc fuel) page s l off
  | inl on ↦
      let r : Stops k (suc fuel) page (spare s) =
        sweep_within k fuel page (spare s) (omega arith) (omega arith) (omega arith)
          (ground arith) in
      let next : ((s.pointer + 1) % max_frames + r.steps) % max_frames
          ≡ (s.pointer + suc r.steps) % max_frames =
        omega arith in
      record {
        last = r.last;
        steps = suc r.steps;
        near = omega (arith, r.near);
        reached = ground (arith, r.reached);
        swept = rw (← next) (spare-Swept page _ s r.last r.swept);
        off = ground (arith, r.off, r.near);
      }
]

-- Either some bit within one round is clear, or all are set.
all_or_clear :
    (s : Clock)
    → s.pointer < max_frames
    → ((k : ℕ) × (k < max_frames) × (s.ref_bit ((s.pointer + k) % max_frames) ≡ false))
      ⊎ ((i : ℕ) → i < max_frames → s.ref_bit i ≡ true)
all_or_clear s l = elim (Option-cases (find_first (λ i. not (s.ref_bit i)) 0 max_frames)) [
  | inr (i, e) ↦
      let (t, low, high) = find_first-some (λ i. not (s.ref_bit i)) 0 max_frames i e in
      inl (
        (i + max_frames - s.pointer) % max_frames,
        omega arith,
        (let same : (s.pointer + (i + max_frames - s.pointer) % max_frames) % max_frames ≡ i =
              omega arith in
            rw same (ground arith)),
      )
  | inl e ↦ inr (λ i m. ground (arith, find_first-none (λ i. not (s.ref_bit i)) 0 max_frames i e))
]

-- The result of a miss: the frame `k` is taken, one whose bit was clear if there was any.
pub record Miss (page : ℕ) (s s' : Clock) : Type 0 where
  pub frame : ℕ
  pub swept : Swept page frame s s'
  pub victim : (s.ref_bit frame ≡ false) ⊎ ((i : ℕ) → i < max_frames → s.ref_bit i ≡ true)

sweep_total :
    (page : ℕ) (s : Clock)
    → s.pointer < max_frames
    → (s' : Clock) × (sweep (suc max_frames) page s ≡ some s') × Miss page s s'
unfolding sweep spare
sweep_total page s l = elim (all_or_clear s l) [
  | inl (k, m, e) ↦
      let r = sweep_within k max_frames page s (omega arith) m l e in
      (r.last, r.reached, record { frame = _; swept = r.swept; victim = inl r.off })
  | inr all ↦
      let r =
        sweep_within 2 2 page (spare s) (omega arith) (omega arith) (omega arith) (ground arith) in
      (
        r.last,
        ground (arith, r.reached, all s.pointer),
        record { frame = _; swept = spare-Swept page _ s r.last r.swept; victim = inr all },
      )
]

Miss-IsValid :
    (n page : ℕ) (s s' : Clock)
    → IsValid n s
    → IsAbsent s.buffer page
    → Miss page (record s { misses = s.misses + 1 }) s'
    → IsValid (suc n) s'
Miss-IsValid n page s s' v a m = record {
  in_range = omega (arith, m.swept.pointer);
  counted = omega (arith, m.swept.counts, v.counted);
  distinct = λ i j p l h e f.
      ground (arith, v.distinct i j p, m.swept.taken, m.swept.kept i, m.swept.kept j, a i, a j);
}

-- A request always ends: the page is in a frame afterwards, and the state stays valid. On a hit the bit of
-- the page's frame is set, the hit is counted and nothing else changes; a miss takes a frame whose bit was
-- clear, if there is one, and no other frame changes.
pub request_total :
    (n page : ℕ) (s : Clock)
    → IsValid n s
    → (s' : Clock) × (request page s ≡ some s')
      × IsValid (suc n) s'
      × ((k : ℕ) × (k < max_frames) × (s'.buffer k ≡ some page))
      × (((k : ℕ) × (k < max_frames)
            × (s.buffer k ≡ some page)
            × (s' ≡ record s { ref_bit = update s.ref_bit k true; hits = s.hits + 1 }))
          ⊎ (IsAbsent s.buffer page × Miss page (record s { misses = s.misses + 1 }) s'))
unfolding request
request_total n page s v = elim (Option-cases (find_page s.buffer page max_frames)) [
  | inr (k, e) ↦
      let (l, f) = find_page-some s.buffer page k e in
      (
        record s { ref_bit = update s.ref_bit k true; hits = s.hits + 1 },
        rw (e, request),
        record { in_range = v.in_range; counted = omega (arith, v.counted); distinct = v.distinct },
        (k, l, f),
        inl (k, l, f, refl),
      )
  | inl e ↦
      let a : IsAbsent s.buffer page = find_page-none s.buffer page e in
      let (s', done, m) = sweep_total page (record s { misses = s.misses + 1 }) v.in_range in
      (
        s',
        rw (e, request) done,
        Miss-IsValid n page s s' v a m,
        (m.frame, m.swept.in_range, m.swept.taken),
        inr (a, m),
      )
]

simulate-IsValid :
    (pages : List ℕ) (n : ℕ) (s : Clock)
    → IsValid n s
    → (s' : Clock) × (simulate pages s ≡ some s') × IsValid (n + length pages) s'
unfolding simulate
simulate-IsValid [] n s v = (s, refl, (let same : n + 0 ≡ n = omega arith in rw same v))
simulate-IsValid (page ∷ pages) n s v =
    let (s', e, w, here, how) = request_total n page s v in
    let (t, f, x) = simulate-IsValid pages (suc n) s' w in
    let same : n + suc (length pages) ≡ suc n + length pages = omega arith in
    (t, rw (e, simulate) f, rw same x)

-- The clock simulation ends on every sequence of requests: each is a hit or a miss, no page is in two
-- frames, and the pointer is in range.
pub simulate_total :
    (pages : List ℕ) → (s : Clock) × (simulate pages init ≡ some s) × IsValid (length pages) s
unfolding init
simulate_total pages =
    let same : length pages ≡ 0 + length pages = omega arith in
    rw same (
      simulate-IsValid pages 0 _ (record {
        in_range = omega arith;
        counted = refl;
        distinct = λ i j p l m e f. absurd (ground arith);
      }))
