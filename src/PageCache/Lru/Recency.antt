-- ===== src/PageCache/Lru/Recency.antt =====
-- The LRU simulation against the history of its requests: the frames hold the pages that were requested
-- last, and the victim is the one among them whose last request is the oldest.
use genspark_training.Base.{
  ℕ, zero, suc, ◌+◌, ◌-◌, ◌≤◌, ◌<◌, ◌≡◌, refl, ◌≢◌, ◌⊎◌, inl, inr, Option, none, some, List, [],
  ◌∷◌, length, ℤ, pos, ltb, update, ◌==◌, if◌then◌else◌, find_first, find_first-some,
  find_first-none, arith, Bool-cases, Option-cases, ℕ_discrete, ap,
}
use genspark_training.PageCache.Frames.{
  max_frames, is_empty, find_page, IsAbsent, find_page-some, find_page-none,
}
use genspark_training.PageCache.Lru.{Lru, init, least, place, victim, request, simulate}

-- The number of the last request of a page, 0 if there is none; the history is newest first.
abbrev pub last_use : ℕ → List ℕ → ℕ
last_use page [] = 0
last_use page (q ∷ h) = if q == page then suc (length h) else last_use page h

pub last_use-le : (page : ℕ) (h : List ℕ) → last_use page h ≤ length h
last_use-le page [] = omega arith
last_use-le page (q ∷ h) = ground (arith, last_use-le page h)

-- No request is for two pages.
last_use-injective : (p q : ℕ) (h : List ℕ) → 0 < last_use p h → last_use p h ≡ last_use q h → p ≡ q
last_use-injective p q [] l e = absurd (omega arith)
last_use-injective p q (r ∷ h) l e =
    ground (arith, last_use-injective p q h, last_use-le p h, last_use-le q h)

pub record Tracks (h : List ℕ) (s : Lru) : Type 0 where
  pub counter : s.counter ≡ length h
  pub counted : s.hits + s.misses ≡ length h
  pub times :
      (i p : ℕ)
      → i < max_frames
      → s.buffer i ≡ some p
      → (s.time i ≡ pos (last_use p h)) × (0 < last_use p h)
  pub distinct :
      (i j p : ℕ)
      → i < max_frames
      → j < max_frames
      → s.buffer i ≡ some p
      → s.buffer j ≡ some p
      → i ≡ j
  -- What was requested and is not in a frame was last requested before what is.
  pub recent :
      (p i : ℕ)
      → IsAbsent s.buffer p
      → 0 < last_use p h
      → i < max_frames
      → (q : ℕ) × (s.buffer i ≡ some q) × (last_use p h < last_use q h)

pub Tracks-init : Tracks [] init
unfolding init
Tracks-init = record {
  counter = refl;
  counted = refl;
  times = λ i p l e. absurd (ground arith);
  distinct = λ i j p l m e f. absurd (ground arith);
  recent = λ p i a l m. absurd (omega arith);
}

least_lem :
    (time : ℕ → ℤ) (f : ℕ → ℕ) (n : ℕ)
    → ((i : ℕ) → i < n → time i ≡ pos (f i))
    → (j k lru : ℕ) → j + k ≡ n
    → lru < n
    → ((i : ℕ) → i < j → f lru ≤ f i)
    → (least time j k lru < n) × ((i : ℕ) → i < n → f (least time j k lru) ≤ f i)
unfolding least
least_lem time f n ts j zero lru e l h = (l, λ i m. h i (omega arith))
least_lem time f n ts j (suc k) lru e l h = elim (Bool-cases (ltb (f j) (f lru))) [
  | inl less ↦
      rw (ts j (omega arith), ts lru l, less)
        (least_lem time f n ts (suc j) k j (omega arith) (omega arith) (λ i m. ground (arith, h i)))
  | inr more ↦
      rw (ts j (omega arith), ts lru l, more)
        (least_lem time f n ts (suc j) k lru (omega arith) l (λ i m. ground (arith, h i)))
]

-- The last request of what a frame holds.
abbrev frame_use : List ℕ → Option ℕ → ℕ
frame_use h none = 0
frame_use h (some p) = last_use p h

full_frame :
    (s : Lru)
    → find_first (λ j. is_empty (s.buffer j)) 0 max_frames ≡ none
    → (i : ℕ) → i < max_frames
    → (q : ℕ) × (s.buffer i ≡ some q)
full_frame s full i l = elim (Option-cases (s.buffer i)) [
  | inl e ↦
      absurd (ground (arith, find_first-none (λ j. is_empty (s.buffer j)) 0 max_frames i full))
  | inr r ↦ r
]

-- Every frame holds a page, and the page of frame `k` has the oldest last request.
abbrev pub IsOldest : List ℕ → Lru → ℕ → Type 0
IsOldest h s k =
    (i p : ℕ)
    → i < max_frames
    → s.buffer k ≡ some p
    → (q : ℕ) × (s.buffer i ≡ some q) × (last_use p h ≤ last_use q h)

full_times :
    (h : List ℕ) (s : Lru)
    → Tracks h s
    → find_first (λ j. is_empty (s.buffer j)) 0 max_frames ≡ none
    → (i : ℕ) → i < max_frames
    → s.time i ≡ pos (frame_use h (s.buffer i))
full_times h s t full i l = let (p, e) = full_frame s full i l in rw e (t.times i p l e).0

-- The frame that a miss fills: an empty one, or one whose page has the oldest last request.
pub victim_lem :
    (h : List ℕ) (s : Lru)
    → Tracks h s
    → (victim s < max_frames) × ((s.buffer (victim s) ≡ none) ⊎ IsOldest h s (victim s))
unfolding victim
victim_lem h s t = elim (Option-cases (find_first (λ j. is_empty (s.buffer j)) 0 max_frames)) [
  | inr (e, found) ↦
      let (test, low, high) = find_first-some (λ j. is_empty (s.buffer j)) 0 max_frames e found in
      rw (found, victim) (omega arith, inl (ground arith))
  | inl full ↦
      let (low, least) =
        least_lem s.time (λ i. frame_use h (s.buffer i)) max_frames (full_times h s t full) 1
          (max_frames - 1) 0 refl (omega arith) (λ i m. ground arith) in
      rw (full, victim)
        (
          low,
          inr (λ i p m e. let (q, f) = full_frame s full i m in (q, f, ground (arith, least i m))),
        )
]

dec_holds : (o : Option ℕ) (p : ℕ) → (o ≡ some p) ⊎ (o ≢ some p)
dec_holds none p = inr (λ e. ground arith)
dec_holds (some q) p = elim (ℕ_discrete q p) [
  | yes e ↦ inl (ap some e)
  | no e ↦ inr (λ f. e (ground arith))
]

-- A hit: the page's time becomes the newest.
hit-Tracks :
    (h : List ℕ) (s : Lru) (page k : ℕ)
    → Tracks h s
    → k < max_frames
    → s.buffer k ≡ some page
    → Tracks (page ∷ h) (record s {
      hits = s.hits + 1;
      time = update s.time k (pos (s.counter + 1));
      counter = s.counter + 1;
    })
hit-Tracks h s page k t l e = record {
  counter = omega (arith, t.counter);
  counted = omega (arith, t.counted);
  times = λ i p m f. ground (arith, t.times i p, t.distinct i k page, t.counter);
  distinct = t.distinct;
  recent = λ p i a u m. elim (ℕ_discrete p page) [
    | yes same ↦ absurd (a k l (rw same e))
    | no other ↦
        let (q, f, older) = t.recent p i a (ground arith) m in
        (q, f, ground (arith, last_use-le p h))
  ];
}

-- A miss that fills frame `k`: what is in no frame after it was last requested before what is.
place-recent :
    (h : List ℕ) (s : Lru) (page k : ℕ)
    → Tracks h s
    → IsAbsent s.buffer page
    → k < max_frames
    → ((s.buffer k ≡ none) ⊎ IsOldest h s k)
    → (p i : ℕ) → IsAbsent (update s.buffer k (some page)) p
    → 0 < last_use p (page ∷ h)
    → i < max_frames
    → (q : ℕ) × (update s.buffer k (some page) i ≡ some q)
      × (last_use p (page ∷ h) < last_use q (page ∷ h))
place-recent h s page k t a l v p i b u m = elim (Bool-cases (k == i)) [
  | inl here ↦ (page, rw here refl, ground (arith, last_use-le p h, b k))
  | inr other ↦ elim (dec_holds (s.buffer k) p) [
    | inl held ↦ elim v [
      | inl empty ↦ absurd (ground arith)
      | inr oldest ↦
          let (q, f, le) = oldest i p m held in
          (
            q,
            rw other f,
            ground (
              arith,
              last_use-injective p q h,
              t.distinct i k p,
              a i,
              b k,
              (t.times k p l held).1,
            ),
          )
    ]
    | inr free ↦
        let (q, f, older) =
          t.recent p i
            (λ j n e. elim (Bool-cases (k == j)) [
              | inl same ↦ ground (arith, free)
              | inr apart ↦ ground (arith, b j)
            ])
            (ground (arith, b k)) m in
        (q, rw other f, ground (arith, a i, b k))
  ]
]

-- A miss that fills frame `k`.
place-Tracks :
    (h : List ℕ) (s : Lru) (page k : ℕ)
    → Tracks h s
    → IsAbsent s.buffer page
    → k < max_frames
    → ((s.buffer k ≡ none) ⊎ IsOldest h s k)
    → Tracks (page ∷ h) (place k page (record s { misses = s.misses + 1 }))
unfolding place
place-Tracks h s page k t a l v = record {
  counter = omega (arith, t.counter);
  counted = omega (arith, t.counted);
  times = λ i p m f. ground (arith, t.times i p, a i, t.counter);
  distinct = λ i j p m n f g. ground (arith, t.distinct i j p, a i, a j);
  recent = λ p i b u m. place-recent h s page k t a l v p i b u m;
}

pub request-Tracks :
    (h : List ℕ) (s : Lru) (page : ℕ) → Tracks h s → Tracks (page ∷ h) (request page s)
unfolding request
request-Tracks h s page t = elim (Option-cases (find_page s.buffer page max_frames)) [
  | inr (k, e) ↦
      let (l, f) = find_page-some s.buffer page k e in rw (e, request) (hit-Tracks h s page k t l f)
  | inl e ↦
      let (l, c) = victim_lem h s t in
      rw (e, request) (place-Tracks h s page (victim s) t (find_page-none s.buffer page e) l c)
]

-- The requests, newest first, on top of those before them.
abbrev pub history : List ℕ → List ℕ → List ℕ
history [] h = h
history (page ∷ pages) h = history pages (page ∷ h)

pub simulate-Tracks :
    (pages h : List ℕ) (s : Lru) → Tracks h s → Tracks (history pages h) (simulate pages s)
unfolding simulate
simulate-Tracks [] h s t = t
simulate-Tracks (page ∷ pages) h s t =
    simulate-Tracks pages (page ∷ h) (request page s) (request-Tracks h s page t)

-- Behind any sequence of requests the frames hold the pages requested last: `counter` is the number of
-- requests, every request is a hit or a miss, no page is in two frames, `time` is the number of the
-- last request of the page in a frame, and what was requested and is in no frame was last requested
-- before each page that is.
pub simulate-init-Tracks : (pages : List ℕ) → Tracks (history pages []) (simulate pages init)
simulate-init-Tracks pages = simulate-Tracks pages [] init Tracks-init
