-- ===== src/Mvcc/Deadlock/Graph.antt =====
-- Cycles of the wait-for graph, the independent description of a deadlock, and the ghost state of the
-- search: an order in which finished transactions wait only for earlier ones.
use genspark_training.Base.{
  ℕ, zero, suc, ◌+◌, ◌≤◌, ◌<◌, ◌≡◌, refl, Bool, true, false, update, if◌then◌else◌, arith,
}
use genspark_training.Mvcc.Deadlock.{Search}

-- How many of the first `n` transactions are not visited.
abbrev pub unvisited : ℕ → (ℕ → Bool) → ℕ
unvisited zero visited = 0
unvisited (suc n) visited = (if visited n then 0 else 1) + unvisited n visited

pub unvisited_mono :
    (n : ℕ) (a b : ℕ → Bool) → ((x : ℕ) → a x ≡ true → b x ≡ true) → unvisited n b ≤ unvisited n a
unvisited_mono zero a b h = omega arith
unvisited_mono (suc n) a b h = ground (arith, unvisited_mono n a b h, h n)

unvisited-update_ge :
    (n u : ℕ) (a : ℕ → Bool) → n ≤ u → unvisited n (update a u true) ≡ unvisited n a
unvisited-update_ge zero u a h = refl
unvisited-update_ge (suc n) u a h = ground (arith, unvisited-update_ge n u a)

pub unvisited-update :
    (n u : ℕ) (a : ℕ → Bool)
    → u < n
    → a u ≡ false
    → unvisited n (update a u true) + 1 ≡ unvisited n a
unvisited-update zero u a h e = absurd (omega arith)
unvisited-update (suc n) u a h e = ground (arith, unvisited-update n u a, unvisited-update_ge n u a)

pub unvisited-le : (n : ℕ) (a : ℕ → Bool) → unvisited n a ≤ n
unvisited-le zero a = omega arith
unvisited-le (suc n) a = ground (arith, unvisited-le n a)

-- A transaction whose call of `dfs_cycle` has returned.
abbrev pub IsFinished : Search → ℕ → Type 0
IsFinished s x = (s.visited x ≡ true) × (s.rec_stack x ≡ false)

module _ (n : ℕ) (wait_for : ℕ → ℕ → Bool) where
  -- `x` waits for `y`, over one edge or more.
  pub data Waits (x : ℕ) : ℕ → Type 0 where
    one : {y : ℕ} → y < n → wait_for x y ≡ true → Waits x y
    more : {y z : ℕ} → Waits x y → z < n → wait_for y z ≡ true → Waits x z

  -- Some transaction waits for itself.
  abbrev pub Cycle : Type 0
  Cycle = (x : ℕ) × Waits x x

  pub record IsOrdered (s : Search) : Type 0 where
    pub rank : ℕ → ℕ
    pub top : ℕ
    pub below : (x : ℕ) → IsFinished s x → rank x < top
    pub falls :
        (x y : ℕ)
        → IsFinished s x
        → y < n
        → wait_for x y ≡ true
        → IsFinished s y × (rank y < rank x)
    pub stacked : (x : ℕ) → s.rec_stack x ≡ true → s.visited x ≡ true

  -- `s'` is a later state of a search, behind a loop that found nothing.
  pub record IsLater (s s' : Search) : Type 0 where
    pub ordered : IsOrdered s'
    pub grown : (x : ℕ) → s.visited x ≡ true → s'.visited x ≡ true

pub Waits-trans :
    {n : ℕ} {wait_for : ℕ → ℕ → Bool} {x y z : ℕ}
    → Waits n wait_for x y
    → Waits n wait_for y z
    → Waits n wait_for x z
Waits-trans p (one h e) = more p h e
Waits-trans p (more q h e) = more (Waits-trans p q) h e

-- Along a path from a finished transaction the rank falls.
pub Waits-falls :
    {n : ℕ} {wait_for : ℕ → ℕ → Bool} (s : Search) (o : IsOrdered n wait_for s) {x y : ℕ}
    → Waits n wait_for x y
    → IsFinished s x
    → IsFinished s y × (o.rank y < o.rank x)
Waits-falls s o {x} (one {y = y} h e) b = o.falls x y b h e
Waits-falls s o {x} (more {y = y} {z = z} p h e) b =
    let (by, ly) = Waits-falls s o p b in let (bz, lz) = o.falls y z by h e in (bz, omega arith)

pub finished_acyclic :
    {n : ℕ} {wait_for : ℕ → ℕ → Bool} (s : Search)
    → IsOrdered n wait_for s
    → ((x : ℕ) → x < n → IsFinished s x)
    → ¬ Cycle n wait_for
finished_acyclic s o all (x, p) = let (b, l) = Waits-falls s o p (all x (target p)) in omega arith
  where
    target : {n : ℕ} {wait_for : ℕ → ℕ → Bool} {x y : ℕ} → Waits n wait_for x y → y < n
    target (one h e) = h
    target (more p h e) = h
