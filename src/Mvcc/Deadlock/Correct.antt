-- ===== src/Mvcc/Deadlock/Correct.antt =====
-- `dfs_cycle` finds a cycle of the wait-for graph exactly when there is one, and has enough fuel.
use genspark_training.Base.{
  ℕ, zero, suc, ◌+◌, ◌≤◌, ◌<◌, ◌≡◌, refl, ◌⊎◌, inl, inr, Bool, true, false, update, if◌then◌else◌,
  arith, none, some, Bool-cases, ◌↔◌, dec_lt, ℕ_discrete, sym, ◌∙◌,
}
use genspark_training.Mvcc.Deadlock.{
  Search, Outcome, after_call, probe, unless_found, scan, mark, dfs_cycle, search_from, detect,
  detect_deadlock, is_found, max_transactions,
}
use genspark_training.Mvcc.Deadlock.Graph.{
  unvisited, unvisited_mono, unvisited-update, unvisited-le, IsFinished, Waits, one, more, Cycle,
  IsOrdered, IsLater, finished_acyclic,
}

module _ (n : ℕ) (wait_for : ℕ → ℕ → Bool) where
  -- What an outcome shows: a cycle, or a state in which `P` holds. It does not run out of fuel.
  abbrev Shows : (Search → Type 0) → Outcome → Type 0
  Shows P none = ⊥
  Shows P (some (true, s)) = Cycle n wait_for
  Shows P (some (false, s)) = P s

  Shows-unless_found :
      (P Q : Search → Type 0) (o : Outcome) (rest : Search → Outcome)
      → Shows P o
      → ((s : Search) → P s → Shows Q (rest s))
      → Shows Q (unless_found o rest)
  unfolding unless_found
  Shows-unless_found P Q none rest h k = h
  Shows-unless_found P Q (some (true, s)) rest h k = h
  Shows-unless_found P Q (some (false, s)) rest h k = k s h

  -- Behind the call of `dfs_cycle` on `u` in state `s`.
  record Done (s : Search) (u : ℕ) (s' : Search) : Type 0 where
    later : IsLater n wait_for s s'
    stack : (x : ℕ) → s'.rec_stack x ≡ s.rec_stack x
    seen : s'.visited u ≡ true

  -- Inside the call on `u`: what is on the stack waits for `u`.
  record Inside (u : ℕ) (s : Search) : Type 0 where
    ordered : IsOrdered n wait_for s
    here : s.rec_stack u ≡ true
    waits : (x : ℕ) → s.rec_stack x ≡ true → (x ≡ u) ⊎ Waits n wait_for x u

  -- Before the call on `u`.
  record Ready (fuel u : ℕ) (s : Search) : Type 0 where
    ordered : IsOrdered n wait_for s
    fresh : s.visited u ≡ false
    waits : (x : ℕ) → s.rec_stack x ≡ true → Waits n wait_for x u
    fuelled : unvisited n s.visited ≤ fuel

  -- After the tests on the edge from `u` to `v`.
  record Probed (u v : ℕ) (s s' : Search) : Type 0 where
    later : IsLater n wait_for s s'
    stack : (x : ℕ) → s'.rec_stack x ≡ s.rec_stack x
    done : wait_for u v ≡ true → IsFinished s' v

  Inside-Waits :
      (u v : ℕ) (s : Search)
      → Inside u s
      → v < n
      → wait_for u v ≡ true
      → (x : ℕ) → s.rec_stack x ≡ true
      → Waits n wait_for x v
  Inside-Waits u v s i h e x r = go (i.waits x r)
    where
      go : (x ≡ u) ⊎ Waits n wait_for x u → Waits n wait_for x v
      go (inl q) = rw q (one h e)
      go (inr p) = more p h e

  after_call_lem :
      (u v : ℕ) (s : Search) (o : Outcome)
      → IsOrdered n wait_for s
      → s.visited v ≡ false
      → Shows (Done s v) o
      → Shows (Probed u v s) (after_call v o)
  unfolding after_call
  after_call_lem u v s none q f h = h
  after_call_lem u v s (some (true, s')) q f h = h
  after_call_lem u v s (some (false, s')) q f h =
      rw off (record { later = h.later; stack = h.stack; done = λ _. (h.seen, off) })
    where
      off : s'.rec_stack v ≡ false
      off = ground (arith, h.stack v, q.stacked v)

  -- Behind the loop of the call on `u`, started in state `s`, and the assignment that follows.
  record Left (u : ℕ) (s s' : Search) : Type 0 where
    later : IsLater n wait_for s s'
    stack : (x : ℕ) → s'.rec_stack x ≡ update s.rec_stack u false x
    seen : s'.visited u ≡ true

  Shows-mono :
      (P Q : Search → Type 0) → ((s : Search) → P s → Q s) → (o : Outcome) → Shows P o → Shows Q o
  Shows-mono P Q f none h = h
  Shows-mono P Q f (some (true, s)) h = h
  Shows-mono P Q f (some (false, s)) h = f s h

  -- A finished transaction stays finished while `u` is searched.
  IsFinished-step :
      (u v : ℕ) (s s' : Search)
      → Probed u v s s'
      → ((y : ℕ) → y < v → wait_for u y ≡ true → IsFinished s y)
      → (y : ℕ) → y < suc v
      → wait_for u y ≡ true
      → IsFinished s' y
  IsFinished-step u v s s' p d y h e = elim (dec_lt y v) [
    | yes l ↦ let (seen, off) = d y l e in (p.later.grown y seen, p.stack y ∙ off)
    | no l ↦ let q : y ≡ v = omega arith in ground (arith, p.done)
  ]

  Inside-step : (u v : ℕ) (s s' : Search) → Inside u s → Probed u v s s' → Inside u s'
  Inside-step u v s s' i p = record {
    ordered = p.later.ordered;
    here = p.stack u ∙ i.here;
    waits = λ x e. i.waits x (sym (p.stack x) ∙ e);
  }

  Left-trans : (u v : ℕ) (s s' : Search) → Probed u v s s' → (t : Search) → Left u s' t → Left u s t
  Left-trans u v s s' p t l = record {
    later = record {
      ordered = l.later.ordered;
      grown = λ x e. l.later.grown x (p.later.grown x e);
    };
    stack = λ x. ground (arith, l.stack x, p.stack x);
    seen = l.seen;
  }

  -- `u` gets the highest rank: all that it waits for is finished.
  leave :
      (u : ℕ) (s : Search)
      → Inside u s
      → ((y : ℕ) → y < n → wait_for u y ≡ true → IsFinished s y)
      → Left u s (record s { rec_stack = update s.rec_stack u false })
  leave u s i d = record {
    later = record {
      ordered = record {
        rank = update o.rank u o.top;
        top = o.top + 1;
        below = λ x b. ground (arith, o.below x);
        falls = λ x y b h e. ground (arith, o.below x, o.below y, o.falls x y, d y h, i.here);
        stacked = λ x e. ground (arith, o.stacked x);
      };
      grown = λ x e. e;
    };
    stack = λ x. refl;
    seen = o.stacked u i.here;
  }
    where
      o : IsOrdered n wait_for s
      o = i.ordered

  module _ (call : ℕ → Search → Outcome) (fuel : ℕ)
      (call_lem : (v : ℕ) (s : Search) → v < n → Ready fuel v s → Shows (Done s v) (call v s)) where
    probe_lem :
        (u v : ℕ) (s : Search)
        → v < n
        → Inside u s
        → unvisited n s.visited ≤ fuel
        → Shows (Probed u v s) (probe wait_for call u v s)
    unfolding probe
    probe_lem u v s h i f = elim (Bool-cases (wait_for u v)) [
      | inr off ↦ rw off (record {
        later = record { ordered = i.ordered; grown = λ x e. e };
        stack = λ x. refl;
        done = λ e. absurd (ground arith);
      })
      | inl e ↦ elim (Bool-cases (s.visited v)) [
        | inr new ↦
            rw (e, new)
              (after_call_lem u v s (call v s) i.ordered new (
                call_lem v s h (record {
                  ordered = i.ordered;
                  fresh = new;
                  waits = Inside-Waits u v s i h e;
                  fuelled = f;
                })))
        | inl old ↦ elim (Bool-cases (s.rec_stack v)) [
          | inl on ↦ rw (e, old, on) (v, Inside-Waits u v s i h e v on)
          | inr off ↦
              rw (e, old, off)
                (record {
                  later = record { ordered = i.ordered; grown = λ x e. e };
                  stack = λ x. refl;
                  done = λ _. (old, off);
                })
        ]
      ]
    ]

    scan_lem :
        (u v k : ℕ) (s : Search)
        → v + k ≡ n
        → Inside u s
        → ((y : ℕ) → y < v → wait_for u y ≡ true → IsFinished s y)
        → unvisited n s.visited ≤ fuel
        → Shows (Left u s) (scan wait_for call u v k s)
    unfolding scan
    scan_lem u v zero s e i d f = leave u s i (λ y h. d y (omega arith))
    scan_lem u v (suc k) s e i d f =
        Shows-unless_found (Probed u v s) (Left u s) (probe wait_for call u v s)
          (scan wait_for call u (suc v) k) (probe_lem u v s (omega arith) i f)
          λ s' p.
            Shows-mono (Left u s') (Left u s) (Left-trans u v s s' p)
              (scan wait_for call u (suc v) k s')
              (scan_lem u (suc v) k s' (omega arith) (Inside-step u v s s' i p)
                (IsFinished-step u v s s' p d)
                (omega (arith, unvisited_mono n s.visited s'.visited p.later.grown)))

  mark-Inside : (fuel u : ℕ) (s : Search) → Ready fuel u s → Inside u (mark u s)
  unfolding mark
  mark-Inside fuel u s r = record {
    ordered = record {
      rank = o.rank;
      top = o.top;
      below = λ x b. ground (arith, o.below x);
      falls = λ x y b h e. ground (arith, o.falls x y, r.fresh);
      stacked = λ x e. ground (arith, o.stacked x);
    };
    here = ground arith;
    waits = λ x e. elim (ℕ_discrete x u) [ yes p ↦ inl p | no p ↦ inr (r.waits x (ground arith)) ];
  }
    where
      o : IsOrdered n wait_for s
      o = r.ordered

  Done-of_Left :
      (fuel u : ℕ) (s : Search) → Ready fuel u s → (t : Search) → Left u (mark u s) t → Done s u t
  unfolding mark
  Done-of_Left fuel u s r t l = record {
    later = record { ordered = l.later.ordered; grown = λ x e. ground (arith, l.later.grown x) };
    stack = λ x. ground (arith, l.stack x, r.ordered.stacked x, r.fresh);
    seen = l.seen;
  }

  dfs_cycle_lem :
      (fuel u : ℕ) (s : Search)
      → u < n
      → Ready fuel u s
      → Shows (Done s u) (dfs_cycle n wait_for fuel u s)
  unfolding dfs_cycle mark
  dfs_cycle_lem zero u s h r =
      absurd (omega (arith, unvisited-update n u s.visited h r.fresh, r.fuelled))
  dfs_cycle_lem (suc fuel) u s h r =
      Shows-mono (Left u (mark u s)) (Done s u) (Done-of_Left (suc fuel) u s r)
        (scan wait_for (dfs_cycle n wait_for fuel) u 0 n (mark u s))
        (scan_lem (dfs_cycle n wait_for fuel) fuel (dfs_cycle_lem fuel) u 0 n (mark u s)
          (omega arith) (mark-Inside (suc fuel) u s r) (λ y l e. absurd (omega arith))
          (omega (arith, unvisited-update n u s.visited h r.fresh, r.fuelled)))

  -- Between two calls from `detect_deadlock`: nothing is on the stack, and all below `i` is finished.
  record Between (i : ℕ) (s : Search) : Type 0 where
    ordered : IsOrdered n wait_for s
    empty : (x : ℕ) → s.rec_stack x ≡ false
    seen : (x : ℕ) → x < i → s.visited x ≡ true

  search_step :
      (i : ℕ) (s : Search)
      → i < n
      → Between i s
      → Shows
          (Between (suc i))
          (if s.visited i then some (false, s) else dfs_cycle n wait_for n i s)
  search_step i s h b = elim (Bool-cases (s.visited i)) [
    | inl old ↦
        rw old
          (record { ordered = b.ordered; empty = b.empty; seen = λ x l. ground (arith, b.seen x) })
    | inr new ↦ rw new (
        Shows-mono (Done s i) (Between (suc i))
          (λ t d. record {
            ordered = d.later.ordered;
            empty = λ x. d.stack x ∙ b.empty x;
            seen = λ x l. ground (arith, b.seen x, d.later.grown x, d.seen);
          })
          (dfs_cycle n wait_for n i s)
          (dfs_cycle_lem n i s h (record {
            ordered = b.ordered;
            fresh = new;
            waits = λ x e. absurd (ground (arith, b.empty x));
            fuelled = unvisited-le n s.visited;
          })))
  ]

  search_from_lem :
      (i k : ℕ) (s : Search)
      → i + k ≡ n
      → Between i s
      → Shows (Between n) (search_from n wait_for i k s)
  unfolding search_from
  search_from_lem i zero s e b = record {
    ordered = b.ordered;
    empty = b.empty;
    seen = λ x l. b.seen x (omega arith);
  }
  search_from_lem i (suc k) s e b =
      Shows-unless_found (Between (suc i)) (Between n)
        (if s.visited i then some (false, s) else dfs_cycle n wait_for n i s)
        (search_from n wait_for (suc i) k) (search_step i s (omega arith) b)
        (λ t c. search_from_lem (suc i) k t (omega arith) c)

  detect_lem : Shows (Between n) (detect n wait_for)
  unfolding detect
  detect_lem = search_from_lem 0 n _ (omega arith) (record {
    ordered = record {
      rank = λ _. 0;
      top = 0;
      below = λ x b. absurd (ground arith);
      falls = λ x y b h e. absurd (ground arith);
      stacked = λ x e. absurd (ground arith);
    };
    empty = λ x. refl;
    seen = λ x l. absurd (omega arith);
  })

  is_found_lem : (o : Outcome) → Shows (Between n) o → (is_found o ≡ true) ↔ Cycle n wait_for
  unfolding is_found
  is_found_lem none h = absurd h
  is_found_lem (some (true, s)) h = (λ _. h, λ _. refl)
  is_found_lem (some (false, s)) h = (
    λ e. absurd (ground arith),
    λ c. absurd (finished_acyclic s h.ordered (λ x l. (h.seen x l, h.empty x)) c),
  )

-- `detect_deadlock` returns true exactly when some transaction waits, over one edge of the wait-for
-- graph or more, for itself; the fuel of the model always suffices.
pub detect_deadlock-iff-Cycle :
    (wait_for : ℕ → ℕ → Bool) → (detect_deadlock wait_for ≡ true) ↔ Cycle max_transactions wait_for
unfolding detect_deadlock
detect_deadlock-iff-Cycle wait_for =
    is_found_lem max_transactions wait_for (detect max_transactions wait_for)
      (detect_lem max_transactions wait_for)
