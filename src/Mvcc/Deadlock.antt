-- ===== src/Mvcc/Deadlock.antt =====
-- `dfs_cycle` and `detect_deadlock` of mvcc-in-memory-key-value.c. The recursion is on fuel, the number
-- of nested calls allowed; a call starts at an unvisited transaction and marks it, so the number of
-- transactions is enough. `wait_for` is the matrix as a family of rows.
pub mod Graph
pub mod Correct
use genspark_training.Base.{
  ℕ, zero, suc, Bool, true, false, ◌||◌, not, Option, none, some, update, if◌then◌else◌,
}

abbrev pub max_transactions : ℕ
max_transactions = 5

-- The arrays `visited` and `recStack`.
pub record Search : Type 0 where
  pub visited : ℕ → Bool
  pub rec_stack : ℕ → Bool

-- `none`: the fuel ran out.
abbrev pub Outcome : Type 0
Outcome = Option (Bool × Search)

-- The tests behind a call of `dfs_cycle` on `v`: it found a cycle, or `v` is still on the stack.
unfoldable pub after_call : ℕ → Outcome → Outcome
after_call v none = none
after_call v (some (found, s)) = some (found || s.rec_stack v, s)

-- The body of the loop of `dfs_cycle`, with `call` for the recursive call. True: it returns true.
unfoldable pub probe :
    (wait_for : ℕ → ℕ → Bool) → (call : ℕ → Search → Outcome) → ℕ → ℕ → Search → Outcome
unfolding after_call
probe wait_for call u v s =
    if wait_for u v
    then if s.visited v then some (s.rec_stack v, s) else after_call v (call v s)
    else some (false, s)

-- `if (found) return true;`, else the rest of a loop.
unfoldable pub unless_found : Outcome → (Search → Outcome) → Outcome
unless_found none rest = none
unless_found (some (found, s)) rest = if found then some (true, s) else rest s

-- The loop of `dfs_cycle`, from `v` on with `rounds` rounds left, and `recStack[u] = 0` behind it.
unfoldable pub scan :
    (wait_for : ℕ → ℕ → Bool) → (call : ℕ → Search → Outcome) → (u v rounds : ℕ) → Search → Outcome
unfolding probe unless_found
scan wait_for call u v zero s = some (false, record s { rec_stack = update s.rec_stack u false })
scan wait_for call u v (suc k) s =
    unless_found (probe wait_for call u v s) (scan wait_for call u (suc v) k)

-- `visited[u] = recStack[u] = 1`
unfoldable pub mark : ℕ → Search → Search
mark u s = record { visited = update s.visited u true; rec_stack = update s.rec_stack u true }

unfoldable pub dfs_cycle : (n : ℕ) → (wait_for : ℕ → ℕ → Bool) → (fuel u : ℕ) → Search → Outcome
unfolding scan mark
dfs_cycle n wait_for zero u s = none
dfs_cycle n wait_for (suc fuel) u s = scan wait_for (dfs_cycle n wait_for fuel) u 0 n (mark u s)

-- The loop of `detect_deadlock`, from `i` on.
unfoldable pub search_from : (n : ℕ) → (wait_for : ℕ → ℕ → Bool) → (i rounds : ℕ) → Search → Outcome
unfolding dfs_cycle unless_found
search_from n wait_for i zero s = some (false, s)
search_from n wait_for i (suc k) s =
    unless_found (if s.visited i then some (false, s) else dfs_cycle n wait_for n i s)
      (search_from n wait_for (suc i) k)

unfoldable pub detect : (n : ℕ) → (wait_for : ℕ → ℕ → Bool) → Outcome
unfolding search_from
detect n wait_for =
    search_from n wait_for 0 n (record { visited = λ _. false; rec_stack = λ _. false })

unfoldable pub is_found : Outcome → Bool
is_found none = false
is_found (some (found, s)) = found

unfoldable pub detect_deadlock : (wait_for : ℕ → ℕ → Bool) → Bool
unfolding detect is_found
detect_deadlock wait_for = is_found (detect max_transactions wait_for)
