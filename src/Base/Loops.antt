-- ===== src/Base/Loops.antt =====
-- The loop `for (i = from; i < n; i++) if (test(i)) …; break;` over an array.
use Prim.Native.Nat.{ℕ, zero, suc, ◌+◌, ◌≤◌, ◌<◌}
use mathlib.Core.Path.{◌≡◌}
use mathlib.Core.Bool.{Bool, true, false}
use mathlib.Core.Option.{Option, none, some}
use native.Mathlib.Omega.{arith}
use native.Mathlib.Decide.{ℕ_discrete}
use genspark_training.Base.Tests.{if◌then◌else◌}

-- The first index from `i` on, with `rounds` rounds left, that passes the test.
unfoldable pub find_first : (ℕ → Bool) → (i rounds : ℕ) → Option ℕ
find_first test i zero = none
find_first test i (suc n) = if test i then some i else find_first test (suc i) n

pub find_first-some :
    (test : ℕ → Bool) (i n k : ℕ)
    → find_first test i n ≡ some k
    → (test k ≡ true) × (i ≤ k) × (k < i + n)
unfolding find_first
find_first-some test i zero k h = absurd (ground arith)
find_first-some test i (suc n) k h = ground (arith, find_first-some test (suc i) n k)

pub find_first-none :
    (test : ℕ → Bool) (i n k : ℕ) → find_first test i n ≡ none → i ≤ k → k < i + n → test k ≡ false
unfolding find_first
find_first-none test i zero k h p q = absurd (omega arith)
find_first-none test i (suc n) k h p q = elim (ℕ_discrete i k) [
  | yes e ↦ ground arith
  | no e ↦ ground (arith, find_first-none test (suc i) n k)
]
