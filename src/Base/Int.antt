-- ===== src/Base/Int.antt =====
-- The integers over the native numbers: `negsuc n` is -(n + 1).
use Prim.Native.Nat.{ℕ, zero, suc, ◌+◌, ◌-◌}
use mathlib.Core.Path.{◌≡◌}
use mathlib.Core.Bool.{Bool, true, false}
use mathlib.Core.Logic.{◌↔◌}
use native.Mathlib.Omega.{arith}
use genspark_training.Base.Tests.{◌==◌, ltb, if◌then◌else◌}

pub data ℤ : Type 0 where
  pos : ℕ → ℤ
  negsuc : ℕ → ℤ

-- `==` on `int`.
abbrev pub int_eq : ℤ → ℤ → Bool
int_eq (pos a) (pos b) = a == b
int_eq (pos a) (negsuc b) = false
int_eq (negsuc a) (pos b) = false
int_eq (negsuc a) (negsuc b) = a == b

int_eq→eq : (a b : ℤ) → int_eq a b ≡ true → a ≡ b
int_eq→eq (pos a) (pos b) h = ground (arith, h)
int_eq→eq (pos a) (negsuc b) h = absurd (ground arith)
int_eq→eq (negsuc a) (pos b) h = absurd (ground arith)
int_eq→eq (negsuc a) (negsuc b) h = ground (arith, h)

pub int_eq_refl : (a : ℤ) → int_eq a a ≡ true
int_eq_refl (pos a) = ground arith
int_eq_refl (negsuc a) = ground arith

eq→int_eq : (a b : ℤ) → a ≡ b → int_eq a b ≡ true
eq→int_eq a b e = rw e (int_eq_refl b)

pub int_eq_iff : (a b : ℤ) → (int_eq a b ≡ true) ↔ (a ≡ b)
int_eq_iff a b = (int_eq→eq a b, eq→int_eq a b)

abbrev pub int_neg : ℤ → ℤ
int_neg (pos zero) = pos zero
int_neg (pos (suc a)) = negsuc a
int_neg (negsuc a) = pos (suc a)

abbrev pub int_add : ℤ → ℤ → ℤ
int_add (pos a) (pos b) = pos (a + b)
int_add (pos a) (negsuc b) = if ltb b a then pos (a - suc b) else negsuc (b - a)
int_add (negsuc a) (pos b) = if ltb a b then pos (b - suc a) else negsuc (a - b)
int_add (negsuc a) (negsuc b) = negsuc (suc (a + b))

-- By the sizes of the numbers, with the sign of their product.
abbrev pub int_by_size : (ℕ → ℕ → ℕ) → ℤ → ℤ → ℤ
int_by_size f (pos a) (pos b) = pos (f a b)
int_by_size f (pos a) (negsuc b) = int_neg (pos (f a (suc b)))
int_by_size f (negsuc a) (pos b) = int_neg (pos (f (suc a) b))
int_by_size f (negsuc a) (negsuc b) = pos (f (suc a) (suc b))

abbrev pub int_lt : ℤ → ℤ → Bool
int_lt (pos a) (pos b) = ltb a b
int_lt (pos a) (negsuc b) = false
int_lt (negsuc a) (pos b) = true
int_lt (negsuc a) (negsuc b) = ltb b a
