-- ===== src/Base/Strings.antt =====
-- C strings as lists of bytes, without the terminator.
use Prim.Native.Char.{code}
use Prim.Native.String.{String}
use Prim.Native.Nat.{ℕ}
use mathlib.Core.Path.{◌≡◌, refl}
use mathlib.Core.Bool.{Bool, true, false, ◌&&◌}
use mathlib.Core.List.{List, [], ◌∷◌}
use mathlib.Core.Logic.{◌↔◌}
use native.Mathlib.Omega.{arith}
use genspark_training.Base.Tests.{◌==◌}
use genspark_training.Base.Lists.{take}

abbrev pub Text : Type 0
Text = List ℕ

-- The bytes of a literal.
abbrev pub bytes : String → Text
bytes String.[] = []
bytes (String.◌∷◌ c s) = code c ∷ bytes s

-- `strcmp(a, b) == 0`
unfoldable pub text_eq : Text → Text → Bool
text_eq [] [] = true
text_eq [] (y ∷ b) = false
text_eq (x ∷ a) [] = false
text_eq (x ∷ a) (y ∷ b) = (x == y) && text_eq a b

-- `strncpy(dst, src, n)`: the first `n` bytes; the zeros that pad the rest are not kept.
abbrev pub strncpy : ℕ → Text → Text
strncpy = take

text_eq→eq : (a b : Text) → text_eq a b ≡ true → a ≡ b
unfolding text_eq
text_eq→eq [] [] h = refl
text_eq→eq [] (y ∷ b) h = ground arith
text_eq→eq (x ∷ a) [] h = ground arith
text_eq→eq (x ∷ a) (y ∷ b) h = ground (arith, text_eq→eq a b)

pub text_eq_refl : (a : Text) → text_eq a a ≡ true
unfolding text_eq
text_eq_refl [] = refl
text_eq_refl (x ∷ a) = ground (arith, text_eq_refl a)

eq→text_eq : (a b : Text) → a ≡ b → text_eq a b ≡ true
eq→text_eq a b e = rw e (text_eq_refl b)

pub text_eq_iff : (a b : Text) → (text_eq a b ≡ true) ↔ (a ≡ b)
text_eq_iff a b = (text_eq→eq a b, eq→text_eq a b)
