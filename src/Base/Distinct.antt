-- ===== src/Base/Distinct.antt =====
-- Lists of numbers without repetitions, and what is a member of them.
use Prim.Native.Nat.{ℕ}
use mathlib.Core.Path.{◌≡◌, sym, ap, subst}
use mathlib.Core.Logic.{◌≢◌, ◌⊎◌, inl, inr}
use mathlib.Core.List.{List, [], ◌∷◌, ◌++◌}
use genspark_training.Base.Lists.{All}

abbrev pub Without : ℕ → List ℕ → Type 0
Without a l = All (λ b. b ≢ a) l

abbrev pub IsDistinct : List ℕ → Type 0
IsDistinct [] = Unit
IsDistinct (a ∷ l) = Without a l × IsDistinct l

abbrev pub Has : ℕ → List ℕ → Type 0
Has a [] = ⊥
Has a (b ∷ l) = (a ≡ b) ⊎ Has a l

module _ (P : ℕ → Type 0) where
  pub All-append : (xs ys : List ℕ) → All P (xs ++ ys) → All P xs × All P ys
  All-append [] ys h = (tt, h)
  All-append (x ∷ xs) ys h = let (p, q) = All-append xs ys h.1 in ((h.0, p), q)

  pub append-All : (xs ys : List ℕ) → All P xs → All P ys → All P (xs ++ ys)
  append-All [] ys h k = k
  append-All (x ∷ xs) ys h k = (h.0, append-All xs ys h.1 k)

  pub All-Has : (b : ℕ) (l : List ℕ) → All P l → Has b l → P b
  All-Has b [] h k = absurd k
  All-Has b (a ∷ l) h (inl e) = subst P (sym e) h.0
  All-Has b (a ∷ l) h (inr k) = All-Has b l h.1 k

pub Has-append : (b : ℕ) (xs ys : List ℕ) → Has b xs → Has b (xs ++ ys)
Has-append b [] ys h = absurd h
Has-append b (x ∷ xs) ys (inl e) = inl e
Has-append b (x ∷ xs) ys (inr h) = inr (Has-append b xs ys h)

All-tt : (ys : List ℕ) → All (λ y. Without y []) ys
All-tt [] = tt
All-tt (y ∷ ys) = (tt, All-tt ys)

both :
    (x : ℕ) (xs ys : List ℕ)
    → Without x ys
    → All (λ y. Without y xs) ys
    → All (λ y. Without y (x ∷ xs)) ys
both x xs [] h k = tt
both x xs (y ∷ ys) h k = (((λ e. h.0 (sym e)), k.0), both x xs ys h.1 k.1)

-- The two parts of a list without repetitions have nothing in common.
pub IsDistinct-append :
    (xs ys : List ℕ)
    → IsDistinct (xs ++ ys)
    → IsDistinct xs × IsDistinct ys × All (λ y. Without y xs) ys
IsDistinct-append [] ys d = (tt, d, All-tt ys)
IsDistinct-append (x ∷ xs) ys d =
    let (p, q, r) = IsDistinct-append xs ys d.1 in
    let (u, v) = All-append (λ b. b ≢ x) xs ys d.0 in ((u, p), q, both x xs ys v r)

-- A list without one of its addresses.
pub remove-IsDistinct :
    (xs : List ℕ) (a : ℕ) (ys : List ℕ)
    → IsDistinct (xs ++ a ∷ ys)
    → IsDistinct (xs ++ ys) × Without a (xs ++ ys)
remove-IsDistinct [] a ys d = (d.1, d.0)
remove-IsDistinct (x ∷ xs) a ys d =
    let (p, q) = remove-IsDistinct xs a ys d.1 in
    let (u, v) = All-append (λ b. b ≢ x) xs (a ∷ ys) d.0 in
    ((append-All (λ b. b ≢ x) xs ys u v.1, p), ((λ e. v.0 (sym e)), q))

-- Where an address stands.
pub split_at : (a : ℕ) (l : List ℕ) → Has a l → (xs : List ℕ) × (ys : List ℕ) × (l ≡ xs ++ a ∷ ys)
split_at a [] h = absurd h
split_at a (b ∷ l) (inl e) = ([], l, ap (λ c. c ∷ l) (sym e))
split_at a (b ∷ l) (inr h) = let (xs, ys, e) = split_at a l h in (b ∷ xs, ys, ap (λ m. b ∷ m) e)

pub Has-right : (b : ℕ) (xs ys : List ℕ) → Has b ys → Has b (xs ++ ys)
Has-right b [] ys h = h
Has-right b (x ∷ xs) ys h = inr (Has-right b xs ys h)

pub Has-either : (b : ℕ) (xs ys : List ℕ) → Has b (xs ++ ys) → Has b xs ⊎ Has b ys
Has-either b [] ys h = inr h
Has-either b (x ∷ xs) ys (inl e) = inl (inl e)
Has-either b (x ∷ xs) ys (inr h) = elim (Has-either b xs ys h) [
  | inl k ↦ inl (inr k)
  | inr k ↦ inr k
]
