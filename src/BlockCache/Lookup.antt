-- ===== src/BlockCache/Lookup.antt =====
-- What a lookup in the block cache of filesystem.c sees: a chain of the hash table runs along `next`, which
-- is the list by recency, so it is the part of that list from the node of the bucket on.
use genspark_training.Base.{
  Without, IsDistinct, Has, All-append, split_at, ℕ, zero, suc, ◌+◌, ◌<◌, ◌≡◌, refl, sym, ap, ◌∙◌,
  ◌≢◌, inl, inr, true, false, Option, none, some, List, [], ◌∷◌, ◌++◌, Text, text_eq, All, length,
  length-append, ◌==◌, if◌then◌else◌, arith, Bool-cases,
}
use mathlib.Core.Path.{subst}
use genspark_training.BlockCache.{Cache, hash, find_from, find_node}
use genspark_training.BlockCache.Links.{head_of, last_of, Nexts, Backs}

-- The first of the nodes that has the key.
abbrev pub first : (ℕ → Text) → Text → List ℕ → Option ℕ
first keys key [] = none
first keys key (a ∷ l) =
    let rest = first keys key l in if text_eq (keys a) key then some a else rest

-- The list by recency: its links, its ends, and that its nodes are live.
pub record IsList (s : Cache) (l : List ℕ) : Type 0 where
  pub nexts : Nexts s.next l
  pub backs : Backs s.prev none l
  pub distinct : IsDistinct l
  pub alive : All (λ a. s.live a ≡ true) l
  pub at_head : s.head ≡ head_of l
  pub at_tail : s.tail ≡ last_of none l

pub find_from-first :
    (fuel : ℕ) (key : Text) (s : Cache) (l : List ℕ)
    → length l < fuel
    → All (λ a. s.live a ≡ true) l
    → Nexts s.next l
    → find_from fuel key (head_of l) s ≡ some (first s.key key l)
unfolding find_from
find_from-first zero key s l h v n = absurd (omega arith)
find_from-first (suc fuel) key s [] h v n = refl
find_from-first (suc fuel) key s (a ∷ l) h v n =
    let rest = find_from-first fuel key s l (omega (arith, h)) v.1 n.1 in
    elim (Bool-cases (text_eq (s.key a) key)) [
      | inl e ↦ rw (v.0, e) refl
      | inr e ↦ rw (v.0, e, n.0) rest
    ]

-- The nodes from an address on.
abbrev pub from_node : Option ℕ → List ℕ → List ℕ
from_node none l = []
from_node (some b) [] = []
from_node (some b) (a ∷ l) = if b == a then a ∷ l else from_node (some b) l

Nexts-append : (next : ℕ → Option ℕ) (xs ys : List ℕ) → Nexts next (xs ++ ys) → Nexts next ys
Nexts-append next [] ys h = h
Nexts-append next (x ∷ xs) ys h = Nexts-append next xs ys h.1

pub from_node-append :
    (b : ℕ) (xs ys : List ℕ) → Without b xs → from_node (some b) (xs ++ b ∷ ys) ≡ b ∷ ys
from_node-append b [] ys h = let self : (b == b) ≡ true = ground arith in rw self refl
from_node-append b (x ∷ xs) ys h =
    let other : (b == x) ≡ false = ground (arith, h.0) in rw other (from_node-append b xs ys h.1)

pub front-Without : (b : ℕ) (xs ys : List ℕ) → IsDistinct (xs ++ b ∷ ys) → Without b xs
front-Without b [] ys d = tt
front-Without b (x ∷ xs) ys d =
    let v = (All-append (λ c. c ≢ x) xs (b ∷ ys) d.0).1 in
    ((λ e. v.0 (sym e)), front-Without b xs ys d.1)

-- The node of a bucket is in the list.
abbrev pub InList : Option ℕ → List ℕ → Type 0
InList none l = Unit
InList (some b) l = Has b l

find_at :
    (key : Text) (s : Cache) (l : List ℕ) (start : Option ℕ)
    → IsList s l
    → s.count ≡ length l
    → InList start l
    → find_from (suc (suc s.count)) key start s ≡ some (first s.key key (from_node start l))
unfolding find_from
find_at key s l none v c h = refl
find_at key s l (some b) v c h =
    let (xs, ys, e) = split_at b l h in
    let w : IsList s (xs ++ b ∷ ys) = subst (IsList s) e v in
    let long : s.count ≡ length xs + suc (length ys) =
      c ∙ (ap length e ∙ length-append xs (b ∷ ys)) in
    rw (e, from_node-append b xs ys (front-Without b xs ys w.distinct))
      (find_from-first (suc (suc s.count)) key s (b ∷ ys) (omega (arith, long))
        (All-append (λ a. s.live a ≡ true) xs (b ∷ ys) w.alive).1
        (Nexts-append s.next xs (b ∷ ys) w.nexts))

-- A lookup ends, without following NULL or a freed node, and finds the first node with the key among
-- those from the node of the bucket on, in the order of recency.
pub find_node-first :
    (key : Text) (s : Cache) (l : List ℕ)
    → IsList s l
    → s.count ≡ length l
    → InList (s.nodes (hash key)) l
    → find_node key s ≡ some (first s.key key (from_node (s.nodes (hash key)) l))
unfolding find_node
find_node-first key s l v c h = find_at key s l (s.nodes (hash key)) v c h

pub Has-middle : (b : ℕ) (xs ys : List ℕ) → Has b (xs ++ b ∷ ys)
Has-middle b [] ys = inl refl
Has-middle b (x ∷ xs) ys = inr (Has-middle b xs ys)
