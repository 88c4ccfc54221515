-- ===== src/BlockCache/Hits.antt =====
-- A hit in the block cache of filesystem.c: what the lookup finds, and that moving it keeps the invariant.
use mathlib.Core.Path.{subst}
use genspark_training.Base.{
  ℕ, ◌≡◌, refl, sym, ap, ◌∙◌, ◌⊎◌, inl, inr, true, Option, none, some, List, [], ◌∷◌, ◌++◌, Text,
  text_eq, text_eq_iff, length, length-append, Has, Has-append, Has-right, Has-either, ◌==◌, arith,
  Bool-cases,
}
use genspark_training.BlockCache.{Cache, hash, find_node, movetofront}
use genspark_training.BlockCache.Lookup.{first, from_node, InList, find_node-first}
use genspark_training.BlockCache.Recency.{SameNodes, movetofront-IsList}
use genspark_training.BlockCache.Contents.{InBucket, reordered-IsContent}
use genspark_training.BlockCache.Valid.{IsValid}

-- What the lookup finds is in the list and has the key.
first-Has :
    (keys : ℕ → Text) (key : Text) (l : List ℕ)
    → (first keys key l ≡ none)
      ⊎ ((a : ℕ) × (first keys key l ≡ some a) × Has a l × (text_eq (keys a) key ≡ true))
first-Has keys key [] = inl refl
first-Has keys key (a ∷ l) = elim (Bool-cases (text_eq (keys a) key)) [
  | inl e ↦ inr (a, rw e refl, inl refl, e)
  | inr e ↦ elim (first-Has keys key l) [
    | inl none_left ↦ inl (rw e none_left)
    | inr (b, f, h, g) ↦ inr (b, rw e f, inr h, g)
  ]
]

from_node-Has : (o : Option ℕ) (l : List ℕ) (a : ℕ) → Has a (from_node o l) → Has a l
from_node-Has none l a h = absurd h
from_node-Has (some b) [] a h = absurd h
from_node-Has (some b) (c ∷ l) a h = elim (Bool-cases (b == c)) [
  | inl e ↦ (let f : from_node (some b) (c ∷ l) ≡ c ∷ l = rw e refl in subst (Has a) f h)
  | inr e ↦
      (let f : from_node (some b) (c ∷ l) ≡ from_node (some b) l = rw e refl in
        inr (from_node-Has (some b) l a (subst (Has a) f h)))
]

InBucket-InList :
    (key : ℕ → Text) (l : List ℕ) (i : ℕ) (o : Option ℕ) → InBucket key l i o → InList o l
InBucket-InList key l i none h = tt
InBucket-InList key l i (some b) h = h.0

module _ (disk : Text → Text) (key : Text) (s : Cache) (l free : List ℕ) where
  pub lookup_cases :
      IsValid disk s l free 0
      → (find_node key s ≡ some none)
        ⊎ ((a : ℕ) × (find_node key s ≡ some (some a)) × Has a l × (s.key a ≡ key))
  lookup_cases v =
      let e =
        find_node-first key s l v.list v.counted (
          InBucket-InList s.key l (hash key) (s.nodes (hash key)) (v.content.buckets (hash key))) in
      elim (first-Has s.key key (from_node (s.nodes (hash key)) l)) [
        | inl f ↦ inl (e ∙ ap some f)
        | inr (a, f, h, g) ↦ inr (
          a,
          e ∙ ap some f,
          from_node-Has (s.nodes (hash key)) l a h,
          (text_eq_iff (s.key a) key).0 g,
        )
      ]

-- A node is moved to the front.
module _ (disk : Text → Text) (a : ℕ) (s : Cache) (xs ys free : List ℕ) where
  front_of : (c : ℕ) → Has c (xs ++ a ∷ ys) → Has c (a ∷ (xs ++ ys))
  front_of c h = elim (Has-either c xs (a ∷ ys) h) [
    | inl k ↦ inr (Has-append c xs ys k)
    | inr k ↦ elim k [ inl e ↦ inl e | inr m ↦ inr (Has-right c xs ys m) ]
  ]

  back_of : (c : ℕ) → Has c (a ∷ (xs ++ ys)) → Has c (xs ++ a ∷ ys)
  back_of c (inl e) = Has-right c xs (a ∷ ys) (inl e)
  back_of c (inr h) = elim (Has-either c xs ys h) [
    | inl k ↦ Has-append c xs (a ∷ ys) k
    | inr k ↦ Has-right c xs (a ∷ ys) (inr k)
  ]

  moved_length : length (a ∷ (xs ++ ys)) ≡ length (xs ++ a ∷ ys)
  moved_length =
      let e = length-append xs ys in let f = length-append xs (a ∷ ys) in omega (arith, e, f)

  pub movetofront-IsValid :
      IsValid disk s (xs ++ a ∷ ys) free 0
      → (s' : Cache) × (movetofront a s ≡ some s')
        × IsValid disk s' (a ∷ (xs ++ ys)) free 0
        × SameNodes s s'
  movetofront-IsValid v =
      let (s', e, w, same) = movetofront-IsList a xs ys s v.list in
      (
        s',
        e,
        record {
          list = w;
          content =
              rw (same.key, same.buffers, same.nodes, same.fresh, same.pool)
                (reordered-IsContent disk s.key s.buffers s.nodes s.fresh s.pool (xs ++ a ∷ ys) free
                  v.content (a ∷ (xs ++ ys)) front_of back_of);
          counted = same.count ∙ (v.counted ∙ sym moved_length);
          room = (let m = moved_length in omega (arith, v.room, m));
          total = (let m = moved_length in omega (arith, v.total, m));
        },
        same,
      )
