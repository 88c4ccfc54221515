-- ===== src/RedBlack/Sorted.antt =====
-- R-Blacktree-file-2.c sorts: an insertion puts its number into the sequence that `inorder` prints.
use genspark_training.Base.{
  ℕ, suc, ◌+◌, ◌*◌, ◌≤◌, ◌<◌, ◌≡◌, ◌≢◌, refl, sym, ap, ◌∙◌, inl, inr, false, some, List, [], ◌∷◌,
  ◌++◌, map, All, ltb, length, if◌then◌else◌, arith, Bool-cases,
}
use mathlib.Core.Path.{subst}
use mathlib.Core.List.{append-nil}
use genspark_training.RedBlack.{
  Color, Tree, Side, Frame, Cursor, context, rotations, is_red_color, is_red, recolored, plug,
  root_of, fixinsertion, descend, insertion, insert_all, inorder,
}
use genspark_training.RedBlack.Inorder.{inorder_onto, Anchored, Ready}
use genspark_training.RedBlack.Loop.{fix_loop-Fixed}

-- The numbers that `inorder` prints.
abbrev pub data_of : Tree → List ℕ
data_of t = map (λ p. p.0) (inorder t)

-- Behind the last element that is not larger.
abbrev pub insert_after : ℕ → List ℕ → List ℕ
insert_after x [] = x ∷ []
insert_after x (y ∷ ys) = if ltb x y then x ∷ (y ∷ ys) else y ∷ insert_after x ys

abbrev pub IsSorted : List ℕ → Type 0
IsSorted [] = Unit
IsSorted (x ∷ xs) = All (λ y. x ≤ y) xs × IsSorted xs

map-onto :
    (ps qs : List (ℕ × Color)) (acc : List ℕ)
    → map (λ p. p.0) (ps ++ qs) ++ acc ≡ map (λ p. p.0) ps ++ (map (λ p. p.0) qs ++ acc)
map-onto [] qs acc = refl
map-onto (p ∷ ps) qs acc = ap (λ l. p.0 ∷ l) (map-onto ps qs acc)

inorder-onto : (t : Tree) (acc : List ℕ) → data_of t ++ acc ≡ inorder_onto t acc
unfolding inorder
inorder-onto Tree.nil acc = refl
inorder-onto (Tree.node c l x r) acc =
    map-onto (inorder l) ((x, c) ∷ inorder r) acc
    ∙ (ap (λ q. data_of l ++ (x ∷ q)) (inorder-onto r acc)
        ∙ inorder-onto l (x ∷ inorder_onto r acc))

data_of-onto : (t : Tree) → data_of t ≡ inorder_onto t []
data_of-onto t = sym (append-nil (data_of t)) ∙ inorder-onto t []

-- The search tree insertion without a fix-up.
abbrev pub place : ℕ → Tree → Tree
place x Tree.nil = Tree.node Color.red Tree.nil x Tree.nil
place x (Tree.node c l y r) =
    let in_left = Tree.node c (place x l) y r in
    let in_right = Tree.node c l y (place x r) in if ltb x y then in_left else in_right

plug-descend :
    (x : ℕ) (t : Tree) (fs : List Frame)
    → plug (Tree.node Color.red Tree.nil x Tree.nil) (descend x t fs) ≡ plug (place x t) fs
unfolding plug descend
plug-descend x Tree.nil fs = refl
plug-descend x (Tree.node c l y r) fs = elim (Bool-cases (ltb x y)) [
  | inl e ↦ rw e (plug-descend x l (Frame.frame Side.left c y r ∷ fs))
  | inr e ↦ rw e (plug-descend x r (Frame.frame Side.right c y l ∷ fs))
]

descend-Anchored :
    (x : ℕ) (t : Tree) (f : Frame) (fs : List Frame)
    → Anchored (f ∷ fs)
    → Anchored (descend x t (f ∷ fs))
unfolding descend
descend-Anchored x Tree.nil f fs h = h
descend-Anchored x (Tree.node c l y r) f fs h = elim (Bool-cases (ltb x y)) [
  | inl e ↦ rw e (descend-Anchored x l (Frame.frame Side.left c y r) (f ∷ fs) h)
  | inr e ↦ rw e (descend-Anchored x r (Frame.frame Side.right c y l) (f ∷ fs) h)
]

black-of : (c : Color) → is_red_color c ≡ false → c ≡ Color.black
black-of Color.red h = absurd (ground arith)
black-of Color.black h = refl

descend-root : (x : ℕ) (t : Tree) → is_red t ≡ false → Anchored (descend x t [])
unfolding descend
descend-root x Tree.nil h = tt
descend-root x (Tree.node c l y r) h = elim (Bool-cases (ltb x y)) [
  | inl e ↦ rw e (descend-Anchored x l (Frame.frame Side.left c y r) [] (black-of c h))
  | inr e ↦ rw e (descend-Anchored x r (Frame.frame Side.right c y l) [] (black-of c h))
]

All-onto :
    (z : ℕ) (t : Tree) (acc : List ℕ) → All (λ y. z ≤ y) (inorder_onto t acc) → All (λ y. z ≤ y) acc
All-onto z Tree.nil acc h = h
All-onto z (Tree.node c l x r) acc h = All-onto z r acc (All-onto z l (x ∷ inorder_onto r acc) h).1

onto-IsSorted : (t : Tree) (acc : List ℕ) → IsSorted (inorder_onto t acc) → IsSorted acc
onto-IsSorted Tree.nil acc h = h
onto-IsSorted (Tree.node c l x r) acc h =
    onto-IsSorted r acc (onto-IsSorted l (x ∷ inorder_onto r acc) h).1

-- Past the part that is not larger.
insert_after-onto :
    (x y : ℕ) (t : Tree) (rest : List ℕ)
    → IsSorted (inorder_onto t (y ∷ rest))
    → y ≤ x
    → insert_after x (inorder_onto t (y ∷ rest)) ≡ inorder_onto t (y ∷ insert_after x rest)
insert_after-onto x y Tree.nil rest s p = ground arith
insert_after-onto x y (Tree.node c a z b) rest s p =
    let tail = onto-IsSorted a (z ∷ inorder_onto b (y ∷ rest)) s in
    let below : z ≤ y = (All-onto z b (y ∷ rest) tail.0).0 in
    insert_after-onto x z a (inorder_onto b (y ∷ rest)) s (omega (arith, below))
    ∙ ap (λ l. inorder_onto a (z ∷ l)) (insert_after-onto x y b rest tail.1 p)

abbrev pub Below : ℕ → List ℕ → Type 0
Below x [] = Unit
Below x (y ∷ ys) = x < y

onto-place :
    (x : ℕ) (t : Tree) (acc : List ℕ)
    → IsSorted (inorder_onto t acc)
    → Below x acc
    → inorder_onto (place x t) acc ≡ insert_after x (inorder_onto t acc)
onto-place x Tree.nil [] s b = refl
onto-place x Tree.nil (y ∷ acc) s b = ground arith
onto-place x (Tree.node c l y r) acc s b = elim (Bool-cases (ltb x y)) [
  | inl e ↦ rw e (onto-place x l (y ∷ inorder_onto r acc) s (ground arith))
  | inr e ↦ rw e (
      ap (λ q. inorder_onto l (y ∷ q))
        (onto-place x r acc (onto-IsSorted l (y ∷ inorder_onto r acc) s).1 b)
      ∙ sym (insert_after-onto x y l (inorder_onto r acc) s (ground arith)))
]

insert_after-All :
    (z x : ℕ) (l : List ℕ) → z ≤ x → All (λ y. z ≤ y) l → All (λ y. z ≤ y) (insert_after x l)
insert_after-All z x [] p h = (p, tt)
insert_after-All z x (y ∷ l) p h = elim (Bool-cases (ltb x y)) [
  | inl e ↦ rw e (p, h)
  | inr e ↦ rw e (h.0, insert_after-All z x l p h.1)
]

All-trans : (z x : ℕ) (l : List ℕ) → z ≤ x → All (λ y. x ≤ y) l → All (λ y. z ≤ y) l
All-trans z x [] p h = tt
All-trans z x (y ∷ l) p h = (omega (arith, h.0), All-trans z x l p h.1)

insert_after-IsSorted : (x : ℕ) (l : List ℕ) → IsSorted l → IsSorted (insert_after x l)
insert_after-IsSorted x [] h = (tt, tt)
insert_after-IsSorted x (y ∷ l) h = elim (Bool-cases (ltb x y)) [
  | inl e ↦ let p : x ≤ y = ground arith in rw e ((p, All-trans x y l p h.0), h)
  | inr e ↦ rw e (insert_after-All y x l (ground arith) h.0, insert_after-IsSorted x l h.1)
]

-- A black root and the numbers in order.
pub record IsValid (root : Tree) : Type 0 where
  pub black_root : is_red root ≡ false
  pub sorted : IsSorted (data_of root)

nonempty : (x : ℕ) (l : List ℕ) → insert_after x l ≢ []
nonempty x [] h = absurd (ground arith)
nonempty x (y ∷ l) h = absurd (ground arith)

-- The root gets black.
recolored-total :
    (t : Tree) (x : ℕ) (l : List ℕ)
    → inorder_onto t [] ≡ insert_after x l
    → (t' : Tree) × (recolored Color.black t ≡ some t')
      × (is_red t' ≡ false)
      × (inorder_onto t' [] ≡ insert_after x l)
recolored-total Tree.nil x l h = absurd (nonempty x l (sym h))
recolored-total (Tree.node c a z b) x l h = (Tree.node Color.black a z b, refl, refl, h)

fixinsertion-total :
    (z : Cursor) (x : ℕ) (l : List ℕ)
    → Ready z
    → inorder_onto (root_of z) [] ≡ insert_after x l
    → (t : Tree) × (k : ℕ) × (fixinsertion z ≡ some (t, k))
      × (is_red t ≡ false)
      × (inorder_onto t [] ≡ insert_after x l)
      × (k ≤ rotations z + 2)
unfolding fixinsertion
fixinsertion-total z x l r h =
    let (z', loop, f) = fix_loop-Fixed (suc (length (context z))) z (omega arith) r in
    let (t, e, b, o) = recolored-total (root_of z') x l (sym (f.order []) ∙ h) in
    (t, rotations z', rw (loop, e) refl, b, o, f.turns)

-- An insertion into a sorted tree with a black root ends without following NULL; it gives such a tree
-- again, in which `inorder` prints the new number behind those that are not larger, and makes at most two
-- rotations.
pub insertion-IsValid :
    (x : ℕ) (root : Tree) (k : ℕ)
    → IsValid root
    → (root' : Tree) × (k' : ℕ) × (insertion x (root, k) ≡ some (root', k'))
      × IsValid root'
      × (data_of root' ≡ insert_after x (data_of root))
      × (k' ≤ k + 2)
unfolding insertion
insertion-IsValid x root k v =
    let leaf = Tree.node Color.red Tree.nil x Tree.nil in
    let placed =
      ap (λ t. inorder_onto t []) (plug-descend x root [])
      ∙ (onto-place x root [] (subst IsSorted (data_of-onto root) v.sorted) tt
          ∙ ap (insert_after x) (sym (data_of-onto root))) in
    let (t, k', e, b, o, few) =
      fixinsertion-total (Cursor.cursor leaf (descend x root []) k) x (data_of root)
        (inr (descend-root x root v.black_root)) placed in
    let same = data_of-onto t ∙ o in
    (
      t,
      k',
      e,
      record {
        black_root = b;
        sorted = subst IsSorted (sym same) (insert_after-IsSorted x (data_of root) v.sorted);
      },
      same,
      few,
    )

-- The numbers inserted one after the other.
abbrev pub insert_each : List ℕ → List ℕ → List ℕ
insert_each [] l = l
insert_each (x ∷ xs) l = insert_each xs (insert_after x l)

insert_all-from :
    (xs : List ℕ) (root : Tree) (k : ℕ)
    → IsValid root
    → (root' : Tree) × (k' : ℕ) × (insert_all xs (root, k) ≡ some (root', k'))
      × IsValid root'
      × (data_of root' ≡ insert_each xs (data_of root))
      × (k' ≤ k + 2 * length xs)
unfolding insert_all
insert_all-from [] root k v = (root, k, refl, v, refl, omega arith)
insert_all-from (x ∷ xs) root k v =
    let (t, k', e, v', o, few) = insertion-IsValid x root k v in
    let (t'', k'', e', v'', o', few') = insert_all-from xs t k' v' in
    (t'', k'', rw e e', v'', o' ∙ ap (insert_each xs) o, omega (arith, few, few'))

-- The program sorts: whatever numbers it reads, all insertions end without following NULL, `inorder`
-- prints the numbers in order, as an insertion sort gives them, the root is black, and there are at most
-- two rotations for each number.
pub insert_all-sorts :
    (xs : List ℕ)
    → (root : Tree) × (k : ℕ) × (insert_all xs (Tree.nil, 0) ≡ some (root, k))
      × IsValid root
      × (data_of root ≡ insert_each xs [])
      × (k ≤ 2 * length xs)
unfolding inorder
insert_all-sorts xs =
    let (t, k, e, v, o, few) =
      insert_all-from xs Tree.nil 0 (record { black_root = refl; sorted = tt }) in
    (t, k, e, v, o, omega (arith, few))
