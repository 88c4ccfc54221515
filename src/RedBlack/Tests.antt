-- ===== src/RedBlack/Tests.antt =====
-- R-Blacktree-file-2.c on small trees.
use genspark_training.Base.{ℕ, ◌≤◌, ◌≡◌, refl, some, List, [], ◌∷◌}
use genspark_training.RedBlack.{Color, Tree, Side, insert_all, fixinsertion, plug}
use genspark_training.RedBlack.Sorted.{IsValid, data_of, insert_each, insert_all-sorts}
use genspark_training.RedBlack.InnerCase.{IsBalanced, inner, fixinsertion-inner}

-- The values of RD-Black-tree-1.c.
abbrev values : List ℕ
values = 10 ∷ 20 ∷ 30 ∷ 15 ∷ 25 ∷ 5 ∷ 1 ∷ []

abbrev leaf : Color → ℕ → Tree
leaf c x = Tree.node c Tree.nil x Tree.nil

values-tree :
    insert_all values (Tree.nil, 0)
    ≡ some (
      Tree.node Color.black
          (Tree.node Color.red
            (Tree.node Color.black (leaf Color.red 1) 5 Tree.nil)
            10
            (leaf Color.black 15))
          20
          (Tree.node Color.black (leaf Color.red 25) 30 Tree.nil),
      1,
    )
unfolding insert_all
values-tree = refl

-- An inner grandchild.
inner-tree :
    insert_all (10 ∷ 5 ∷ 7 ∷ []) (Tree.nil, 0)
    ≡ some (Tree.node Color.black (leaf Color.black 5) 7 (leaf Color.red 10), 2)
unfolding insert_all
inner-tree = refl

insert_all-sorts_example :
    (root : Tree) × (k : ℕ) × (insert_all values (Tree.nil, 0) ≡ some (root, k))
    × IsValid root
    × (data_of root ≡ insert_each values [])
    × (k ≤ 14)
insert_all-sorts_example = insert_all-sorts values

fixinsertion-inner_example :
    (root : Tree) × (n : ℕ) × (fixinsertion
        (inner Side.left Tree.nil Tree.nil Tree.nil Tree.nil 7 5 10 Color.black [] 0)
      ≡ some (root, n))
    × (IsBalanced root → ⊥)
unfolding plug
fixinsertion-inner_example =
    fixinsertion-inner Side.left Tree.nil Tree.nil Tree.nil Tree.nil 7 5 10 Color.black [] 0 refl
      (refl, (refl, tt, (refl, tt, tt)), tt)
