-- ===== src/RedBlack/InnerCase.antt =====
-- The inner case of `fixinsertion` in R-Blacktree-file-2.c: `parentnode` is not set again when `newnode`
-- moves to it.
use genspark_training.Base.{
  ℕ, zero, suc, ◌+◌, ◌<◌, ◌≡◌, refl, true, false, some, List, [], ◌∷◌, length, arith,
}
use genspark_training.RedBlack.{
  Color, Tree, Side, Frame, Cursor, context, is_red, is_running, fill, recolored, rotate_cases,
  fix_round, fix_loop, plug, root_of, fixinsertion,
}

-- The black nodes on the way down to the left.
abbrev pub black_height : Tree → ℕ
black_height Tree.nil = 0
black_height (Tree.node Color.red l x r) = black_height l
black_height (Tree.node Color.black l x r) = suc (black_height l)

-- Every way down has as many black nodes.
abbrev pub IsBalanced : Tree → Type 0
IsBalanced Tree.nil = Unit
IsBalanced (Tree.node c l x r) = (black_height l ≡ black_height r) × IsBalanced l × IsBalanced r

fill-IsBalanced : (t : Tree) (f : Frame) → IsBalanced (fill t f) → IsBalanced t
unfolding fill
fill-IsBalanced t (Frame.frame Side.left c x s) h = h.1
fill-IsBalanced t (Frame.frame Side.right c x s) h = h.2

plug-IsBalanced : (t : Tree) (fs : List Frame) → IsBalanced (plug t fs) → IsBalanced t
unfolding plug
plug-IsBalanced t [] h = h
plug-IsBalanced t (f ∷ fs) h = fill-IsBalanced t f (plug-IsBalanced (fill t f) fs h)

fill-node : (t : Tree) (f : Frame) → (fill t f ≡ Tree.nil) → ⊥
unfolding fill
fill-node t (Frame.frame Side.left c x s) h = absurd (ground arith)
fill-node t (Frame.frame Side.right c x s) h = absurd (ground arith)

plug-node : (t : Tree) (f : Frame) (fs : List Frame) → (plug t (f ∷ fs) ≡ Tree.nil) → ⊥
unfolding plug
plug-node t f [] h = fill-node t f h
plug-node t f (g ∷ fs) h = plug-node (fill t f) g fs h

recolored-IsBalanced :
    (t : Tree)
    → ((t ≡ Tree.nil) → ⊥)
    → (t' : Tree) × (recolored Color.black t ≡ some t') × (IsBalanced t' → IsBalanced t)
recolored-IsBalanced Tree.nil h = absurd (h refl)
recolored-IsBalanced (Tree.node c l x r) h = (Tree.node Color.black l x r, refl, λ b. b)

fix_loop-once :
    (n : ℕ) (z z' : Cursor)
    → 0 < n
    → is_running z ≡ true
    → fix_round z ≡ some z'
    → is_running z' ≡ false
    → fix_loop (suc n) z ≡ some z'
unfolding fix_loop
fix_loop-once zero z z' p e h e' = absurd (omega arith)
fix_loop-once (suc n) z z' p e h e' = rw (e, h, e') refl

-- The loop stops behind a round that leaves a black node at the pointer.
fixinsertion-stops :
    (z : Cursor) (t : Tree) (f : Frame) (fs : List Frame) (k : ℕ)
    → is_running z ≡ true
    → 0 < length (context z)
    → fix_round z ≡ some (Cursor.cursor t (f ∷ fs) k)
    → is_running (Cursor.cursor t (f ∷ fs) k) ≡ false
    → (root : Tree) × (n : ℕ) × (fixinsertion z ≡ some (root, n))
      × (IsBalanced root → IsBalanced (plug t (f ∷ fs)))
unfolding fixinsertion
fixinsertion-stops z t f fs k run p round stop =
    let z' = Cursor.cursor t (f ∷ fs) k in
    let (root, e, b) = recolored-IsBalanced (plug t (f ∷ fs)) (plug-node t f fs) in
    (root, k, rw (fix_loop-once (length (context z)) z z' p run round stop, e) refl, b)

abbrev pub opposite : Side → Side
opposite Side.left = Side.right
opposite Side.right = Side.left

-- `newnode` is red and an inner grandchild, its parent is red and its uncle is not.
abbrev pub inner : Side → (l r a u : Tree) → (z x y : ℕ) → Color → List Frame → ℕ → Cursor
inner s l r a u z x y c fs k =
    Cursor.cursor (Tree.node Color.red l z r)
      (Frame.frame (opposite s) Color.red x a ∷ (Frame.frame s c y u ∷ fs)) k

-- Where the loop meets an inner grandchild with a red parent and an uncle that is not red, in a tree whose
-- ways down have as many black nodes, the tree that `fixinsertion` leaves is not so.
pub fixinsertion-inner :
    (s : Side) (l r a u : Tree) (z x y : ℕ) (c : Color) (fs : List Frame) (k : ℕ)
    → is_red u ≡ false
    → IsBalanced (root_of (inner s l r a u z x y c fs k))
    → (root : Tree) × (n : ℕ) × (fixinsertion (inner s l r a u z x y c fs k) ≡ some (root, n))
      × (IsBalanced root → ⊥)
unfolding fix_round rotate_cases fill plug is_running
fixinsertion-inner Side.left l r a u z x y c fs k h b =
    let before =
      plug-IsBalanced (Tree.node c (Tree.node Color.red a x (Tree.node Color.red l z r)) y u) fs
        b in
    let (root, n, e, back) =
      fixinsertion-stops (inner Side.left l r a u z x y c fs k) (Tree.node Color.black a x l)
        (Frame.frame Side.left Color.red z (Tree.node Color.red r y u)) fs (k + 1 + 1) refl
        (omega arith) (rw h refl) refl in
    (
      root,
      n,
      e,
      λ balanced.
          let after =
            plug-IsBalanced
              (Tree.node Color.red (Tree.node Color.black a x l) z (Tree.node Color.red r y u)) fs
              (back balanced) in
          omega (arith, before.0, before.1.0, before.1.2.0, after.0),
    )
fixinsertion-inner Side.right l r a u z x y c fs k h b =
    let before =
      plug-IsBalanced (Tree.node c u y (Tree.node Color.red (Tree.node Color.red l z r) x a)) fs
        b in
    let (root, n, e, back) =
      fixinsertion-stops (inner Side.right l r a u z x y c fs k) (Tree.node Color.black r x a)
        (Frame.frame Side.right Color.red z (Tree.node Color.red u y l)) fs (k + 1 + 1) refl
        (omega arith) (rw h refl) refl in
    (
      root,
      n,
      e,
      λ balanced.
          let after =
            plug-IsBalanced
              (Tree.node Color.red (Tree.node Color.red u y l) z (Tree.node Color.black r x a)) fs
              (back balanced) in
          omega (arith, before.0, before.2.0, before.2.1.0, after.0),
    )
