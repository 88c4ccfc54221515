-- ===== src/RedBlack.antt =====
-- R-Blacktree-file-2.c (RD-Black-tree-1.c has the same functions, without the rotation count). A tree
-- with parent pointers and a pointer to one of its nodes is a cursor: the subtree at the pointer, and the
-- frames from there up to the root. The `int` data is kept as its value plus 2^31.
pub mod Inorder
pub mod Loop
pub mod Sorted
pub mod InnerCase
mod Tests
use genspark_training.Base.{
  ◌>>=◌, ℕ, zero, suc, ◌+◌, Bool, true, false, ◌&&◌, Option, none, some, List, [], ◌∷◌, ◌++◌, ltb,
  length, if◌then◌else◌,
}

pub data Color : Type 0 where
  red black : Color

pub data Tree : Type 0 where
  nil : Tree
  node : Color → Tree → ℕ → Tree → Tree

pub data Side : Type 0 where
  left right : Side

-- A node above the pointer: on which side of it the pointer lies, and what is on the other.
pub data Frame : Type 0 where
  frame : Side → Color → ℕ → Tree → Frame

-- The subtree at the pointer, the frames from there up to the root, and `rotationcount`.
pub data Cursor : Type 0 where
  cursor : Tree → List Frame → ℕ → Cursor

abbrev pub context : Cursor → List Frame
context (Cursor.cursor t fs k) = fs

abbrev pub rotations : Cursor → ℕ
rotations (Cursor.cursor t fs k) = k

abbrev pub side : Frame → Side
side (Frame.frame s c x t) = s

abbrev pub sibling : Frame → Tree
sibling (Frame.frame s c x t) = t

abbrev pub frame_color : Frame → Color
frame_color (Frame.frame s c x t) = c

abbrev pub is_red_color : Color → Bool
is_red_color Color.red = true
is_red_color Color.black = false

-- `p && p->color == RED`
abbrev pub is_red : Tree → Bool
is_red Tree.nil = false
is_red (Tree.node c l x r) = is_red_color c

abbrev pub is_left : Side → Bool
is_left Side.left = true
is_left Side.right = false

-- A frame filled with its child.
unfoldable pub fill : Tree → Frame → Tree
fill t (Frame.frame Side.left c x s) = Tree.node c t x s
fill t (Frame.frame Side.right c x s) = Tree.node c s x t

-- The pointers `p->parent`, `p->left` and `p->right`; `none`: NULL.
unfoldable pub parent : Cursor → Option Cursor
unfolding fill
parent (Cursor.cursor t [] k) = none
parent (Cursor.cursor t (f ∷ fs) k) = some (Cursor.cursor (fill t f) fs k)

unfoldable pub left_child : Cursor → Option Cursor
left_child (Cursor.cursor Tree.nil fs k) = none
left_child (Cursor.cursor (Tree.node c l x r) fs k) =
    some (Cursor.cursor l (Frame.frame Side.left c x r ∷ fs) k)

unfoldable pub right_child : Cursor → Option Cursor
right_child (Cursor.cursor Tree.nil fs k) = none
right_child (Cursor.cursor (Tree.node c l x r) fs k) =
    some (Cursor.cursor r (Frame.frame Side.right c x l ∷ fs) k)

-- `p->color = c`
abbrev pub recolored : Color → Tree → Option Tree
recolored c Tree.nil = none
recolored c (Tree.node c' l x r) = some (Tree.node c l x r)

unfoldable pub paint : Color → Cursor → Option Cursor
paint c (Cursor.cursor t fs k) = do t' ← recolored c t; some (Cursor.cursor t' fs k)

-- `x` keeps the pointer; its right child is its parent afterwards.
unfoldable pub rotate_left : Cursor → Option Cursor
rotate_left (Cursor.cursor Tree.nil fs k) = none
rotate_left (Cursor.cursor (Tree.node c a x Tree.nil) fs k) = none
rotate_left (Cursor.cursor (Tree.node c a x (Tree.node c' b y d)) fs k) =
    some (Cursor.cursor (Tree.node c a x b) (Frame.frame Side.left c' y d ∷ fs) (k + 1))

unfoldable pub rotate_right : Cursor → Option Cursor
rotate_right (Cursor.cursor Tree.nil fs k) = none
rotate_right (Cursor.cursor (Tree.node c Tree.nil y d) fs k) = none
rotate_right (Cursor.cursor (Tree.node c (Tree.node c' a x b) y d) fs k) =
    some (Cursor.cursor (Tree.node c b y d) (Frame.frame Side.right c' x a ∷ fs) (k + 1))

-- The colors when the uncle is red; `z` is at the grandparent, which becomes `newnode`.
unfoldable pub recolor : Cursor → Option Cursor
unfolding paint parent left_child right_child
recolor z = do
  z ← paint Color.red z
  z ← left_child z
  z ← paint Color.black z
  z ← parent z
  z ← right_child z
  z ← paint Color.black z
  parent z

-- `parentnode == grandparnt->left` and the uncle is not red, with the pointer at `newnode`. `parentnode`
-- is not set again behind `newnode = parentnode`.
unfoldable pub rotate_under_left : Side → Cursor → Option Cursor
unfolding paint parent left_child rotate_left rotate_right
rotate_under_left Side.right z = do
  z ← parent z
  z ← rotate_left z
  z ← paint Color.black z
  z ← parent z
  z ← parent z
  z ← paint Color.red z
  z ← rotate_right z
  z ← parent z
  left_child z
rotate_under_left Side.left z = do
  z ← parent z
  z ← paint Color.black z
  z ← parent z
  z ← paint Color.red z
  z ← rotate_right z
  z ← parent z
  left_child z

-- The same below a right child.
unfoldable pub rotate_under_right : Side → Cursor → Option Cursor
unfolding paint parent right_child rotate_left rotate_right
rotate_under_right Side.left z = do
  z ← parent z
  z ← rotate_right z
  z ← paint Color.black z
  z ← parent z
  z ← parent z
  z ← paint Color.red z
  z ← rotate_left z
  z ← parent z
  right_child z
rotate_under_right Side.right z = do
  z ← parent z
  z ← paint Color.black z
  z ← parent z
  z ← paint Color.red z
  z ← rotate_left z
  z ← parent z
  right_child z

-- What is done by the side of the grandparent on which the parent lies, and by that of the parent.
unfoldable pub rotate_cases : Side → Side → Cursor → Option Cursor
unfolding rotate_under_left rotate_under_right
rotate_cases Side.left s z = rotate_under_left s z
rotate_cases Side.right s z = rotate_under_right s z

-- The body of the loop of `fixinsertion`. `none`: NULL is dereferenced.
unfoldable pub fix_round : Cursor → Option Cursor
unfolding recolor rotate_cases fill
fix_round (Cursor.cursor t [] k) = none
fix_round (Cursor.cursor t (f ∷ []) k) = none
fix_round (Cursor.cursor t (f ∷ (g ∷ fs)) k) =
    if is_red (sibling g)
    then recolor (Cursor.cursor (fill (fill t f) g) fs k)
    else rotate_cases (side g) (side f) (Cursor.cursor t (f ∷ (g ∷ fs)) k)

-- The condition of the loop.
unfoldable pub is_running : Cursor → Bool
is_running (Cursor.cursor t [] k) = false
is_running (Cursor.cursor t (f ∷ fs) k) = is_red t && is_red_color (frame_color f)

-- `none`: NULL is dereferenced, or the fuel runs out.
unfoldable pub fix_loop : (fuel : ℕ) → Cursor → Option Cursor
unfolding fix_round is_running
fix_loop zero z = none
fix_loop (suc fuel) z =
    let rest = fix_round z >>= fix_loop fuel in if is_running z then rest else some z

-- The tree around a subtree.
unfoldable pub plug : Tree → List Frame → Tree
unfolding fill
plug t [] = t
plug t (f ∷ fs) = plug (fill t f) fs

abbrev pub root_of : Cursor → Tree
unfolding plug
root_of (Cursor.cursor t fs k) = plug t fs

-- A round of the loop shortens the way to the root, so its length is fuel enough.
unfoldable pub fixinsertion : Cursor → Option (Tree × ℕ)
unfolding fix_loop plug
fixinsertion z = do
  z' ← fix_loop (suc (length (context z))) z
  root ← recolored Color.black (root_of z')
  some (root, rotations z')

-- The loop of `insertion`: the frames from the place of the new node up to the root.
unfoldable pub descend : ℕ → Tree → List Frame → List Frame
descend x Tree.nil fs = fs
descend x (Tree.node c l y r) fs =
    let to_left = descend x l (Frame.frame Side.left c y r ∷ fs) in
    let to_right = descend x r (Frame.frame Side.right c y l ∷ fs) in
    if ltb x y then to_left else to_right

-- The new root and `rotationcount`.
unfoldable pub insertion : ℕ → Tree × ℕ → Option (Tree × ℕ)
unfolding descend fixinsertion
insertion x (root, k) =
    fixinsertion (Cursor.cursor (Tree.node Color.red Tree.nil x Tree.nil) (descend x root []) k)

-- The loop of `main`.
unfoldable pub insert_all : List ℕ → Tree × ℕ → Option (Tree × ℕ)
unfolding insertion
insert_all [] root = some root
insert_all (x ∷ xs) root = insertion x root >>= insert_all xs

-- What `inorder` prints.
unfoldable pub inorder : Tree → List (ℕ × Color)
inorder Tree.nil = []
inorder (Tree.node c l x r) = inorder l ++ (x, c) ∷ inorder r
