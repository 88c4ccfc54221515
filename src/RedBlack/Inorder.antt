-- ===== src/RedBlack/Inorder.antt =====
-- What the rounds of `fixinsertion` in R-Blacktree-file-2.c keep: the order of the data, and the bound on
-- the way to the root.
use genspark_training.Base.{
  ℕ, ◌+◌, ◌≤◌, ◌<◌, ◌≡◌, refl, ap, ◌⊎◌, inl, inr, Bool, true, false, ◌&&◌, Option, some, List, [],
  ◌∷◌, length, arith, Bool-cases,
}
use genspark_training.RedBlack.{
  Color, Tree, Side, Frame, Cursor, context, rotations, frame_color, is_red_color, is_red, fill,
  recolor, rotate_cases, fix_round, is_running, plug, root_of,
}

-- `inorder` without the colors, in front of a list.
abbrev pub inorder_onto : Tree → List ℕ → List ℕ
inorder_onto Tree.nil acc = acc
inorder_onto (Tree.node c l x r) acc = inorder_onto l (x ∷ inorder_onto r acc)

abbrev pub SameOrder : Tree → Tree → Type 0
SameOrder t t' = (acc : List ℕ) → inorder_onto t acc ≡ inorder_onto t' acc

fill-SameOrder : (t t' : Tree) (f : Frame) → SameOrder t t' → SameOrder (fill t f) (fill t' f)
unfolding fill
fill-SameOrder t t' (Frame.frame Side.left c x s) h = λ acc. h (x ∷ inorder_onto s acc)
fill-SameOrder t t' (Frame.frame Side.right c x s) h =
    λ acc. ap (λ rest. inorder_onto s (x ∷ rest)) (h acc)

pub plug-SameOrder :
    (t t' : Tree) (fs : List Frame) → SameOrder t t' → SameOrder (plug t fs) (plug t' fs)
unfolding plug
plug-SameOrder t t' [] h = h
plug-SameOrder t t' (f ∷ fs) h = plug-SameOrder (fill t f) (fill t' f) fs (fill-SameOrder t t' f h)

-- The last frame is black.
abbrev pub Anchored : List Frame → Type 0
Anchored [] = Unit
Anchored (f ∷ []) = frame_color f ≡ Color.black
Anchored (f ∷ (g ∷ fs)) = Anchored (g ∷ fs)

tail-Anchored : (f : Frame) (fs : List Frame) → Anchored (f ∷ fs) → Anchored fs
tail-Anchored f [] h = tt
tail-Anchored f (g ∷ fs) h = h

change-Anchored :
    (f g : Frame) (fs : List Frame)
    → frame_color g ≡ Color.black
    → Anchored (f ∷ fs)
    → Anchored (g ∷ fs)
change-Anchored f g [] e h = e
change-Anchored f g (k ∷ fs) e h = h

-- The way to the root ends at a black node, or the loop stops.
abbrev pub Ready : Cursor → Type 0
Ready (Cursor.cursor t fs k) = (is_red t ≡ false) ⊎ Anchored fs

and-false : (b : Bool) → (b && false) ≡ false
and-false true = refl
and-false false = refl

-- What a round makes of the cursor.
pub record Round (z z' : Cursor) : Type 0 where
  pub ready : Ready z'
  pub shorter : length (context z') < length (context z)
  pub order : SameOrder (root_of z) (root_of z')
  pub turns :
      (rotations z' ≡ rotations z) ⊎ ((is_running z' ≡ false) × (rotations z' ≤ rotations z + 2))

abbrev pub Outcome : Cursor → Option Cursor → Type 0
Outcome z o = (z' : Cursor) × (o ≡ some z') × Round z z'

recolor-Outcome :
    (t u : Tree) (s s' : Side) (c c' : Color) (x y : ℕ) (a : Tree) (fs : List Frame) (k : ℕ)
    → is_red u ≡ true
    → Anchored fs
    → Outcome
        (Cursor.cursor t (Frame.frame s c x a ∷ (Frame.frame s' c' y u ∷ fs)) k)
        (recolor (Cursor.cursor (fill (fill t (Frame.frame s c x a)) (Frame.frame s' c' y u)) fs k))
unfolding recolor fill plug
recolor-Outcome t Tree.nil s s' c c' x y a fs k h v = absurd (ground arith)
recolor-Outcome t (Tree.node cu l z r) Side.left Side.left c c' x y a fs k h v = (
  _,
  refl,
  record {
    ready = inr v;
    shorter = omega arith;
    order = plug-SameOrder _ _ fs (λ acc. refl);
    turns = inl refl;
  },
)
recolor-Outcome t (Tree.node cu l z r) Side.right Side.left c c' x y a fs k h v = (
  _,
  refl,
  record {
    ready = inr v;
    shorter = omega arith;
    order = plug-SameOrder _ _ fs (λ acc. refl);
    turns = inl refl;
  },
)
recolor-Outcome t (Tree.node cu l z r) Side.left Side.right c c' x y a fs k h v = (
  _,
  refl,
  record {
    ready = inr v;
    shorter = omega arith;
    order = plug-SameOrder _ _ fs (λ acc. refl);
    turns = inl refl;
  },
)
recolor-Outcome t (Tree.node cu l z r) Side.right Side.right c c' x y a fs k h v = (
  _,
  refl,
  record {
    ready = inr v;
    shorter = omega arith;
    order = plug-SameOrder _ _ fs (λ acc. refl);
    turns = inl refl;
  },
)

rotate_cases-Outcome :
    (t u : Tree) (s s' : Side) (c c' : Color) (x y : ℕ) (a : Tree) (fs : List Frame) (k : ℕ)
    → is_red t ≡ true
    → ((f : Frame) → frame_color f ≡ Color.black → Anchored (f ∷ fs))
    → Outcome
        (Cursor.cursor t (Frame.frame s c x a ∷ (Frame.frame s' c' y u ∷ fs)) k)
        (rotate_cases s' s (Cursor.cursor t (Frame.frame s c x a ∷ (Frame.frame s' c' y u ∷ fs)) k))
unfolding rotate_cases fill plug is_running
rotate_cases-Outcome Tree.nil u s s' c c' x y a fs k h v = absurd (ground arith)
rotate_cases-Outcome (Tree.node ct l z r) u Side.left Side.left c c' x y a fs k h v = (
  _,
  refl,
  record {
    ready = inr (v (Frame.frame Side.left Color.black x (Tree.node Color.red a y u)) refl);
    shorter = omega arith;
    order = plug-SameOrder _ _ fs (λ acc. refl);
    turns = inr (and-false (is_red_color ct), omega arith);
  },
)
rotate_cases-Outcome (Tree.node ct l z r) u Side.right Side.left c c' x y a fs k h v = (
  _,
  refl,
  record {
    ready = inl refl;
    shorter = omega arith;
    order = plug-SameOrder _ _ fs (λ acc. refl);
    turns = inr (refl, omega arith);
  },
)
rotate_cases-Outcome (Tree.node ct l z r) u Side.left Side.right c c' x y a fs k h v = (
  _,
  refl,
  record {
    ready = inl refl;
    shorter = omega arith;
    order = plug-SameOrder _ _ fs (λ acc. refl);
    turns = inr (refl, omega arith);
  },
)
rotate_cases-Outcome (Tree.node ct l z r) u Side.right Side.right c c' x y a fs k h v = (
  _,
  refl,
  record {
    ready = inr (v (Frame.frame Side.right Color.black x (Tree.node Color.red u y a)) refl);
    shorter = omega arith;
    order = plug-SameOrder _ _ fs (λ acc. refl);
    turns = inr (and-false (is_red_color ct), omega arith);
  },
)

pub fix_round-Outcome :
    (t : Tree) (f g : Frame) (fs : List Frame) (k : ℕ)
    → is_red t ≡ true
    → Anchored (g ∷ fs)
    → Outcome (Cursor.cursor t (f ∷ (g ∷ fs)) k) (fix_round (Cursor.cursor t (f ∷ (g ∷ fs)) k))
unfolding fix_round
fix_round-Outcome t (Frame.frame s c x a) (Frame.frame s' c' y u) fs k h v =
    elim (Bool-cases (is_red u)) [
      | inl e ↦
          rw e (
            recolor-Outcome t u s s' c c' x y a fs k e (tail-Anchored (Frame.frame s' c' y u) fs v))
      | inr e ↦ rw e (
          rotate_cases-Outcome t u s s' c c' x y a fs k h
            (λ f b. change-Anchored (Frame.frame s' c' y u) f fs b v))
    ]
