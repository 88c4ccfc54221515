-- ===== src/RedBlack/Loop.antt =====
-- The loop of `fixinsertion` in R-Blacktree-file-2.c ends, with the order kept and at most two rotations.
use genspark_training.Base.{
  ℕ, zero, suc, ◌+◌, ◌≤◌, ◌<◌, ◌≡◌, refl, ◌∙◌, inl, inr, true, false, some, List, [], ◌∷◌, length,
  arith, Bool-cases,
}
use genspark_training.RedBlack.{
  Tree, Frame, Cursor, context, rotations, frame_color, is_red_color, is_red, fix_round, is_running,
  fix_loop, root_of,
}
use genspark_training.RedBlack.Inorder.{SameOrder, Anchored, Ready, Round, fix_round-Outcome}

-- What the loop makes of the cursor.
pub record Fixed (z z' : Cursor) : Type 0 where
  pub order : SameOrder (root_of z) (root_of z')
  pub turns : rotations z' ≤ rotations z + 2
  pub stopped : is_running z' ≡ false

stop-Fixed : (z : Cursor) → is_running z ≡ false → Fixed z z
stop-Fixed z e = record { order = λ acc. refl; turns = omega arith; stopped = e }

fix_loop-stopped : (n : ℕ) (z : Cursor) → 0 < n → is_running z ≡ false → fix_loop n z ≡ some z
unfolding fix_loop
fix_loop-stopped zero z p e = absurd (omega arith)
fix_loop-stopped (suc n) z p e = rw e refl

fix_loop-running :
    (n : ℕ) (z z' : Cursor)
    → is_running z ≡ true
    → fix_round z ≡ some z'
    → fix_loop (suc n) z ≡ fix_loop n z'
unfolding fix_loop
fix_loop-running n z z' e h = rw (e, h) refl

Round-Fixed :
    (z z' z'' : Cursor) → Round z z' → rotations z' ≡ rotations z → Fixed z' z'' → Fixed z z''
Round-Fixed z z' z'' r same f = record {
  order = λ acc. r.order acc ∙ f.order acc;
  turns = omega (arith, f.turns, same);
  stopped = f.stopped;
}

Round-stops :
    (z z' : Cursor)
    → Round z z'
    → is_running z' ≡ false
    → rotations z' ≤ rotations z + 2
    → Fixed z z'
Round-stops z z' r e few = record { order = r.order; turns = few; stopped = e }

Ready-Anchored :
    (t : Tree) (fs : List Frame) (k : ℕ)
    → is_red t ≡ true
    → Ready (Cursor.cursor t fs k)
    → Anchored fs
Ready-Anchored t fs k h (inl e) = absurd (ground (arith, h, e))
Ready-Anchored t fs k h (inr a) = a

is_running-inv :
    (t : Tree) (f : Frame) (fs : List Frame) (k : ℕ)
    → is_running (Cursor.cursor t (f ∷ fs) k) ≡ true
    → (is_red t ≡ true) × (is_red_color (frame_color f) ≡ true)
unfolding is_running
is_running-inv t f fs k h = ground arith

-- Enough fuel for the way to the root, and one more.
pub fix_loop-Fixed :
    (n : ℕ) (z : Cursor)
    → length (context z) < n
    → Ready z
    → (z' : Cursor) × (fix_loop n z ≡ some z') × Fixed z z'
unfolding fix_loop
fix_loop-Fixed zero z p r = absurd (omega arith)
fix_loop-Fixed (suc n) (Cursor.cursor t [] k) p r =
    (_, refl, stop-Fixed (Cursor.cursor t [] k) refl)
fix_loop-Fixed (suc n) (Cursor.cursor t (f ∷ []) k) p r =
    elim (Bool-cases (is_running (Cursor.cursor t (f ∷ []) k))) [
      | inr e ↦ rw e (_, refl, stop-Fixed (Cursor.cursor t (f ∷ []) k) e)
      | inl e ↦
          let (ht, hf) = is_running-inv t f [] k e in
          elim r [ inl w ↦ absurd (ground arith) | inr w ↦ absurd (ground (arith, w, hf)) ]
    ]
fix_loop-Fixed (suc n) (Cursor.cursor t (f ∷ (g ∷ fs)) k) p r =
    let z = Cursor.cursor t (f ∷ (g ∷ fs)) k in
    elim (Bool-cases (is_running z)) [
      | inr e ↦ (z, fix_loop-stopped (suc n) z (omega arith) e, stop-Fixed z e)
      | inl e ↦
          let (ht, hf) = is_running-inv t f (g ∷ fs) k e in
          let (z', round, o) =
            fix_round-Outcome t f g fs k ht (Ready-Anchored t (f ∷ (g ∷ fs)) k ht r) in
          elim o.turns [
            | inl same ↦
                let (z'', loop, x) = fix_loop-Fixed n z' (omega (arith, p, o.shorter)) o.ready in
                (z'', fix_loop-running n z z' e round ∙ loop, Round-Fixed z z' z'' o same x)
            | inr (stop, few) ↦ (
              z',
              fix_loop-running n z z' e round ∙ fix_loop-stopped n z' (omega (arith, p)) stop,
              Round-stops z z' o stop few,
            )
          ]
    ]
