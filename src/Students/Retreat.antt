-- ===== src/Students/Retreat.antt =====
-- The tests that `main` of student.c makes after an entry, one after the other.
use genspark_training.Base.{
  ||-false, ℕ, suc, ◌<◌, ◌≡◌, refl, ◌⊎◌, inl, inr, Bool, true, false, none, some, List, [], ◌∷◌,
  bytes, text_eq, All, ℤ, pos, negsuc, int_eq, arith, Bool-cases,
}
use genspark_training.Students.{
  Floats, Student, bad_roll, minus_one, marks_of_rejection, retreat_all,
}
use genspark_training.Students.Register.{IsRegister}
use genspark_training.Students.Entry.{person_marked, mark_marked}

-- The first `n` students went through the loop: besides, their first two marks are not marked.
pub record IsAsked {F : Type 0} (ops : Floats F) (s : ℕ → Student F) (n : ℕ) : Type 0 where
  pub register : IsRegister s n
  pub marks : (k : ℕ) → k < n → mark_marked ops (s k) ≡ false

module _ {F : Type 0} (ops : Floats F) where
  -- Of the tests none, and of the tests one, holds of a student.
  abbrev pub Clear : Student F → List (Student F → Bool) → Type 0
  Clear st tests = All (λ test. test st ≡ false) tests

  pub retreat_all-Clear :
      (tests : List (Student F → Bool)) (s : ℕ → Student F) (i : ℕ)
      → Clear (s i) tests
      → retreat_all tests s (suc i) ≡ some (suc i)
  unfolding retreat_all
  retreat_all-Clear [] s i h = refl
  retreat_all-Clear (test ∷ tests) s i h = rw (h.0) (retreat_all-Clear tests s i h.1)

  -- One of the tests holds, and another test is behind it.
  abbrev pub Hits : Student F → List (Student F → Bool) → Type 0
  Hits st [] = ⊥
  Hits st (test ∷ []) = ⊥
  Hits st (test ∷ next ∷ tests) = (test st ≡ true) ⊎ Hits st (next ∷ tests)

  pub retreat_all-first :
      (tests : List (Student F → Bool)) (s : ℕ → Student F)
      → Hits (s 0) tests
      → retreat_all tests s 1 ≡ none
  unfolding retreat_all
  retreat_all-first [] s h = absurd h
  retreat_all-first (test ∷ []) s h = absurd h
  retreat_all-first (test ∷ next ∷ tests) s (inl e) = rw e refl
  retreat_all-first (test ∷ next ∷ tests) s (inr h) = elim (Bool-cases (test (s 0))) [
    | inl e ↦ rw e refl
    | inr e ↦ rw e (retreat_all-first (next ∷ tests) s h)
  ]

  pub retreat_all-Hits :
      (tests : List (Student F → Bool)) (s : ℕ → Student F) (i : ℕ)
      → Hits (s (suc i)) tests
      → Clear (s i) tests
      → retreat_all tests s (suc (suc i)) ≡ some (suc i)
  unfolding retreat_all
  retreat_all-Hits [] s i h c = absurd h
  retreat_all-Hits (test ∷ []) s i h c = absurd h
  retreat_all-Hits (test ∷ next ∷ tests) s i (inl e) c =
      rw e (retreat_all-Clear (next ∷ tests) s i c.1)
  retreat_all-Hits (test ∷ next ∷ tests) s i (inr h) c = elim (Bool-cases (test (s (suc i)))) [
    | inl e ↦ rw e (retreat_all-Clear (next ∷ tests) s i c.1)
    | inr e ↦ rw e (retreat_all-Hits (next ∷ tests) s i h c.1)
  ]

  module _ (st : Student F) where
    pub clear :
        person_marked ops st ≡ false
        → mark_marked ops st ≡ false
        → Clear st (marks_of_rejection ops)
    unfolding marks_of_rejection
    clear h k =
        let (a, b) = ||-false (int_eq st.roll (negsuc 0)) (text_eq st.name (bytes "x")) h in
        let (c, d) =
          ||-false (ops.eq st.subject1 (minus_one ops)) (ops.eq st.subject2 (minus_one ops)) k in
        (a, (b, (c, (d, (d, tt)))))

    pub Hits-person : person_marked ops st ≡ true → Hits st (marks_of_rejection ops)
    unfolding marks_of_rejection
    Hits-person h = elim (Bool-cases (int_eq st.roll (negsuc 0))) [
      | inl e ↦ inl e
      | inr e ↦ inr (inl (ground (arith, h, e)))
    ]

    pub Hits-mark : mark_marked ops st ≡ true → Hits st (marks_of_rejection ops)
    unfolding marks_of_rejection
    Hits-mark h = elim (Bool-cases (ops.eq st.subject1 (minus_one ops))) [
      | inl e ↦ inr (inr (inl e))
      | inr e ↦ inr (inr (inr (inl (ground (arith, h, e)))))
    ]

  not_negative : (r : ℤ) → bad_roll r ≡ false → int_eq r (negsuc 0) ≡ false
  unfolding bad_roll
  not_negative (pos r) h = refl
  not_negative (negsuc r) h = absurd (ground arith)

  pub register-clear :
      (s : ℕ → Student F) (n k : ℕ) → IsRegister s n → k < n → person_marked ops (s k) ≡ false
  register-clear s n k v h =
      let a = not_negative (s k).roll (v.rolls k h) in let b = v.names k h in rw (a, b) refl

  pub asked-Clear :
      (s : ℕ → Student F) (n k : ℕ) → IsAsked ops s n → k < n → Clear (s k) (marks_of_rejection ops)
  asked-Clear s n k v h = clear (s k) (register-clear s n k v.register h) (v.marks k h)
