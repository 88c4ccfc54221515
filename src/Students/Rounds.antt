-- ===== src/Students/Rounds.antt =====
-- The rounds of the loop in `main` of student.c, and the menu entry that adds a student.
use mathlib.Core.Path.{subst}
use genspark_training.Base.{
  ||-false, ℕ, zero, suc, ◌<◌, ◌≡◌, refl, sym, ap, ◌∙◌, ◌⊎◌, inl, inr, true, false, not, ◌&&◌, none,
  some, bytes, text_eq, length, update, negsuc, int_eq, if◌then◌else◌, arith, Bool-cases,
}
use genspark_training.Students.{
  Floats, Student, Answers, name_size, enter_roll, students, marks_of_rejection, retreat_all,
  enter_student, marks_of_person, add_student,
}
use genspark_training.Students.Retreat.{
  IsAsked, Clear, Hits, retreat_all-Clear, retreat_all-first, retreat_all-Hits, Hits-person,
  Hits-mark, register-clear, asked-Clear,
}
use genspark_training.Students.Register.{
  IsRegister, IsNew, register_kept, register_extended, update-before, update_here, for_all,
}
use genspark_training.Students.Entry.{
  IsFloats, accepts_person, accepts_marks, person_marked, mark_marked, ThirdMark, Entered,
  enter_roll_lem,
}

module _ {F : Type 0} (ops : Floats F) (a : Answers F) where
  round_lem :
      (n : ℕ) (s : ℕ → Student F) (st : Student F) (j : ℕ)
      → enter_roll ops a n s (s n) ≡ some st
      → retreat_all (marks_of_rejection ops) (update s n st) (suc n) ≡ some j
      → enter_student ops a n s ≡ some (update s n st, j)
  unfolding enter_student students
  round_lem n s st j e f = rw (enter_student, students, e, f) refl

  IsAsked-kept :
      (n : ℕ) (s : ℕ → Student F) (st : Student F) → IsAsked ops s n → IsAsked ops (update s n st) n
  IsAsked-kept n s st v = record {
    register = register_kept s n st v.register;
    marks = λ k h. rw (update-before s n st k h) (v.marks k h);
  }

  -- A rejected round: the student that was asked for has a mark.
  back_lem :
      (n : ℕ) (s : ℕ → Student F) (st : Student F)
      → IsAsked ops s n
      → Hits ops st (marks_of_rejection ops)
      → enter_roll ops a n s (s n) ≡ some st
      → ((n ≡ 0) × (enter_student ops a n s ≡ none))
        ⊎ ((s' : ℕ → Student F) × (enter_student ops a n s ≡ some (s', n)) × IsAsked ops s' n)
  unfolding enter_student students
  back_lem zero s st v h e = inl (
    refl,
    rw
        (
          enter_student,
          students,
          e,
          retreat_all-first ops (marks_of_rejection ops) (update s 0 st) h,
        )
        refl,
  )
  back_lem (suc m) s st v h e =
      let hit =
        subst (λ t. Hits ops t (marks_of_rejection ops)) (sym (update_here s (suc m) st)) h in
      let clear_before =
        subst (λ t. Clear ops t (marks_of_rejection ops))
          (sym (update-before s (suc m) st m (omega arith)))
          (asked-Clear ops s (suc m) m v (omega arith)) in
      inr (
        update s (suc m) st,
        round_lem (suc m) s st (suc m) e (
            retreat_all-Hits ops (marks_of_rejection ops) (update s (suc m) st) m hit clear_before),
        IsAsked-kept (suc m) s st v,
      )

  new_lem :
      (n : ℕ) (s : ℕ → Student F) (st : Student F)
      → IsAsked ops s n
      → IsNew s n st
      → mark_marked ops st ≡ false
      → ThirdMark ops a (s n) st
      → enter_roll ops a n s (s n) ≡ some st
      → (s' : ℕ → Student F) × (enter_student ops a n s ≡ some (s', suc n))
        × IsAsked ops s' (suc n)
        × ThirdMark ops a (s n) (s' n)
  new_lem n s st v w h third e =
      let v' : IsAsked ops (update s n st) (suc n) = record {
        register = register_extended s n st v.register w;
        marks = for_all s n (λ t. mark_marked ops t ≡ false) st v.marks h;
      } in
      (
        update s n st,
        round_lem n s st (suc n) e (
            retreat_all-Clear ops (marks_of_rejection ops) (update s n st) n
              (asked-Clear ops (update s n st) (suc n) n v' (omega arith))),
        v',
        subst (λ t. ThirdMark ops a (s n) t) (sym (update_here s n st)) third,
      )

-- A round of the loop. Where the roll, the name and the first two marks are accepted, there is one more
-- student, and rolls and names stay unique; a third mark that is rejected makes no difference to that: the
-- student is kept with -1 beside the sum and the average that the memory had. Where one of the four is
-- rejected, the program asks for the same student again, but for the first one: there it reads in front of the
-- array. Names are shorter than their array, and -1 differs from every mark above 0.
pub enter_student-IsAsked :
    {F : Type 0} (ops : Floats F) (a : Answers F) (n : ℕ) (s : ℕ → Student F)
    → IsFloats ops
    → length a.name < name_size
    → IsAsked ops s n
    → (((accepts_person a n s && accepts_marks ops a) ≡ true)
        × ((s' : ℕ → Student F) × (enter_student ops a n s ≡ some (s', suc n))
            × IsAsked ops s' (suc n)
            × ThirdMark ops a (s n) (s' n)))
      ⊎ (((accepts_person a n s && accepts_marks ops a) ≡ false)
          × (((n ≡ 0) × (enter_student ops a n s ≡ none))
              ⊎ ((s' : ℕ → Student F) × (enter_student ops a n s ≡ some (s', n))
                  × IsAsked ops s' n)))
enter_student-IsAsked ops a n s laws short v =
    let (st, e, o) = enter_roll_lem ops laws a n s short (s n) in
    elim o [
      | Entered.rejected r h ↦ inr (rw r refl, back_lem ops a n s st v (Hits-person ops st h) e)
      | Entered.new r w h third ↦ elim (Bool-cases (accepts_marks ops a)) [
        | inl g ↦ inl (rw (r, g) refl, new_lem ops a n s st v w (h ∙ ap not g) (third g) e)
        | inr g ↦ inr (rw (r, g) refl, back_lem ops a n s st v (Hits-mark ops st (h ∙ ap not g)) e)
      ]
    ]

-- The tests of the menu entry that adds a student.
module _ {F : Type 0} (ops : Floats F) (n : ℕ) (s : ℕ → Student F) (st : Student F)
    (v : IsRegister s (suc n)) where
  kept_count :
      person_marked ops st ≡ false
      → retreat_all marks_of_person (update s (suc n) st) (suc (suc n)) ≡ some (suc (suc n))
  unfolding marks_of_person retreat_all
  kept_count h =
      let (a, b) = ||-false (int_eq st.roll (negsuc 0)) (text_eq st.name (bytes "x")) h in
      rw (update_here s (suc n) st, a, b) refl

  back_count :
      person_marked ops st ≡ true
      → retreat_all marks_of_person (update s (suc n) st) (suc (suc n)) ≡ some (suc n)
  unfolding marks_of_person retreat_all
  back_count h = elim (Bool-cases (int_eq st.roll (negsuc 0))) [
    | inl e ↦
        (let b = v.names n (omega arith) in
          rw (update_here s (suc n) st, e, update-before s (suc n) st n (omega arith), b) refl)
    | inr e ↦
        (let b : text_eq st.name (bytes "x") ≡ true = ground (arith, h, e) in
          rw (update_here s (suc n) st, e, b) refl)
  ]

-- The menu entry that adds a student leaves the rolls and names unique, and there is one more student exactly
-- if the roll and the name are accepted, whatever the marks.
pub add_student-IsRegister :
    {F : Type 0} (ops : Floats F) (a : Answers F) (n : ℕ) (s : ℕ → Student F)
    → IsFloats ops
    → length a.name < name_size
    → IsRegister s (suc n)
    → (s' : ℕ → Student F) × (add_student ops a (suc n) s
        ≡ some (s', if accepts_person a (suc n) s then suc (suc n) else suc n))
      × IsRegister s' (if accepts_person a (suc n) s then suc (suc n) else suc n)
unfolding add_student students
add_student-IsRegister ops a n s laws short v =
    let (st, e, o) = enter_roll_lem ops laws a (suc n) s short (s (suc n)) in
    elim o [
      | Entered.rejected r h ↦ (
        update s (suc n) st,
        rw (add_student, students, e, back_count ops n s st v h, r) refl,
        rw r (register_kept s (suc n) st v),
      )
      | Entered.new r w h third ↦
          (let v' = register_extended s (suc n) st v w in
            let clear =
              register-clear ops (update s (suc n) st) (suc (suc n)) (suc n) v' (omega arith) in
            (
              update s (suc n) st,
              rw
                  (
                    add_student,
                    students,
                    e,
                    kept_count ops n s st v
                        (subst (λ t. person_marked ops t ≡ false) (update_here s (suc n) st) clear),
                    r,
                  )
                  refl,
              rw r v',
            ))
    ]
