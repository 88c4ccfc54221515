-- ===== src/Students/Tests.antt =====
-- The records of student.c with whole marks, at a few entries.
use genspark_training.Base.{
  int_neg, int_add, int_by_size, int_lt, ℕ, zero, suc, ◌*◌, ◌/◌, ◌<◌, ◌≡◌, refl, ◌⊎◌, true, false,
  ◌&&◌, Option, none, some, List, [], ◌∷◌, Text, bytes, text_eq, update, if◌then◌else◌, ℤ, pos,
  negsuc, int_eq, find_first, arith,
}
use genspark_training.Students.{
  Floats, Student, Answers, bad_roll, find_by_roll, find_by_name, read_mark, enter_marks,
  enter_name, enter_roll, students, marks_of_rejection, retreat_all, enter_student, enter_students,
  add_student, count_passed, pass_percentage, total_from, class_average,
}
use genspark_training.Students.Register.{IsRegister}
use genspark_training.Students.Entry.{
  IsFloats, accepts_person, accepts_marks, mark_marked, ThirdMark,
}
use genspark_training.Students.Retreat.{IsAsked}
use genspark_training.Students.Rounds.{enter_student-IsAsked, add_student-IsRegister}

abbrev whole : Floats ℤ
whole = record {
  lit = pos;
  neg = int_neg;
  add = int_add;
  mul = int_by_size (λ a b. a * b);
  div = int_by_size (λ a b. a / b);
  gt = λ x y. int_lt y x;
  le = λ x y. if int_lt y x then false else true;
  eq = int_eq;
}

whole_above :
    (x : ℤ) → (if int_lt (pos 0) x then false else true) ≡ false → int_eq x (negsuc 0) ≡ false
whole_above (pos a) h = refl
whole_above (negsuc a) h = absurd (ground arith)

whole-IsFloats : IsFloats whole
whole-IsFloats = record { same = refl; above = whole_above }

abbrev junk : ℕ → Student ℤ
junk i = record {
  roll = pos 0;
  name = [];
  subject1 = pos 0;
  subject2 = pos 0;
  subject3 = pos 0;
  sum = pos 0;
  avg = pos 0;
}

abbrev answers : ℕ → Text → ℕ → ℕ → ℕ → Answers ℤ
answers roll name a b c = record {
  roll = some (pos roll);
  name = name;
  subject1 = some (pos a);
  subject2 = some (pos b);
  subject3 = some (pos c);
}

abbrev ann : Answers ℤ
ann = answers 7 (bytes "ann") 60 70 80

abbrev bob : Answers ℤ
bob = answers 9 (bytes "bob") 40 50 30

-- A roll that is taken.
abbrev bob_again : Answers ℤ
bob_again = answers 7 (bytes "bob") 40 50 30

abbrev rounds : List (Answers ℤ) → Option ((ℕ → Student ℤ) × ℕ)
unfolding bad_roll find_by_roll find_by_name read_mark enter_marks enter_name enter_roll students
    marks_of_rejection retreat_all enter_student enter_students find_first text_eq
rounds answers = enter_students whole answers 2 0 junk

abbrev report : Option ((ℕ → Student ℤ) × ℕ) → Option (ℕ × ℤ × ℤ × ℕ)
unfolding count_passed total_from class_average pass_percentage
report none = none
report (some (s, n)) =
    some (n, pass_percentage whole n s, class_average whole n s, count_passed whole 0 n s)

-- The second entry is rejected and asked for again; one of two students passes.
rounds-report : report (rounds (ann ∷ bob_again ∷ bob ∷ [])) ≡ some (2, pos 0, pos 55, 1)
unfolding rounds report
rounds-report = refl

-- A rejected first entry reads in front of the array.
rounds-first : report (rounds (answers 0 (bytes "ann") 60 70 80 ∷ ann ∷ [])) ≡ none
unfolding rounds report
rounds-first = refl

-- A third mark out of range is not noticed, and the sum is what was there before.
rounds-third : report (rounds (answers 7 (bytes "ann") 60 70 180 ∷ [])) ≡ some (1, pos 0, pos 0, 0)
unfolding rounds report
rounds-third = refl

abbrev one : ℕ
one = 1

abbrev register : ℕ → Student ℤ
register = update junk 0 (record {
  roll = pos 7;
  name = bytes "ann";
  subject1 = pos 60;
  subject2 = pos 70;
  subject3 = pos 80;
  sum = pos 210;
  avg = pos 70;
})

only : (j k : ℕ) → j < 1 → k < 1 → j ≡ k
only j k h g = omega (arith, h, g)

at_first : (P : Student ℤ → Type 0) → P (register 0) → (k : ℕ) → k < 1 → P (register k)
at_first P p zero h = p
at_first P p (suc k) h = absurd (omega (arith, h))

register-IsRegister : IsRegister register 1
unfolding bad_roll text_eq
register-IsRegister = record {
  rolls = at_first (λ t. bad_roll t.roll ≡ false) refl;
  names = at_first (λ t. text_eq t.name (bytes "x") ≡ false) refl;
  roll_once = λ j k h g e. only j k h g;
  name_once = λ j k h g e. only j k h g;
}

register-IsAsked : IsAsked whole register 1
register-IsAsked = record {
  register = register-IsRegister;
  marks = at_first (λ t. mark_marked whole t ≡ false) refl;
}

enter_student-IsAsked_example :
    (((accepts_person bob 1 register && accepts_marks whole bob) ≡ true)
      × ((s' : ℕ → Student ℤ) × (enter_student whole bob 1 register ≡ some (s', 2))
          × IsAsked whole s' 2
          × ThirdMark whole bob (register 1) (s' 1)))
    ⊎ (((accepts_person bob 1 register && accepts_marks whole bob) ≡ false)
        × (((one ≡ 0) × (enter_student whole bob 1 register ≡ none))
            ⊎ ((s' : ℕ → Student ℤ) × (enter_student whole bob 1 register ≡ some (s', 1))
                × IsAsked whole s' 1)))
enter_student-IsAsked_example =
    enter_student-IsAsked whole bob 1 register whole-IsFloats (omega arith) register-IsAsked

add_student-IsRegister_example :
    (s' : ℕ → Student ℤ) × (add_student whole bob 1 register
      ≡ some (s', if accepts_person bob 1 register then 2 else 1))
    × IsRegister s' (if accepts_person bob 1 register then 2 else 1)
add_student-IsRegister_example =
    add_student-IsRegister whole bob 0 register whole-IsFloats (omega arith) register-IsRegister
