-- ===== src/Students.antt =====
-- The student records of student.c: the entry of a student, the loop that asks for the students, the menu
-- entry that adds one, and the searches. Marks are `float`, given by their operations. Memory that
-- malloc and realloc give has any contents: it is part of the family of students. A read in front of the
-- array, and a name that does not fit, is `none`.
pub mod Register
pub mod Entry
pub mod Retreat
pub mod Rounds
mod Tests
use genspark_training.Base.{
  int_eq, ℕ, zero, suc, ◌+◌, Bool, true, false, ◌||◌, Option, none, some, List, [], ◌∷◌, Text,
  bytes, text_eq, length, update, find_first, ℤ, pos, negsuc, ltb, leb, ◌==◌, if◌then◌else◌, ◌>>=◌,
}

-- The operations of `float` that the program uses; `lit` converts a number.
pub record Floats (F : Type 0) : Type 0 where
  pub lit : ℕ → F
  pub neg : F → F
  pub add : F → F → F
  pub mul : F → F → F
  pub div : F → F → F
  pub gt : F → F → Bool
  pub le : F → F → Bool
  pub eq : F → F → Bool

-- `struct st`
pub record Student (F : Type 0) : Type 0 where
  pub roll : ℤ
  pub name : Text
  pub subject1 : F
  pub subject2 : F
  pub subject3 : F
  pub sum : F
  pub avg : F

-- The answers to the prompts, where they are reached; `none`: scanf reads no number.
pub record Answers (F : Type 0) : Type 0 where
  pub roll : Option ℤ
  pub name : Text
  pub subject1 : Option F
  pub subject2 : Option F
  pub subject3 : Option F

-- `p->roll<=0 || p->roll>100`
unfoldable pub bad_roll : ℤ → Bool
bad_roll (pos r) = r == 0 || ltb 100 r
bad_roll (negsuc r) = true

-- A search for the first of `num` students that passes a test.
abbrev pub find_student : {F : Type 0} → (Student F → Bool) → ℕ → (ℕ → Student F) → Option ℕ
find_student test num s = find_first (λ i. test (s i)) 0 num

-- The size of the array for a name.
abbrev pub name_size : ℕ
name_size = 20

-- The student that the searches print.
unfoldable pub find_by_roll : {F : Type 0} → ℕ → ℤ → (ℕ → Student F) → Option ℕ
find_by_roll num r s = find_student (λ st. int_eq st.roll r) num s

unfoldable pub find_by_name : {F : Type 0} → ℕ → Text → (ℕ → Student F) → Option ℕ
find_by_name num name s = find_student (λ st. text_eq st.name name) num s

abbrev pub is_some : {A : Type 0} → Option A → Bool
is_some none = false
is_some (some a) = true

-- `if (test(p[i])) i--;` for each test, where the argument is i + 1.
unfoldable pub retreat_all : {F : Type 0} → List (Student F → Bool) → (ℕ → Student F) → ℕ → Option ℕ
retreat_all [] s j = some j
retreat_all (test ∷ tests) s zero = none
retreat_all (test ∷ tests) s (suc i) =
    let back = retreat_all tests s i in
    let stay = retreat_all tests s (suc i) in if test (s i) then back else stay

-- The tests of the menu entry that adds a student.
unfoldable pub marks_of_person : {F : Type 0} → List (Student F → Bool)
marks_of_person = (λ st. int_eq st.roll (negsuc 0)) ∷ (λ st. text_eq st.name (bytes "x")) ∷ []

module _ {F : Type 0} (ops : Floats F) where
  abbrev pub minus_one : F
  minus_one = ops.neg (ops.lit 1)

  -- The mark where scanf reads a number and the test of its bounds passes.
  unfoldable pub read_mark : Option F → Option F
  read_mark none = none
  read_mark (some x) = if ops.le x (ops.lit 0) || ops.gt x (ops.lit 101) then none else some x

  -- `students` from the prompt for the first mark on.
  unfoldable pub enter_marks : Answers F → Student F → Student F
  enter_marks a st = elim (read_mark a.subject1) [
    | none ↦ record st { subject1 = minus_one }
    | some m1 ↦ elim (read_mark a.subject2) [
      | none ↦ record st { subject1 = m1; subject2 = minus_one }
      | some m2 ↦ elim (read_mark a.subject3) [
        | none ↦ record st { subject1 = m1; subject2 = m2; subject3 = minus_one }
        | some m3 ↦ record st {
          subject1 = m1;
          subject2 = m2;
          subject3 = m3;
          sum = ops.add (ops.add m1 m2) m3;
          avg = ops.div (ops.add (ops.add m1 m2) m3) (ops.lit 3);
        }
      ]
    ]
  ]

  -- From the prompt for the name on.
  unfoldable pub enter_name : Answers F → ℕ → (ℕ → Student F) → Student F → Option (Student F)
  enter_name a num s st =
      if leb name_size (length a.name)
      then none
      else some (
          if is_some (find_by_name num a.name s)
          then record st { name = bytes "x" }
          else enter_marks a (record st { name = a.name }))

  unfoldable pub enter_roll : Answers F → ℕ → (ℕ → Student F) → Student F → Option (Student F)
  enter_roll a num s st = elim (a.roll) [
    | none ↦ some (record st { roll = negsuc 0 })
    | some r ↦
        if bad_roll r || is_some (find_by_roll num r s)
        then some (record st { roll = negsuc 0 })
        else enter_name a num s (record st { roll = r })
  ]

  -- `students(&p[num], p, num)`
  unfoldable pub students : Answers F → ℕ → (ℕ → Student F) → Option (ℕ → Student F)
  students a num s = do st ← enter_roll a num s (s num); some (update s num st)

  -- The tests of the loop in `main` after a call of `students`.
  unfoldable pub marks_of_rejection : List (Student F → Bool)
  marks_of_rejection =
      (λ st. int_eq st.roll (negsuc 0))
      ∷ (λ st. text_eq st.name (bytes "x"))
      ∷ (λ st. ops.eq st.subject1 minus_one)
      ∷ (λ st. ops.eq st.subject2 minus_one)
      ∷ (λ st. ops.eq st.subject2 minus_one)
      ∷ []

  -- A round of the loop, and the next `i`.
  unfoldable pub enter_student : Answers F → ℕ → (ℕ → Student F) → Option ((ℕ → Student F) × ℕ)
  enter_student a i s = do
    s' ← students a i s
    j ← retreat_all marks_of_rejection s' (suc i)
    some (s', j)

  -- The loop, until there are `num` students.
  unfoldable pub enter_students :
      List (Answers F) → (num i : ℕ) → (ℕ → Student F) → Option ((ℕ → Student F) × ℕ)
  enter_students [] num i s = some (s, i)
  enter_students (a ∷ answers) num i s =
      let round = enter_student a i s in
      if ltb i num then (do (s', j) ← round; enter_students answers num j s') else some (s, i)

  -- The case 2 of the menu, and the new number of students.
  unfoldable pub add_student : Answers F → ℕ → (ℕ → Student F) → Option ((ℕ → Student F) × ℕ)
  add_student a num s = do
    s' ← students a num s
    n ← retreat_all marks_of_person s' (suc num)
    some (s', n)

  -- The number of students that pass, which `passPercentage` computes as well.
  unfoldable pub count_passed : (i rounds : ℕ) → (ℕ → Student F) → ℕ
  count_passed i zero s = 0
  count_passed i (suc n) s =
      let rest = count_passed (i + 1) n s in
      if ops.gt (s i).sum (ops.lit 150) then 1 + rest else rest

  unfoldable pub pass_percentage : ℕ → (ℕ → Student F) → F
  pass_percentage num s =
      ops.mul (ops.div (ops.lit (count_passed 0 num s)) (ops.lit num)) (ops.lit 100)

  unfoldable pub total_from : F → (i rounds : ℕ) → (ℕ → Student F) → F
  total_from total i zero s = total
  total_from total i (suc n) s = total_from (ops.add total (s i).avg) (i + 1) n s

  unfoldable pub class_average : ℕ → (ℕ → Student F) → F
  class_average num s = ops.div (total_from (ops.lit 0) 0 num s) (ops.lit num)
