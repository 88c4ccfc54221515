-- ===== src/Students/Entry.antt =====
-- What an entry of student.c does with the answers: on every branch, what the loop of `main` and the menu
-- read off the record afterwards.
use mathlib.Core.Path.{subst}
use genspark_training.Base.{
  ||-false, ||_right, ℕ, ◌<◌, ◌≡◌, ◌⊎◌, refl, ap, ◌∙◌, inl, inr, Bool, true, false, not, ◌&&◌, ◌||◌,
  Option, none, some, bytes, text_eq, length, ℤ, negsuc, int_eq, leb, arith, Bool-cases,
  Option-cases,
}
use genspark_training.Students.{
  Floats, Student, Answers, bad_roll, name_size, find_by_roll, find_by_name, is_some, minus_one,
  read_mark, enter_marks, enter_name, enter_roll,
}
use genspark_training.Students.Register.{IsNew, not_found, roll_free, name_free}

-- What the program relies on in `float`: -1 is equal to itself, and to nothing that is not below 0.
pub record IsFloats {F : Type 0} (ops : Floats F) : Type 0 where
  pub same : ops.eq (minus_one ops) (minus_one ops) ≡ true
  pub above : (x : F) → ops.le x (ops.lit 0) ≡ false → ops.eq x (minus_one ops) ≡ false

-- The roll is in range and in no record, and the name is in no record and not the mark of a rejection.
unfoldable pub accepts_person : {F : Type 0} → Answers F → ℕ → (ℕ → Student F) → Bool
accepts_person a n s = elim (a.roll) [
  | none ↦ false
  | some r ↦
      not (bad_roll r || is_some (find_by_roll n r s))
      && not (is_some (find_by_name n a.name s) || text_eq a.name (bytes "x"))
]

-- The first two marks are in range; the third is not asked for.
abbrev pub accepts_marks : {F : Type 0} → Floats F → Answers F → Bool
accepts_marks ops a = is_some (read_mark ops a.subject1) && is_some (read_mark ops a.subject2)

module _ {F : Type 0} (ops : Floats F) where
  abbrev pub person_marked : Student F → Bool
  person_marked st = int_eq st.roll (negsuc 0) || text_eq st.name (bytes "x")

  abbrev pub mark_marked : Student F → Bool
  mark_marked st = ops.eq st.subject1 (minus_one ops) || ops.eq st.subject2 (minus_one ops)

  read_mark-marked :
      (laws : IsFloats ops) (o : Option F) (m : F)
      → read_mark ops o ≡ some m
      → ops.eq m (minus_one ops) ≡ false
  unfolding read_mark
  read_mark-marked laws none m h = absurd (ground arith)
  read_mark-marked laws (some x) m h = elim (Bool-cases (ops.le x (ops.lit 0))) [
    | inl e ↦ absurd (ground (arith, h, e))
    | inr e ↦
        (let up = laws.above x e in
          let same : x ≡ m = ground (arith, h) in
          subst (λ y. ops.eq y (minus_one ops) ≡ false) same up)
  ]

  -- The marks leave the person; the first two are marked where they are rejected.
  enter_marks_lem :
      (laws : IsFloats ops) (a : Answers F) (st : Student F)
      → ((enter_marks ops a st).roll ≡ st.roll)
        × ((enter_marks ops a st).name ≡ st.name)
        × (mark_marked (enter_marks ops a st) ≡ not (accepts_marks ops a))
  unfolding enter_marks
  enter_marks_lem laws a st = elim (Option-cases (read_mark ops a.subject1)) [
    | inl e ↦ rw (enter_marks, e, laws.same) (refl, refl, refl)
    | inr (m1, e) ↦
        (let low = read_mark-marked laws a.subject1 m1 e in
          elim (Option-cases (read_mark ops a.subject2)) [
            | inl f ↦ rw (enter_marks, e, f, low, laws.same) (refl, refl, refl)
            | inr (m2, f) ↦
                (let low2 = read_mark-marked laws a.subject2 m2 f in
                  elim (Option-cases (read_mark ops a.subject3)) [
                    | inl g ↦ rw (enter_marks, e, f, g, low, low2) (refl, refl, refl)
                    | inr (m3, g) ↦ rw (enter_marks, e, f, g, low, low2) (refl, refl, refl)
                  ])
          ])
  ]

-- What the third mark leaves in a record that was `old` before: it is stored and the sum is computed, or it is
-- rejected, and -1 stands beside the sum and the average that were there.
abbrev pub ThirdMark : {F : Type 0} → Floats F → Answers F → Student F → Student F → Type 0
ThirdMark ops a old st =
    ((read_mark ops a.subject3 ≡ some st.subject3)
      × (st.sum ≡ ops.add (ops.add st.subject1 st.subject2) st.subject3))
    ⊎ ((read_mark ops a.subject3 ≡ none)
        × (st.subject3 ≡ minus_one ops)
        × (st.sum ≡ old.sum)
        × (st.avg ≡ old.avg))

-- The record after an entry.
pub data Entered {F : Type 0} (ops : Floats F) (a : Answers F) (n : ℕ) (s : ℕ → Student F)
    (old st : Student F) : Type 0 where
  rejected : accepts_person a n s ≡ false → person_marked ops st ≡ true → Entered ops a n s old st
  new :
      accepts_person a n s ≡ true
      → IsNew s n st
      → mark_marked ops st ≡ not (accepts_marks ops a)
      → (accepts_marks ops a ≡ true → ThirdMark ops a old st)
      → Entered ops a n s old st

module _ {F : Type 0} (ops : Floats F) (laws : IsFloats ops) (a : Answers F) (n : ℕ)
    (s : ℕ → Student F) (short : length a.name < name_size) where
  fits : leb name_size (length a.name) ≡ false
  fits = ground (arith, short)

  enter_marks-third :
      (st : Student F) → accepts_marks ops a ≡ true → ThirdMark ops a st (enter_marks ops a st)
  unfolding enter_marks
  enter_marks-third st h = elim (Option-cases (read_mark ops a.subject1)) [
    | inl e ↦ absurd (ground (arith, h, e))
    | inr (m1, e) ↦ elim (Option-cases (read_mark ops a.subject2)) [
      | inl f ↦ absurd (ground (arith, h, e, f))
      | inr (m2, f) ↦ elim (Option-cases (read_mark ops a.subject3)) [
        | inl g ↦ rw (enter_marks, e, f, g) (inr (refl, refl, refl, refl))
        | inr (m3, g) ↦ rw (enter_marks, e, f, g) (inl (refl, refl))
      ]
    ]
  ]

  named :
      (r : ℤ) (st : Student F)
      → a.roll ≡ some r
      → bad_roll r ≡ false
      → find_by_roll n r s ≡ none
      → find_by_name n a.name s ≡ none
      → Entered ops a n s st (enter_marks ops a (record st { roll = r; name = a.name }))
  unfolding accepts_person
  named r st h bad no_roll no_name =
      let (e, f, g) = enter_marks_lem ops laws a (record st { roll = r; name = a.name }) in
      elim (Bool-cases (text_eq a.name (bytes "x"))) [
        | inl x ↦ Entered.rejected (rw (accepts_person, h, bad, no_roll, no_name, x) refl) (
            ||_right
              (int_eq (enter_marks ops a (record st { roll = r; name = a.name })).roll (negsuc 0))
              (text_eq (enter_marks ops a (record st { roll = r; name = a.name })).name (bytes "x"))
              (ap (λ q. text_eq q (bytes "x")) f ∙ x))
        | inr x ↦
            Entered.new (rw (accepts_person, h, bad, no_roll, no_name, x) refl)
              (record {
                roll = rw e bad;
                name = rw f x;
                other_roll = rw e (roll_free s n r no_roll);
                other_name = rw f (name_free s n a.name no_name);
              })
              g (enter_marks-third (record st { roll = r; name = a.name }))
      ]

  pub enter_roll_lem :
      (st : Student F)
      → (st' : Student F) × (enter_roll ops a n s st ≡ some st') × Entered ops a n s st st'
  unfolding enter_roll enter_name accepts_person enter_marks text_eq
  enter_roll_lem st = elim (Option-cases a.roll) [
    | inl h ↦ (
      record st { roll = negsuc 0 },
      rw (enter_roll, h) refl,
      Entered.rejected (rw (accepts_person, h) refl) refl,
    )
    | inr (r, h) ↦ elim (Bool-cases (bad_roll r || is_some (find_by_roll n r s))) [
      | inl e ↦ (
        record st { roll = negsuc 0 },
        rw (enter_roll, h, e) refl,
        Entered.rejected (rw (accepts_person, h, e) refl) refl,
      )
      | inr e ↦ elim (Bool-cases (is_some (find_by_name n a.name s))) [
        | inl f ↦ (
          record st { roll = r; name = bytes "x" },
          rw (enter_roll, h, e, fits, f) refl,
          Entered.rejected (rw (accepts_person, h, e, f) refl)
              (||_right (int_eq r (negsuc 0)) true refl),
        )
        | inr f ↦ (
          enter_marks ops a (record st { roll = r; name = a.name }),
          rw (enter_roll, h, e, fits, f) refl,
          named r st h (||-false (bad_roll r) (is_some (find_by_roll n r s)) e).0
              (not_found (find_by_roll n r s)
                (||-false (bad_roll r) (is_some (find_by_roll n r s)) e).1)
              (not_found (find_by_name n a.name s) f),
        )
      ]
    ]
  ]
