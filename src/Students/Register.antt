-- ===== src/Students/Register.antt =====
-- The register of student.c: what an entry does to it, for rolls and names.
use mathlib.Core.Path.{subst}
use genspark_training.Base.{
  ℕ, suc, ◌<◌, ◌≡◌, refl, sym, ap, ◌∙◌, ◌≢◌, ◌↔◌, ◌⊎◌, inl, inr, Bool, true, false, Option, none,
  some, Text, bytes, text_eq, text_eq_iff, update, find_first-some, find_first-none, ℤ, int_eq,
  int_eq_iff, ltb, ◌==◌, arith, Bool-cases, Option-cases,
}
use genspark_training.Students.{
  Student, bad_roll, find_student, find_by_roll, find_by_name, is_some,
}

-- The first `n` students: each roll is in range, no name marks a rejection, and no roll or name is there
-- twice.
pub record IsRegister {F : Type 0} (s : ℕ → Student F) (n : ℕ) : Type 0 where
  pub rolls : (k : ℕ) → k < n → bad_roll (s k).roll ≡ false
  pub names : (k : ℕ) → k < n → text_eq (s k).name (bytes "x") ≡ false
  pub roll_once : (j k : ℕ) → j < n → k < n → (s j).roll ≡ (s k).roll → j ≡ k
  pub name_once : (j k : ℕ) → j < n → k < n → (s j).name ≡ (s k).name → j ≡ k

-- A student whose roll and name are not in the register.
pub record IsNew {F : Type 0} (s : ℕ → Student F) (n : ℕ) (st : Student F) : Type 0 where
  pub roll : bad_roll st.roll ≡ false
  pub name : text_eq st.name (bytes "x") ≡ false
  pub other_roll : (k : ℕ) → k < n → (s k).roll ≢ st.roll
  pub other_name : (k : ℕ) → k < n → (s k).name ≢ st.name

pub not_found : {A : Type 0} (o : Option A) → is_some o ≡ false → o ≡ none
not_found none h = refl
not_found (some a) h = absurd (ground arith)

module _ {F : Type 0} (s : ℕ → Student F) (n : ℕ) where
  pub update-before : (st : Student F) (k : ℕ) → k < n → update s n st k ≡ s k
  update-before st k h = let other : (n == k) ≡ false = ground (arith, h) in rw other refl

  pub update_here : (st : Student F) → update s n st n ≡ st
  update_here st = let self : (n == n) ≡ true = ground arith in rw self refl

  pub register_kept : (st : Student F) → IsRegister s n → IsRegister (update s n st) n
  register_kept st v = record {
    rolls = λ k h. rw (update-before st k h) (v.rolls k h);
    names = λ k h. rw (update-before st k h) (v.names k h);
    roll_once = λ j k h g e. v.roll_once j k h g (
        sym (ap (λ t. t.roll) (update-before st j h))
        ∙ (e ∙ ap (λ t. t.roll) (update-before st k g)));
    name_once = λ j k h g e. v.name_once j k h g (
        sym (ap (λ t. t.name) (update-before st j h))
        ∙ (e ∙ ap (λ t. t.name) (update-before st k g)));
  }

  -- An index of a register that is one longer.
  pub last-cases : (k : ℕ) → k < suc n → (k < n) ⊎ (k ≡ n)
  last-cases k h = elim (Bool-cases (ltb k n)) [
    | inl e ↦ inl (ground (arith, e))
    | inr e ↦ inr (ground (arith, e, h))
  ]

  module _ (P : Student F → Type 0) (st : Student F) where
    pub for_all : ((k : ℕ) → k < n → P (s k)) → P st → (k : ℕ) → k < suc n → P (update s n st k)
    for_all h p k g = elim (last-cases k g) [
      | inl e ↦ subst P (sym (update-before st k e)) (h k e)
      | inr e ↦ subst (λ i. P (update s n st i)) (sym e) (subst P (sym (update_here st)) p)
    ]

  module _ {A : Type 0} (f : Student F → A) (st : Student F) where
    once :
        ((j k : ℕ) → j < n → k < n → f (s j) ≡ f (s k) → j ≡ k)
        → ((k : ℕ) → k < n → f (s k) ≢ f st)
        → (j k : ℕ) → j < suc n
        → k < suc n
        → f (update s n st j) ≡ f (update s n st k)
        → j ≡ k
    once u d j k h g e = elim (last-cases j h) [
      | inl a ↦ elim (last-cases k g) [
        | inl b ↦ u j k a b (sym (ap f (update-before st j a)) ∙ (e ∙ ap f (update-before st k b)))
        | inr b ↦ absurd (
            d j a (
              sym (ap f (update-before st j a))
              ∙ (e ∙ (ap (λ i. f (update s n st i)) b ∙ ap f (update_here st)))))
      ]
      | inr a ↦ elim (last-cases k g) [
        | inl b ↦ absurd (
            d k b (
              sym (ap f (update-before st k b))
              ∙ (sym e ∙ (ap (λ i. f (update s n st i)) a ∙ ap f (update_here st)))))
        | inr b ↦ a ∙ sym b
      ]
    ]

  pub register_extended :
      (st : Student F) → IsRegister s n → IsNew s n st → IsRegister (update s n st) (suc n)
  register_extended st v w = record {
    rolls = for_all (λ t. bad_roll t.roll ≡ false) st v.rolls w.roll;
    names = for_all (λ t. text_eq t.name (bytes "x") ≡ false) st v.names w.name;
    roll_once = once (λ t. t.roll) st v.roll_once w.other_roll;
    name_once = once (λ t. t.name) st v.name_once w.other_name;
  }

  find_none :
      (test : Student F → Bool)
      → find_student test n s ≡ none
      → (k : ℕ) → k < n
      → test (s k) ≡ false
  find_none test h k g = find_first-none (λ i. test (s i)) 0 n k h (omega arith) (omega (arith, g))

  pub roll_free : (r : ℤ) → find_by_roll n r s ≡ none → (k : ℕ) → k < n → (s k).roll ≢ r
  unfolding find_by_roll
  roll_free r h k g e =
      let no = find_none (λ st. int_eq st.roll r) h k g in
      let yes = (int_eq_iff (s k).roll r).1 e in ground (arith, no, yes)

  pub name_free : (q : Text) → find_by_name n q s ≡ none → (k : ℕ) → k < n → (s k).name ≢ q
  unfolding find_by_name
  name_free q h k g e =
      let no = find_none (λ st. text_eq st.name q) h k g in
      let yes = (text_eq_iff (s k).name q).1 e in ground (arith, no, yes)

  found :
      (test : Student F → Bool) (k : ℕ)
      → find_student test n s ≡ some k
      → (test (s k) ≡ true) × (k < n)
  found test k h =
      let (a, b, c) = find_first-some (λ i. test (s i)) 0 n k h in (a, omega (arith, c))

  -- In a register the search for a roll gives the student that has it, and none where nobody has it.
  pub find_by_roll_iff :
      (r : ℤ) (k : ℕ)
      → IsRegister s n
      → (find_by_roll n r s ≡ some k) ↔ ((k < n) × ((s k).roll ≡ r))
  unfolding find_by_roll
  find_by_roll_iff r k v = (
    (λ h. let (e, g) = found (λ st. int_eq st.roll r) k h in (g, (int_eq_iff (s k).roll r).0 e)),
    (λ (g, e). elim (Option-cases (find_student (λ st. int_eq st.roll r) n s)) [
      | inl h ↦ absurd (roll_free r h k g e)
      | inr (j, h) ↦
          (let (f, b) = found (λ st. int_eq st.roll r) j h in
            h ∙ ap some (v.roll_once j k b g ((int_eq_iff (s j).roll r).0 f ∙ sym e)))
    ]),
  )
