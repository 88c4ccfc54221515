-- ===== src/Evaluator/Decimal.antt =====
-- Numbers in decimal, and `atoi` on them.
use genspark_training.Base.{
  append-All, ℕ, zero, suc, ◌+◌, ◌-◌, ◌*◌, ◌/◌, ◌%◌, ◌≤◌, ◌<◌, ◌≡◌, inl, inr, true, [], ◌∷◌, ◌++◌,
  Text, All, length, length-append, ltb, if◌then◌else◌, arith, Bool-cases,
}
use genspark_training.Evaluator.{is_digit, starts_with_digit, atoi_from}

-- The digits of a number with at most `suc places` of them.
abbrev pub digits : (places : ℕ) → ℕ → Text
digits zero n = (48 + n) ∷ []
digits (suc k) n =
    let front = digits k (n / 10) in if ltb n 10 then (48 + n) ∷ [] else front ++ (48 + n % 10) ∷ []

digit_lem : (d : ℕ) → d < 10 → is_digit (48 + d) ≡ true
digit_lem d h = ground (arith, h)

atoi_from-append :
    (n d : ℕ) (text : Text)
    → All (λ b. is_digit b ≡ true) text
    → d < 10
    → atoi_from n (text ++ (48 + d) ∷ []) ≡ atoi_from n text * 10 + d
unfolding atoi_from
atoi_from-append n d [] h lt =
    let e = digit_lem d lt in
    let same : n * 10 + (48 + d - 48) ≡ n * 10 + d = omega arith in rw e same
atoi_from-append n d (b ∷ text) h lt = rw (h.0) (atoi_from-append (n * 10 + (b - 48)) d text h.1 lt)

-- Ten to the number of the places.
abbrev pub bound : (places : ℕ) → ℕ
bound zero = 10
bound (suc k) = 10 * bound k

digits_all : (k n : ℕ) → n < bound k → All (λ b. is_digit b ≡ true) (digits k n)
digits_all zero n h = (digit_lem n h, tt)
digits_all (suc k) n h = elim (Bool-cases (ltb n 10)) [
  | inl e ↦ rw e (digit_lem n (ground (arith, e)), tt)
  | inr e ↦ rw e (
      append-All (λ b. is_digit b ≡ true) (digits k (n / 10)) ((48 + n % 10) ∷ [])
        (digits_all k (n / 10) (omega (arith, h))) (digit_lem (n % 10) (omega arith), tt))
]

one_digit : (d : ℕ) → d < 10 → atoi_from 0 ((48 + d) ∷ []) ≡ d
unfolding atoi_from
one_digit d h =
    let e = digit_lem d h in let same : 0 * 10 + (48 + d - 48) ≡ d = omega arith in rw e same

pub atoi_from-digits : (k n : ℕ) → n < bound k → atoi_from 0 (digits k n) ≡ n
atoi_from-digits zero n h = one_digit n h
atoi_from-digits (suc k) n h = elim (Bool-cases (ltb n 10)) [
  | inl e ↦ rw e (one_digit n (ground (arith, e)))
  | inr e ↦
      (let small : n / 10 < bound k = omega (arith, h) in
        let push =
          atoi_from-append 0 (n % 10) (digits k (n / 10)) (digits_all k (n / 10) small)
            (omega arith) in
        let front = atoi_from-digits k (n / 10) small in rw e (omega (arith, push, front)))
]

starts-append :
    (d : ℕ) (text : Text)
    → starts_with_digit text ≡ true
    → starts_with_digit (text ++ (48 + d) ∷ []) ≡ true
unfolding starts_with_digit
starts-append d [] e = absurd (ground arith)
starts-append d (b ∷ text) e = e

pub digits-starts : (k n : ℕ) → n < bound k → starts_with_digit (digits k n) ≡ true
unfolding starts_with_digit
digits-starts zero n h = digit_lem n h
digits-starts (suc k) n h = elim (Bool-cases (ltb n 10)) [
  | inl e ↦ rw e (digit_lem n (ground (arith, e)))
  | inr e ↦
      rw e
        (starts-append (n % 10) (digits k (n / 10)) (digits-starts k (n / 10) (omega (arith, h))))
]

pub length-digits-le : (k n : ℕ) → length (digits k n) ≤ suc k
length-digits-le zero n = omega arith
length-digits-le (suc k) n = elim (Bool-cases (ltb n 10)) [
  | inl e ↦ rw e (omega arith)
  | inr e ↦
      (let a = length-append (digits k (n / 10)) ((48 + n % 10) ∷ []) in
        let b = length-digits-le k (n / 10) in rw e (omega (arith, a, b)))
]
