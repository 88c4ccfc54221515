-- ===== src/WordCount/Chunks.antt =====
-- What the division of a file into chunks does to the word count of task-word-count-pthread.c.
use genspark_training.Base.{
  ℕ, zero, suc, ◌+◌, ◌-◌, ◌*◌, ◌/◌, ◌≤◌, ◌<◌, ◌≡◌, refl, sym, ap, ◌∙◌, Bool, true, false, not, ◌&&◌,
  [], ◌∷◌, ◌++◌, Text, take, length, length-append, arith, Bool-cases, inl, inr,
}
use mathlib.Core.List.{append-nil, append_assoc}
use genspark_training.WordCount.{
  worker_count, is_space, one_if, count_from, drop, worker, sum_from, total_words,
}

-- The last byte, where there is one, is not white space; `before` where there is none.
abbrev pub ends_in_word : (before : Bool) → Text → Bool
ends_in_word before [] = before
ends_in_word before (b ∷ s) = ends_in_word (not (is_space b)) s

abbrev pub starts_in_word : Text → Bool
starts_in_word [] = false
starts_in_word (b ∷ s) = not (is_space b)

-- 1 where a word goes across the border between the two parts.
abbrev pub cut : Text → Text → ℕ
cut a b = one_if (ends_in_word false a && starts_in_word b)

count_from-in_word :
    (in_word : Bool) (s : Text)
    → count_from in_word s + one_if (in_word && starts_in_word s)
      ≡ count_from false s + one_if in_word
unfolding count_from
count_from-in_word true [] = refl
count_from-in_word false [] = refl
count_from-in_word true (b ∷ s) = ground arith
count_from-in_word false (b ∷ s) = ground arith

count_from-append :
    (in_word : Bool) (a b : Text)
    → count_from in_word a + count_from false b
      ≡ count_from in_word (a ++ b) + one_if (ends_in_word in_word a && starts_in_word b)
unfolding count_from
count_from-append in_word [] b = omega (arith, count_from-in_word in_word b)
count_from-append in_word (c ∷ a) b = elim (Bool-cases (is_space c)) [
  | inl e ↦ rw e (omega (arith, count_from-append false a b))
  | inr e ↦ rw e (count_from-append true a b)
]

drop-append : (n : ℕ) (x w : Text) → n ≡ length x → drop n (x ++ w) ≡ w
drop-append zero [] w h = refl
drop-append zero (b ∷ x) w h = absurd (omega arith)
drop-append (suc n) [] w h = absurd (omega arith)
drop-append (suc n) (b ∷ x) w h = drop-append n x w (omega arith)

take-append : (n : ℕ) (y z : Text) → n ≡ length y → take n (y ++ z) ≡ y
take-append zero [] z h = refl
take-append zero (b ∷ y) z h = absurd (omega arith)
take-append (suc n) [] z h = absurd (omega arith)
take-append (suc n) (b ∷ y) z h = ap (λ l. b ∷ l) (take-append n y z (omega arith))

worker-append :
    (x y z : Text) (start end : ℕ)
    → start ≡ length x
    → end ≡ length x + length y
    → worker (x ++ (y ++ z)) start end ≡ count_from false y
unfolding worker
worker-append x y z start end s e =
    rw (drop-append start x (y ++ z) s, take-append (end - start) y z (omega (arith, s, e))) refl

worker-third :
    (a b c d : Text) (start end : ℕ)
    → start ≡ length a + length b
    → end ≡ length a + length b + length c
    → worker (a ++ (b ++ (c ++ d))) start end ≡ count_from false c
worker-third a b c d start end s e =
    ap (λ f. worker f start end) (sym (append_assoc a b (c ++ d)))
    ∙ worker-append (a ++ b) c d start end (omega (arith, s, length-append a b))
        (omega (arith, e, length-append a b))

worker-last :
    (a b c d : Text) (start end : ℕ)
    → start ≡ length a + length b + length c
    → end ≡ length a + length b + length c + length d
    → worker (a ++ (b ++ (c ++ d))) start end ≡ count_from false d
worker-last a b c d start end s e =
    ap (λ t. worker (a ++ (b ++ (c ++ t))) start end) (sym (append-nil d))
    ∙ (ap (λ t. worker (a ++ t) start end) (sym (append_assoc b c (d ++ [])))
        ∙ (ap (λ f. worker f start end) (sym (append_assoc a (b ++ c) (d ++ [])))
            ∙ worker-append (a ++ (b ++ c)) d [] start end
                (omega (arith, s, length-append a (b ++ c), length-append b c))
                (omega (arith, e, length-append a (b ++ c), length-append b c))))

-- The number that the program prints is the number of words of the file, and one more for each border
-- between two chunks that lies within a word. The file is given as its four chunks: three as long as a
-- quarter of the length, rounded down, and the rest.
pub total_words-cut :
    (a b c d : Text) (q : ℕ)
    → length a ≡ q
    → length b ≡ q
    → length c ≡ q
    → q ≤ length d
    → length d < q + 4
    → (let file = a ++ (b ++ (c ++ d)) in
        total_words file (length file)
        ≡ count_from false file + (cut a (b ++ (c ++ d)) + cut b (c ++ d) + cut c d))
unfolding total_words sum_from
total_words-cut a b c d q ha hb hc low high =
    let file = a ++ (b ++ (c ++ d)) in
    let total : length file ≡ 3 * q + length d = omega (
      arith,
      length-append a (b ++ (c ++ d)),
      length-append b (c ++ d),
      length-append c d,
      ha,
      hb,
      hc,
    ) in
    let chunk : length file / worker_count ≡ q = omega (arith, total, low, high) in
    let w0 =
      worker-append [] a (b ++ (c ++ d)) (0 * (length file / worker_count))
        (1 * (length file / worker_count)) (omega (arith, chunk)) (omega (arith, chunk, ha)) in
    let w1 =
      worker-append a b (c ++ d) (1 * (length file / worker_count))
        (2 * (length file / worker_count)) (omega (arith, chunk, ha))
        (omega (arith, chunk, ha, hb)) in
    let w2 =
      worker-third a b c d (2 * (length file / worker_count)) (3 * (length file / worker_count))
        (omega (arith, chunk, ha, hb)) (omega (arith, chunk, ha, hb, hc)) in
    let w3 =
      worker-last a b c d (3 * (length file / worker_count)) (length file)
        (omega (arith, chunk, ha, hb, hc)) (omega (arith, total, ha, hb, hc)) in
    omega (
      arith,
      w0,
      w1,
      w2,
      w3,
      count_from-append false a (b ++ (c ++ d)),
      count_from-append false b (c ++ d),
      count_from-append false c d,
    )
