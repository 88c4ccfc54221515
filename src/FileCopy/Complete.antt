-- ===== src/FileCopy/Complete.antt =====
-- The copy of file-copy.c is complete, however the reads and writes are divided.
use mathlib.Core.List.{append-nil, append_assoc}
use genspark_training.Base.{
  ℕ, zero, suc, ◌+◌, ◌-◌, ◌*◌, ◌≤◌, ◌<◌, ◌≡◌, refl, sym, ap, ◌∙◌, ◌⊎◌, inl, inr, List, [], ◌∷◌,
  ◌++◌, Text, length, length-append, take, arith,
}
use genspark_training.FileCopy.{
  buf_size, Answer, ReadResult, WriteResult, drop, read_all, write_all, Outcome, copy,
}

-- No answer is an error.
abbrev pub Works : List Answer → Type 0
Works [] = Unit
Works (Answer.part m ∷ answers) = Works answers
Works (Answer.interrupted ∷ answers) = Works answers
Works (Answer.failed ∷ answers) = ⊥

-- The number of answers that move bytes.
abbrev pub parts : List Answer → ℕ
parts [] = 0
parts (Answer.part m ∷ answers) = 1 + parts answers
parts (Answer.interrupted ∷ answers) = parts answers
parts (Answer.failed ∷ answers) = parts answers

take-drop : (m : ℕ) (text : Text) → take m text ++ drop m text ≡ text
take-drop zero text = refl
take-drop (suc m) [] = refl
take-drop (suc m) (b ∷ text) = ap (λ l. b ∷ l) (take-drop m text)

take-take-drop :
    (m left : ℕ) (file : Text)
    → take m (take left file) ++ drop (length (take m (take left file))) file ≡ file
take-take-drop zero left file = refl
take-take-drop (suc m) zero file = refl
take-take-drop (suc m) (suc left) [] = refl
take-take-drop (suc m) (suc left) (b ∷ file) = ap (λ l. b ∷ l) (take-take-drop m left file)

-- What `read_all` gives.
record Got (answers : List Answer) (left : ℕ) (done file : Text) : Type 0 where
  chunk : Text
  rest : Text
  others : List Answer
  result : read_all answers left done file ≡ ReadResult.got (done ++ chunk) rest others
  whole : chunk ++ rest ≡ file
  works : Works others
  used : parts answers ≤ parts others + length chunk + 1
  moved : (left ≡ 0) ⊎ (file ≡ []) ⊎ (0 < length chunk)

read_all_lem :
    (answers : List Answer) (left : ℕ) (done file : Text)
    → Works answers
    → length file + 1 ≤ parts answers
    → Got answers left done file
unfolding read_all
read_all_lem [] zero done file w h = absurd (omega (arith, h))
read_all_lem (a ∷ answers) zero done file w h = record {
  chunk = [];
  rest = file;
  others = a ∷ answers;
  result = ap (λ l. ReadResult.got l file (a ∷ answers)) (sym (append-nil done));
  whole = refl;
  works = w;
  used = omega arith;
  moved = inl refl;
}
read_all_lem [] (suc left) done file w h = absurd (omega (arith, h))
read_all_lem (Answer.interrupted ∷ answers) (suc left) done file w h =
    let g = read_all_lem answers (suc left) done file w h in
    record {
      chunk = g.chunk;
      rest = g.rest;
      others = g.others;
      result = g.result;
      whole = g.whole;
      works = g.works;
      used = g.used;
      moved = g.moved;
    }
read_all_lem (Answer.failed ∷ answers) (suc left) done file w h = absurd w
read_all_lem (Answer.part m ∷ answers) (suc left) done [] w h = record {
  chunk = [];
  rest = [];
  others = answers;
  result = ap (λ l. ReadResult.got l [] answers) (sym (append-nil done));
  whole = refl;
  works = w;
  used = omega arith;
  moved = inr (inl refl);
}
read_all_lem (Answer.part m ∷ answers) (suc left) done (b ∷ file) w h =
    let c = take m (take left file) in
    let whole = take-take-drop m left file in
    let size = length-append c (drop (length c) file) in
    let size' : length (c ++ drop (length c) file) ≡ length file = ap length whole in
    let g =
      read_all_lem answers (left - length c) (done ++ (b ∷ c)) (drop (length c) file) w
        (omega (arith, h, size, size')) in
    let long = length-append c g.chunk in
    record {
      chunk = b ∷ (c ++ g.chunk);
      rest = g.rest;
      others = g.others;
      result =
          g.result ∙ ap (λ l. ReadResult.got l g.rest g.others) (append_assoc done (b ∷ c) g.chunk);
      whole = ap (λ l. b ∷ l) (append_assoc c g.chunk g.rest ∙ (ap (λ l. c ++ l) g.whole ∙ whole));
      works = g.works;
      used = (let u = g.used in omega (arith, u, long));
      moved = inr (inr (omega arith));
    }

write_all_lem :
    (answers : List Answer) (text dest : Text)
    → Works answers
    → length text ≤ parts answers
    → (others : List Answer) × (write_all answers text dest
        ≡ WriteResult.wrote (dest ++ text) others)
      × Works others
      × (parts answers ≤ parts others + length text)
unfolding write_all
write_all_lem [] [] dest w h =
    ([], ap (λ l. WriteResult.wrote l []) (sym (append-nil dest)), tt, omega arith)
write_all_lem (a ∷ answers) [] dest w h = (
  a ∷ answers,
  ap (λ l. WriteResult.wrote l (a ∷ answers)) (sym (append-nil dest)),
  w,
  omega arith,
)
write_all_lem [] (b ∷ text) dest w h = absurd (omega (arith, h))
write_all_lem (Answer.interrupted ∷ answers) (b ∷ text) dest w h =
    write_all_lem answers (b ∷ text) dest w h
write_all_lem (Answer.failed ∷ answers) (b ∷ text) dest w h = absurd w
write_all_lem (Answer.part m ∷ answers) (b ∷ text) dest w h =
    let size = length-append (take m text) (drop m text) in
    let size' : length (take m text ++ drop m text) ≡ length text = ap length (take-drop m text) in
    let (others, e, v, u) =
      write_all_lem answers (drop m text) (dest ++ (b ∷ take m text)) w
        (omega (arith, h, size, size')) in
    (
      others,
      e
          ∙ ap (λ l. WriteResult.wrote l others)
              (append_assoc dest (b ∷ take m text) (drop m text)
                ∙ ap (λ l. dest ++ (b ∷ l)) (take-drop m text)),
      v,
      omega (arith, u, size, size'),
    )

-- A round of the loop.
round_lem :
    (fuel : ℕ) (answers : List Answer) (file dest : Text) (chunk rest : Text) (others : List Answer)
    → read_all answers buf_size [] file ≡ ReadResult.got chunk rest others
    → (chunk ≡ [] → copy (suc fuel) answers file dest ≡ Outcome.copied dest)
      × ((b : ℕ) (bs : Text) (dest' : Text) (last : List Answer)
          → chunk ≡ b ∷ bs
          → write_all others chunk dest ≡ WriteResult.wrote dest' last
          → copy (suc fuel) answers file dest ≡ copy fuel last rest dest')
unfolding copy
round_lem fuel answers file dest chunk rest others e = (
  (λ h. rw (copy, e, h) refl),
  (λ b bs dest' last h f.
      rw (copy, e, h) (let g = sym (ap (λ l. write_all others l dest) h) ∙ f in rw g refl)),
)

list_cases : (l : Text) → (l ≡ []) ⊎ ((b : ℕ) × (bs : Text) × (l ≡ b ∷ bs))
list_cases [] = inl refl
list_cases (b ∷ bs) = inr (b, bs, refl)

-- Where neither read nor write fails, and they answer often enough, the copy ends and the destination has what
-- it had and the whole file behind it, in whatever parts the bytes are read and written, with interrupts in
-- between.
pub copy_complete :
    (fuel : ℕ) (answers : List Answer) (file dest : Text)
    → Works answers
    → length file < fuel
    → 3 * length file + 1 ≤ parts answers
    → copy fuel answers file dest ≡ Outcome.copied (dest ++ file)
copy_complete zero answers file dest w h p = absurd (omega (arith, h))
copy_complete (suc fuel) answers file dest w h p =
    let g = read_all_lem answers buf_size [] file w (omega (arith, p)) in
    let (stop, go) = round_lem fuel answers file dest g.chunk g.rest g.others g.result in
    let size = length-append g.chunk g.rest in
    let size' : length (g.chunk ++ g.rest) ≡ length file = ap length g.whole in
    elim (list_cases g.chunk) [
      | inl e ↦
          stop e
          ∙ ap Outcome.copied
              (sym (append-nil dest) ∙ ap (λ l. dest ++ l) (sym (nothing e g.moved)))
      | inr (b, bs, e) ↦
          (let long : length g.chunk ≡ suc (length bs) = ap length e in
            let used = g.used in
            let (last, f, v, u) =
              write_all_lem g.others g.chunk dest g.works
                (omega (arith, p, used, size, size', long)) in
            go b bs (dest ++ g.chunk) last e f
            ∙ (copy_complete fuel last g.rest (dest ++ g.chunk) v
                  (omega (arith, h, size, size', long))
                  (omega (arith, p, used, u, size, size', long))
                ∙ ap Outcome.copied
                    (append_assoc dest g.chunk g.rest ∙ ap (λ l. dest ++ l) g.whole)))
    ]
  where
    nothing :
        {chunk : Text} → chunk ≡ [] → (buf_size ≡ 0) ⊎ (file ≡ []) ⊎ (0 < length chunk) → file ≡ []
    nothing e (inl z) = absurd (omega (arith, z))
    nothing e (inr (inl z)) = z
    nothing e (inr (inr z)) = let none_there = ap length e in absurd (omega (arith, z, none_there))
