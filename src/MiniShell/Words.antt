-- ===== src/MiniShell/Words.antt =====
-- The arguments that minishell.c passes on are the words of the line.
use mathlib.Core.Path.{subst}
use mathlib.Core.List.{append-nil, append_assoc}
use genspark_training.Base.{
  ℕ, zero, suc, ◌≡◌, refl, sym, ap, ◌∙◌, inl, inr, false, Option, none, some, List, [], ◌∷◌, ◌++◌,
  Text, bytes, text_eq, All, take, ◌==◌, if◌then◌else◌, Bool-cases,
}
use genspark_training.MiniShell.{
  max_args, cut_newline, skip_spaces, until_space, token_at, strtok, tokenize, Command, command_of,
  read_line,
}

-- The bytes between blanks, read from the left: `word` is what was read since the last blank.
abbrev pub split : (word : Text) → Text → List Text
split [] [] = []
split (c ∷ word) [] = (c ∷ word) ∷ []
split [] (b ∷ s) = if b == 32 then split [] s else split (b ∷ []) s
split (c ∷ word) (b ∷ s) =
    if b == 32 then (c ∷ word) ∷ split [] s else split ((c ∷ word) ++ b ∷ []) s

skip_spaces_stop : (b : ℕ) (s : Text) → (b == 32) ≡ false → skip_spaces (b ∷ s) ≡ b ∷ s
unfolding skip_spaces
skip_spaces_stop b s e = rw e refl

until_space_more :
    (b : ℕ) (s : Text)
    → (b == 32) ≡ false
    → until_space (b ∷ s) ≡ (b ∷ (until_space s).0, (until_space s).1)
unfolding until_space
until_space_more b s e = rw e refl

skip_spaces-split : (s : Text) → split [] (skip_spaces s) ≡ split [] s
unfolding skip_spaces
skip_spaces-split [] = refl
skip_spaces-split (b ∷ s) = elim (Bool-cases (b == 32)) [
  | inl e ↦ rw (e) (skip_spaces-split s)
  | inr e ↦ ap (split []) (skip_spaces_stop b s e)
]

split-until_space :
    (c : ℕ) (word s : Text)
    → split (c ∷ word) s ≡ ((c ∷ word) ++ (until_space s).0) ∷ split [] (until_space s).1
unfolding until_space
split-until_space c word [] = ap (λ w. (c ∷ w) ∷ []) (sym (append-nil word))
split-until_space c word (b ∷ s) = elim (Bool-cases (b == 32)) [
  | inl e ↦ rw (until_space, e) (ap (λ w. (c ∷ w) ∷ split [] s) (sym (append-nil word)))
  | inr e ↦
      (let more : split (c ∷ word) (b ∷ s) ≡ split (c ∷ (word ++ b ∷ [])) s = rw e refl in
        let u = until_space_more b s e in
        let rest = split-until_space c (word ++ b ∷ []) s in
        let joined = append_assoc word (b ∷ []) (until_space s).0 in
        more
        ∙ (rest
            ∙ (ap (λ w. (c ∷ w) ∷ split [] (until_space s).1) joined
                ∙ ap (λ v. (c ∷ (word ++ v.0)) ∷ split [] v.1) (sym u))))
]

-- No blank is in front.
abbrev IsTrimmed : Text → Type 0
IsTrimmed [] = Unit
IsTrimmed (b ∷ s) = (b == 32) ≡ false

skip_spaces-IsTrimmed : (s : Text) → IsTrimmed (skip_spaces s)
unfolding skip_spaces
skip_spaces-IsTrimmed [] = tt
skip_spaces-IsTrimmed (b ∷ s) = elim (Bool-cases (b == 32)) [
  | inl e ↦ rw e (skip_spaces-IsTrimmed s)
  | inr e ↦ subst IsTrimmed (sym (skip_spaces_stop b s e)) e
]

-- The words from a token on.
abbrev words_at : Option (Text × Text) → List Text
words_at none = []
words_at (some (token, rest)) = token ∷ split [] rest

-- A token is the next word.
strtok-split : (s : Text) → IsTrimmed s → split [] s ≡ words_at (token_at s)
strtok-split [] h = refl
strtok-split (b ∷ s) h =
    let more : split [] (b ∷ s) ≡ split (b ∷ []) s = rw h refl in
    more ∙ (split-until_space b [] s ∙ ap (λ v. v.0 ∷ split [] v.1) (sym (until_space_more b s h)))

tokenize_step :
    (n : ℕ) (o : Option (Text × Text))
    → ((s : Text) → tokenize n s ≡ take n (split [] s))
    → elim o [ none ↦ [] | some (token, rest) ↦ token ∷ tokenize n rest ]
      ≡ take (suc n) (words_at o)
tokenize_step n none h = refl
tokenize_step n (some (token, rest)) h = ap (λ l. token ∷ l) (h rest)

tokenize-split : (n : ℕ) (s : Text) → tokenize n s ≡ take n (split [] s)
unfolding tokenize strtok
tokenize-split zero s = refl
tokenize-split (suc n) s =
    let e = strtok-split (skip_spaces s) (skip_spaces-IsTrimmed s) in
    let f = sym (skip_spaces-split s) ∙ e in
    tokenize_step n (token_at (skip_spaces s)) (tokenize-split n) ∙ ap (take (suc n)) (sym f)

cut_newline-append :
    (line rest : Text) → All (λ b. (b == 10) ≡ false) line → cut_newline (line ++ 10 ∷ rest) ≡ line
unfolding cut_newline
cut_newline-append [] rest h = refl
cut_newline-append (b ∷ line) rest h = rw (h.0, cut_newline-append line rest h.1) refl

-- On a line as `fgets` left it in the buffer, without its newline, the shell ends if it is "exit". Otherwise it does nothing if the line has no
-- words, and runs the command that its words are, the first 63 of them.
pub read_line-split :
    (line rest : Text)
    → All (λ b. (b == 10) ≡ false) line
    → read_line (line ++ 10 ∷ rest) ≡ (
        if text_eq line (bytes "exit")
        then Command.leave
        else command_of (take max_args (split [] line)))
unfolding read_line
read_line-split line rest h = rw (cut_newline-append line rest h, tokenize-split max_args line) refl
