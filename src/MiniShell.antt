-- ===== src/MiniShell.antt =====
-- The command line of minishell.c: what a line becomes before the program forks. fork, execvp and wait
-- are system calls.
pub mod Words
mod Tests
use genspark_training.Base.{
  ℕ, zero, suc, Bool, true, false, Option, none, some, List, [], ◌∷◌, Text, bytes, text_eq, ◌==◌,
  if◌then◌else◌,
}

-- `MAX_ARGS - 1`
abbrev pub max_args : ℕ
max_args = 63

-- `input[strcspn(input, "\n")] = '\0'`
unfoldable pub cut_newline : Text → Text
cut_newline [] = []
cut_newline (b ∷ input) = let rest = cut_newline input in if b == 10 then [] else b ∷ rest

unfoldable pub skip_spaces : Text → Text
skip_spaces [] = []
skip_spaces (b ∷ input) = let rest = skip_spaces input in if b == 32 then rest else b ∷ input

-- A token, and what is behind the byte that ends it.
unfoldable pub until_space : Text → Text × Text
until_space [] = ([], [])
until_space (b ∷ input) =
    let (token, rest) = until_space input in if b == 32 then ([], input) else (b ∷ token, rest)

abbrev pub token_at : Text → Option (Text × Text)
token_at [] = none
token_at (b ∷ input) = some (until_space (b ∷ input))

-- `strtok` with " ": a token, and where the next call goes on.
unfoldable pub strtok : Text → Option (Text × Text)
strtok input = token_at (skip_spaces input)

-- The loop, with room for so many tokens.
unfoldable pub tokenize : (room : ℕ) → Text → List Text
tokenize zero input = []
tokenize (suc n) input = elim (strtok input) [
  | none ↦ []
  | some (token, rest) ↦ token ∷ tokenize n rest
]

-- What the shell does with a line.
pub data Command : Type 0 where
  leave : Command
  nothing : Command
  run : List Text → Command

abbrev pub command_of : List Text → Command
command_of [] = Command.nothing
command_of (name ∷ args) = Command.run (name ∷ args)

unfoldable pub read_line : Text → Command
read_line input =
    if text_eq (cut_newline input) (bytes "exit")
    then Command.leave
    else command_of (tokenize max_args (cut_newline input))
