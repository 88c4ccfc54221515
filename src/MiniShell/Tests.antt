-- ===== src/MiniShell/Tests.antt =====
-- Lines of minishell.c.
use genspark_training.Base.{◌≡◌, refl, [], ◌∷◌, ◌++◌, Text, bytes, text_eq, take, if◌then◌else◌}
use genspark_training.MiniShell.{
  max_args, cut_newline, skip_spaces, until_space, strtok, tokenize, Command, command_of, read_line,
}
use genspark_training.MiniShell.Words.{split, read_line-split}

abbrev line : Text → Text
line text = text ++ 10 ∷ []

listing :
    read_line (line (bytes "  ls  -l /tmp "))
    ≡ Command.run (bytes "ls" ∷ bytes "-l" ∷ bytes "/tmp" ∷ [])
unfolding read_line cut_newline skip_spaces until_space strtok tokenize text_eq
listing = refl

-- A blank behind `exit` makes it a command to run.
exits :
    (read_line (line (bytes "exit")) ≡ Command.leave)
    × (read_line (line (bytes "exit ")) ≡ Command.run (bytes "exit" ∷ []))
    × (read_line (line (bytes "  ")) ≡ Command.nothing)
unfolding read_line cut_newline skip_spaces until_space strtok tokenize text_eq
exits = (refl, refl, refl)

read_line-split_example : read_line (bytes "ls -l" ++ 10 ∷ []) ≡ (
    if text_eq (bytes "ls -l") (bytes "exit")
    then Command.leave
    else command_of (take max_args (split [] (bytes "ls -l"))))
read_line-split_example =
    read_line-split (bytes "ls -l") [] (refl, (refl, (refl, (refl, (refl, tt)))))
