-- ===== src/Shell/Examples.antt =====
-- Runs of the shell.
use zosys.Common.{ℕ, ◌-◌, ◌≡◌, refl, arith, List, [], ◌∷◌, length}
use mathlib.Core.Option.{some}
use zosys.Shell.{accepted, get_command_line}
use zosys.Shell.Editor.{edited}
use zosys.Shell.Lines.{Edits, get_command_line_lem}

-- Of five characters the buffer keeps three, and a backspace takes the last of these.
abbrev input : List ℕ
input = b'a' ∷ b'b' ∷ b'c' ∷ b'd' ∷ b'e' ∷ 0x08 ∷ 0x0a ∷ b'x' ∷ []

edited_example : edited 3 input [] ≡ some (b'b' ∷ b'a' ∷ [], b'x' ∷ [])
unfolding edited accepted
edited_example = refl

abbrev old : List ℕ
old = 9 ∷ 9 ∷ 9 ∷ 9 ∷ []

get_command_line_lem_example :
    Edits (length old) (edited (length old - 1) input []) (get_command_line old (length old) input)
get_command_line_lem_example = get_command_line_lem old input (omega arith)
