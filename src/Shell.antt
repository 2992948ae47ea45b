-- ===== src/Shell.antt =====
-- sh/src/main.c: the line editor of the shell, and what it does with a line. An access outside a
-- buffer is a fault. `isprint`, `strtok` and `strcmp` are those of the C locale.
pub mod Editor
pub mod Lines
mod Examples
use zosys.Common.{
  ℕ, zero, suc, ◌+◌, ◌-◌, ◌*◌, Bool, true, false, not, ◌&&◌, ◌||◌, Option, none, some, List, [],
  ◌∷◌, ◌++◌, if◌then◌else◌, ltb, leb, ◌==◌, length, set,
}
use zosys.Common.Int.{ℤ, pos, negsuc, minus_one, is_neg}

abbrev pub is_print : ℕ → Bool
is_print c = leb 0x20 c && leb c 0x7e

abbrev pub newline : ℕ
newline = 0x0a

abbrev pub carriage_return : ℕ
carriage_return = 0x0d

abbrev pub backspace : ℕ
backspace = 0x08

abbrev pub tab : ℕ
tab = 0x09

pub accepted : ℕ → Bool
accepted c = is_print c || c == newline || c == carriage_return || c == backspace || c == tab

abbrev pub ends_line : ℕ → Bool
ends_line c = c == newline || c == carriage_return

-- The locals of `get_command_line`, and what it wrote to the terminal, the last character first.
pub record LineState : Type 0 where
  pub index : ℕ
  pub buf : List ℕ
  pub out : List ℕ

-- The function returns, with the rest of the input; it waits for input; or it writes outside `buf`.
pub data Typed : Type 0 where
  line : LineState → (rest : List ℕ) → Typed
  waiting : LineState → Typed
  fault : Typed

-- `buf[i] = c`
abbrev pub store : ℕ → ℕ → LineState → Option LineState
store i c s = if ltb i (length s.buf) then some (record s { buf = set s.buf i c }) else none

abbrev pub echo : ℕ → LineState → LineState
echo c s = if c == backspace then s else record s { out = c ∷ s.out }

abbrev pub erase_last : LineState → LineState
erase_last s =
    if ltb 0 s.index
    then record s { index = s.index - 1; out = backspace ∷ b' ' ∷ backspace ∷ s.out }
    else s

-- The `switch` on a character that does not end the line.
pub edit_char : ℕ → LineState → Option LineState
edit_char c s =
    if c == backspace
    then some (erase_last s)
    else elim (store s.index c s) [ none ↦ none | some t ↦ some (record t { index = s.index + 1 }) ]

-- What follows the `switch`.
pub end_string : ℕ → LineState → Option LineState
end_string buflen s =
    let i = if leb buflen s.index then buflen - 1 else s.index in store i 0 (record s { index = i })

abbrev pub and_then : Option LineState → (LineState → Option LineState) → Option LineState
and_then none f = none
and_then (some s) f = f s

-- The body of the loop for a character that is accepted and does not end the line.
pub type_char : (buflen c : ℕ) → LineState → Option LineState
unfolding edit_char end_string
type_char buflen c s = and_then (edit_char c (echo c s)) (end_string buflen)

-- The loop, over the characters that `read` gives; a read that fails is repeated.
pub read_line : (buflen : ℕ) → List ℕ → LineState → Typed
unfolding type_char accepted
read_line buflen [] s = waiting s
read_line buflen (c ∷ input) s =
    if not (accepted c)
    then read_line buflen input s
    else if ends_line c
    then line (echo c s) input
    else elim (type_char buflen c s) [ none ↦ fault | some t ↦ read_line buflen input t ]

pub get_command_line : List ℕ → (buflen : ℕ) → List ℕ → Typed
unfolding read_line
get_command_line buf buflen input = elim (store 0 0 (record { index = 0; buf = buf; out = [] })) [
  | none ↦ fault
  | some s ↦ read_line buflen input s
]

-- The separators of `strtok`.
abbrev pub separates : ℕ → Bool
separates c = c == b' ' || c == tab || c == carriage_return || c == newline

abbrev word : List ℕ → List (List ℕ) → List (List ℕ)
word [] ws = ws
word (c ∷ cs) ws = (c ∷ cs) ∷ ws

-- The calls of `strtok`: the words of a line, the first one as far as it goes and those behind it.
pub split_words : List ℕ → List ℕ × List (List ℕ)
split_words [] = ([], [])
split_words (c ∷ cs) =
    let rest = split_words cs in
    if separates c then ([], word rest.0 rest.1) else (c ∷ rest.0, rest.1)

pub words : List ℕ → List (List ℕ)
unfolding split_words
words l = word (split_words l).0 (split_words l).1

abbrev pub argv_size : ℕ
argv_size = 8

-- The loop over `strtok` from index `i` on: `argv`, with its NULL, or a write behind its end.
pub fill_argv : ℕ → List (List ℕ) → Option (List (Option (List ℕ)))
fill_argv i [] = if ltb i argv_size then some (none ∷ []) else none
fill_argv i (w ∷ ws) =
    let rest = fill_argv (i + 1) ws in
    if ltb i argv_size then elim rest [ none ↦ none | some l ↦ some (some w ∷ l) ] else none

pub same_word : List ℕ → List ℕ → Bool
same_word [] [] = true
same_word [] (d ∷ ds) = false
same_word (c ∷ cs) [] = false
same_word (c ∷ cs) (d ∷ ds) = c == d && same_word cs ds

-- What `call_func` does with a line: the calls of `_exit`, of `chdir`, of `err` for want of an
-- argument, of `fork`, which `after_fork` goes on from with that `argv`; or a fault.
pub data Action : Type 0 where
  exits : (status : Option (List ℕ)) → Action
  changes_dir : List ℕ → Action
  misses_dir : Action
  forks : (argv : List (Option (List ℕ))) → Action
  faults : Action

abbrev pub exit_word : List ℕ
exit_word = b'e' ∷ b'x' ∷ b'i' ∷ b't' ∷ []

abbrev pub cd_word : List ℕ
cd_word = b'c' ∷ b'd' ∷ []

abbrev argument : List (Option (List ℕ)) → Option (List ℕ)
argument [] = none
argument (a ∷ rest) = a

abbrev dir_action : Option (List ℕ) → Action
dir_action none = misses_dir
dir_action (some d) = changes_dir d

-- `strcmp(argv[0], …)` faults on NULL.
pub dispatch : List (Option (List ℕ)) → Action
unfolding same_word
dispatch [] = faults
dispatch (none ∷ rest) = faults
dispatch (some w ∷ rest) =
    if same_word w exit_word
    then exits (argument rest)
    else if same_word w cd_word
    then dir_action (argument rest)
    else forks (some w ∷ rest)

pub run_argv : Option (List (Option (List ℕ))) → Action
unfolding dispatch
run_argv none = faults
run_argv (some argv) = dispatch argv

pub call_func : List ℕ → Action
unfolding words fill_argv run_argv
call_func command_line = run_argv (fill_argv 0 (words command_line))

-- How `call_func` ends behind `fork`: the child says that `execve` failed and exits with 1, or gives
-- -1 if `execve` came back else; the parent says that there is no child, or waits for it, and gives 0.
pub data AfterFork : Type 0 where
  failed_execve : (status : ℕ) → AfterFork
  came_back : (result : ℤ) → AfterFork
  failed_to_fork : (result : ℤ) → AfterFork
  waited : (result : ℤ) → AfterFork

-- `pid` is the result of `fork`, and `executed` that of `execve`, should it come back.
unfoldable after_fork : (pid executed : ℤ) → AfterFork
after_fork (pos zero) executed = if is_neg executed then failed_execve 1 else came_back minus_one
after_fork (pos (suc pid)) executed = waited (pos 0)
after_fork (negsuc n) executed = failed_to_fork (pos 0)
