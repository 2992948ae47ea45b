-- ===== src/Programs/Init.antt =====
-- init/src/main.c
use zosys.Common.{ℕ, zero, suc, none, some, List, [], ◌∷◌, if◌then◌else◌}
use zosys.Common.Int.{ℤ, pos, is_neg}
use zosys.Programs.{Sys, newline}
use zosys.Programs.Ls.{is_minus_one, is_zero}

abbrev asci0 : List ℕ
asci0 = b'Z' ∷ b':' ∷ b'a' ∷ b's' ∷ b'c' ∷ b'i' ∷ b'0' ∷ []

abbrev start_message : List ℕ
start_message =
    b'I' ∷ b'n' ∷ b'i' ∷ b't' ∷ 32 ∷ b'h' ∷ b'a' ∷ b's' ∷ 32 ∷ b's' ∷ b't' ∷ b'a' ∷ b'r' ∷ b't'
    ∷ b'e' ∷ b'd' ∷ 10 ∷ []

abbrev argv_title : List ℕ
argv_title = b'a' ∷ b'r' ∷ b'g' ∷ b'v' ∷ b':' ∷ 10 ∷ []

abbrev envp_title : List ℕ
envp_title = b'e' ∷ b'n' ∷ b'v' ∷ b'p' ∷ b':' ∷ 10 ∷ []

abbrev indent : List ℕ
indent = 32 ∷ 32 ∷ 32 ∷ 32 ∷ []

abbrev shell : List ℕ
shell = b'Y' ∷ b':' ∷ b's' ∷ b'h' ∷ []

abbrev failed : List ℕ
failed =
    b'F' ∷ b'a' ∷ b'i' ∷ b'l' ∷ b'e' ∷ b'd' ∷ 32 ∷ b'e' ∷ b'x' ∷ b'e' ∷ b'c' ∷ b'v' ∷ b'e' ∷ 10 ∷ []

abbrev done_message : List ℕ
done_message =
    b'A' ∷ b'l' ∷ b'l' ∷ 32 ∷ b'n' ∷ b'o' ∷ b'n' ∷ 45 ∷ b'i' ∷ b'n' ∷ b'i' ∷ b't' ∷ 32 ∷ b'p' ∷ b'r'
    ∷ b'o' ∷ b'c' ∷ b'e' ∷ b's' ∷ b's' ∷ b'e' ∷ b's' ∷ 32 ∷ b'h' ∷ b'a' ∷ b'v' ∷ b'e' ∷ 32 ∷ b'e'
    ∷ b'x' ∷ b'i' ∷ b't' ∷ b'e' ∷ b'd' ∷ 10 ∷ []

-- How a process ends, or leaves this program.
pub data End (S : Type 0) : Type 0 where
  returned : ℤ → S → End S
  exited : ℕ → S → End S
  replaced : End S
  waiting : End S

module _ {S : Type 0} (sys : Sys S) where
  abbrev line : ℤ → List ℕ → S → S
  line fd text s = sys.write fd newline (sys.write fd text (sys.write fd indent s))

  -- The loops over `argv` and `envp`.
  unfoldable pub print_all : ℤ → List (List ℕ) → S → S
  print_all fd [] s = s
  print_all fd (text ∷ more) s = print_all fd more (line fd text s)

  -- The child: the shell, or an exit.
  unfoldable pub run_shell : ℤ → (argv envp : List (List ℕ)) → S → End S
  run_shell fd argv envp s = elim (sys.execve shell argv envp s) [
    | none ↦ replaced
    | some (r, s') ↦ exited 1 (if is_neg r then sys.write fd failed s' else s')
  ]

  -- The loop that waits for all children; `waiting` if it has made `rounds` rounds.
  unfoldable pub reap_all : (rounds : ℕ) → ℤ → S → End S
  reap_all zero fd s = waiting
  reap_all (suc rounds) fd s =
      let (wpid, s') = sys.wait s in
      let rest = reap_all rounds fd s' in
      if is_minus_one wpid then returned (pos 0) (sys.write fd done_message s') else rest

  unfoldable pub init_main : (rounds : ℕ) → (argv envp : List (List ℕ)) → S → End S
  unfolding print_all run_shell reap_all
  init_main rounds argv envp s =
      let (stdin_fd, s1) = sys.open_call asci0 1 s in
      let (stdout_fd, s2) = sys.open_call asci0 2 s1 in
      let (stderr_fd, s3) = sys.open_call asci0 2 s2 in
      let s4 = sys.write stdout_fd argv_title (sys.write stdout_fd start_message s3) in
      let s5 = sys.write stdout_fd envp_title (print_all stdout_fd argv s4) in
      let (pid, s6) = sys.fork (print_all stdout_fd envp s5) in
      if is_zero pid then run_shell stdout_fd argv envp s6 else reap_all rounds stdout_fd s6
