-- ===== src/Programs.antt =====
-- ls/src/main.c, init/src/main.c and ioctl/src/main.c. The system calls and `atoi` are the interface
-- `Sys`.
pub mod Ls
pub mod Init
use zosys.Common.{ℕ, Option, none, some, List, [], ◌∷◌, if◌then◌else◌}
use zosys.Common.Int.{ℤ, pos, negsuc, is_neg, minus_one}

-- `readdirent` gives the name that it put in the entry; `execve` gives none if it does not return.
pub record Sys (S : Type 0) : Type 0 where
  pub open_call : List ℕ → ℕ → S → ℤ × S
  pub write : ℤ → List ℕ → S → S
  pub readdirent : ℤ → ℕ → S → ℤ × Option (List ℕ) × S
  pub ioctl : ℤ → ℕ → ℕ → S → S
  pub fork : S → ℤ × S
  pub execve : List ℕ → (argv envp : List (List ℕ)) → S → Option (ℤ × S)
  pub wait : S → ℤ × S
  pub atoi : List ℕ → ℕ

abbrev pub newline : List ℕ
newline = 10 ∷ []

abbrev failed_to_open : List ℕ
failed_to_open =
    b'F' ∷ b'a' ∷ b'i' ∷ b'l' ∷ b'e' ∷ b'd' ∷ 32 ∷ b't' ∷ b'o' ∷ 32 ∷ b'o' ∷ b'p' ∷ b'e' ∷ b'n' ∷ 32
    ∷ 34 ∷ []

abbrev end_quote : List ℕ
end_quote = 34 ∷ 10 ∷ []

abbrev usage : List ℕ
usage = b'U' ∷ b's' ∷ b'a' ∷ b'g' ∷ b'e' ∷ b':' ∷ 10 ∷ []

abbrev usage_args : List ℕ
usage_args =
    32 ∷ 60 ∷ b'd' ∷ b'e' ∷ b'v' ∷ b'i' ∷ b'c' ∷ b'e' ∷ 62 ∷ 32 ∷ 60 ∷ b'r' ∷ b'e' ∷ b'q' ∷ b'u'
    ∷ b'e' ∷ b's' ∷ b't' ∷ 62 ∷ 32 ∷ 91 ∷ 60 ∷ b'a' ∷ b'r' ∷ b'g' ∷ 62 ∷ 93 ∷ 10 ∷ []

module _ {S : Type 0} (sys : Sys S) where
  abbrev pub out : List ℕ → S → S
  out s w = sys.write (pos 1) s w

  abbrev pub err : List ℕ → S → S
  err s w = sys.write (pos 2) s w

  abbrev with_fd : ℤ × S → (request arg : ℕ) → (text : List ℕ) → ℤ × S
  with_fd (fd, s) request arg text =
      if is_neg fd
      then (pos 1, err end_quote (err text (err failed_to_open s)))
      else (pos 0, sys.ioctl fd request arg s)

  -- `main` of ioctl. For a device that does not open, `err` is given the descriptor, -1, where it means
  -- the name: `text` is what the memory holds there.
  unfoldable pub ioctl_main : (text : List ℕ) → List (List ℕ) → S → ℤ × S
  ioctl_main text [] s = (pos 1, err usage_args (err usage s))
  ioctl_main text (name ∷ []) s = (pos 1, err usage_args (err name (err usage s)))
  ioctl_main text (name ∷ device ∷ []) s = (pos 1, err usage_args (err name (err usage s)))
  ioctl_main text (name ∷ device ∷ request ∷ []) s =
      with_fd (sys.open_call device 3 s) (sys.atoi request) 0 text
  ioctl_main text (name ∷ device ∷ request ∷ arg ∷ more) s =
      with_fd (sys.open_call device 3 s) (sys.atoi request) (sys.atoi arg) text
