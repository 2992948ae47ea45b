-- ===== src/Programs/Ls.antt =====
-- ls/src/main.c
use zosys.Common.{
  ℕ, zero, suc, ◌+◌, ◌-◌, ◌^◌, Bool, false, Option, none, some, List, [], ◌∷◌, if◌then◌else◌, ◌==◌,
}
use zosys.Common.Int.{ℤ, pos, negsuc, is_neg, minus_one}
use zosys.Programs.{Sys, out, err, newline}

abbrev failed_to_open : List ℕ
failed_to_open =
    b'F' ∷ b'a' ∷ b'i' ∷ b'l' ∷ b'e' ∷ b'd' ∷ 32 ∷ b't' ∷ b'o' ∷ 32 ∷ b'o' ∷ b'p' ∷ b'e' ∷ b'n' ∷ 32
    ∷ b'p' ∷ b'a' ∷ b't' ∷ b'h' ∷ 10 ∷ []

abbrev pub is_minus_one : ℤ → Bool
is_minus_one (pos n) = false
is_minus_one (negsuc n) = n == 0

abbrev pub is_zero : ℤ → Bool
is_zero (pos n) = n == 0
is_zero (negsuc n) = false

-- The name that the entry holds, which stays if none is put there.
abbrev pub name_in : Option (List ℕ) → List ℕ → List ℕ
name_in none before = before
name_in (some name) before = name

module _ {S : Type 0} (sys : Sys S) where
  abbrev pub print : List ℕ → S → S
  print name s = out sys newline (out sys name s)

  -- The loop from entry `i`, with `left` rounds to go.
  unfoldable pub list_from : (dir_fd : ℤ) → (left i : ℕ) → (d_name : List ℕ) → S → ℤ × S
  list_from dir_fd zero i d_name s = (pos 0, s)
  list_from dir_fd (suc left) i d_name s =
      let (status, entry, s1) = sys.readdirent dir_fd i s in
      let name = name_in entry d_name in
      let rest = list_from dir_fd left (i + 1) name (print name s1) in
      if is_minus_one status
      then (minus_one, s1)
      else if is_zero status
      then (pos 0, print name s1)
      else rest

  abbrev path_of : List (List ℕ) → List ℕ
  path_of [] = []
  path_of (name ∷ []) = []
  path_of (name ∷ path ∷ more) = path

  -- `d_name` is what the entry on the stack holds before.
  unfoldable pub ls_main : (d_name : List ℕ) → (argv : List (List ℕ)) → S → ℤ × S
  unfolding list_from
  ls_main d_name argv s =
      let (dir_fd, s1) = sys.open_call (path_of argv) 1 s in
      if is_neg dir_fd
      then (minus_one, err sys failed_to_open s1)
      else list_from dir_fd (2 ^ 16 - 1) 0 d_name s1
