-- ===== src/Dd.antt =====
-- dd/src/main.c: the arguments, the descriptors and the copy loop. The system calls and `atol` are
-- the interface `Sys`. A run of the loop has fuel; `none` means that it ran out.
pub mod Copies
mod Examples
use mathlib.Core.Option
use zosys.Common.{
  ℕ, zero, suc, ◌+◌, ◌-◌, ◌*◌, ◌%◌, ◌^◌, Bool, true, false, not, ◌&&◌, Option, none, some, List, [],
  ◌∷◌, length, drop, if◌then◌else◌, ◌==◌, ltb,
}
use zosys.Common.Int.{ℤ, pos, negsuc, is_neg}

-- `read` gives the result and what it put in the buffer.
pub record Sys (S : Type 0) : Type 0 where
  pub open_call : List ℕ → ℕ → S → ℤ × S
  pub lseek : ℤ → ℕ → ℕ → S → S
  pub read : ℤ → ℕ → S → ℤ × List ℕ × S
  pub write : ℤ → List ℕ → ℤ → S → ℤ × S
  pub atol : List ℕ → ℕ

pub record Options : Type 0 where
  pub if_str : Option (List ℕ)
  pub of_str : Option (List ℕ)
  pub seek : ℕ
  pub skip : ℕ
  pub count : ℕ

-- `count` is `(unsigned long) -1` if it is not given.
abbrev pub defaults : Options
defaults = record { if_str = none; of_str = none; seek = 0; skip = 0; count = 2 ^ 32 - 1 }

-- `strncmp(p, s, strlen(p)) == 0`
unfoldable pub starts_with : List ℕ → List ℕ → Bool
starts_with [] s = true
starts_with (c ∷ p) [] = false
starts_with (c ∷ p) (x ∷ s) = (c == x) && starts_with p s

abbrev pub if_arg : List ℕ
if_arg = b'i' ∷ b'f' ∷ b'=' ∷ []

abbrev pub of_arg : List ℕ
of_arg = b'o' ∷ b'f' ∷ b'=' ∷ []

abbrev pub count_arg : List ℕ
count_arg = b'c' ∷ b'o' ∷ b'u' ∷ b'n' ∷ b't' ∷ b'=' ∷ []

abbrev pub seek_arg : List ℕ
seek_arg = b's' ∷ b'e' ∷ b'e' ∷ b'k' ∷ b'=' ∷ []

abbrev pub skip_arg : List ℕ
skip_arg = b's' ∷ b'k' ∷ b'i' ∷ b'p' ∷ b'=' ∷ []

abbrev unknown_argument : List ℕ
unknown_argument =
    b'U' ∷ b'n' ∷ b'k' ∷ b'n' ∷ b'o' ∷ b'w' ∷ b'n' ∷ 32 ∷ b'a' ∷ b'r' ∷ b'g' ∷ b'u' ∷ b'm' ∷ b'e'
    ∷ b'n' ∷ b't' ∷ b':' ∷ 32 ∷ 34 ∷ []

abbrev end_quote : List ℕ
end_quote = 34 ∷ 10 ∷ []

abbrev failed_to_open : List ℕ
failed_to_open =
    b'F' ∷ b'a' ∷ b'i' ∷ b'l' ∷ b'e' ∷ b'd' ∷ 32 ∷ b't' ∷ b'o' ∷ 32 ∷ b'o' ∷ b'p' ∷ b'e' ∷ b'n' ∷ 32
    ∷ 34 ∷ []

abbrev for_reading : List ℕ
for_reading =
    34 ∷ 32 ∷ b'f' ∷ b'o' ∷ b'r' ∷ 32 ∷ b'r' ∷ b'e' ∷ b'a' ∷ b'd' ∷ b'i' ∷ b'n' ∷ b'g' ∷ 10 ∷ []

abbrev for_writing : List ℕ
for_writing =
    34 ∷ 32 ∷ b'f' ∷ b'o' ∷ b'r' ∷ 32 ∷ b'w' ∷ b'r' ∷ b'i' ∷ b't' ∷ b'i' ∷ b'n' ∷ b'g' ∷ 10 ∷ []

abbrev pub less : ℤ → ℤ → Bool
less (pos m) (pos n) = ltb m n
less (pos m) (negsuc n) = false
less (negsuc m) (pos n) = true
less (negsuc m) (negsuc n) = ltb n m

module _ {S : Type 0} (sys : Sys S) where
  abbrev err : List ℕ → S → S
  err s w = (sys.write (pos 2) s (pos (length s)) w).1

  abbrev err_3 : (s t u : List ℕ) → S → S
  err_3 s t u w = err u (err t (err s w))

  -- One round of the loop over `argv`.
  unfoldable pub parse_arg : List ℕ → Options × S → Options × S
  unfolding starts_with
  parse_arg arg (o, s) =
      if starts_with if_arg arg
      then (record o { if_str = some (drop 3 arg) }, s)
      else if starts_with of_arg arg
      then (record o { of_str = some (drop 3 arg) }, s)
      else if starts_with count_arg arg
      then (record o { count = sys.atol (drop 6 arg) % 2 ^ 32 }, s)
      else if starts_with seek_arg arg
      then (record o { seek = sys.atol (drop 5 arg) % 2 ^ 32 }, s)
      else if starts_with skip_arg arg
      then (record o { skip = sys.atol (drop 5 arg) % 2 ^ 32 }, s)
      else (o, err_3 unknown_argument arg end_quote s)

  unfoldable pub parse_args : List (List ℕ) → Options × S → Options × S
  unfolding parse_arg
  parse_args [] r = r
  parse_args (arg ∷ argv) r = parse_args argv (parse_arg arg r)

  abbrev pub open_or : Option (List ℕ) → (flags fd : ℕ) → S → ℤ × S
  open_or none flags fd s = (pos fd, s)
  open_or (some path) flags fd s = sys.open_call path flags s

  -- The loop from round `i`, an `unsigned int`.
  unfoldable pub copy : (if_fd of_fd : ℤ) → (count fuel i : ℕ) → S → Option S
  copy if_fd of_fd count zero i s = none
  copy if_fd of_fd count (suc fuel) i s =
      let (read_result, tmp, s1) = sys.read if_fd 512 s in
      let (write_result, s2) = sys.write of_fd tmp read_result s1 in
      let rest = copy if_fd of_fd count fuel ((i + 1) % 2 ^ 16) s2 in
      if not (ltb i count)
      then some s
      else if is_neg read_result
      then some s1
      else if less write_result read_result
      then some s2
      else rest

  abbrev pub seeks : (if_fd of_fd : ℤ) → Options → S → S
  seeks if_fd of_fd o s =
      let s' = if ltb 0 o.skip then sys.lseek if_fd o.skip 0 s else s in
      if ltb 0 o.seek then sys.lseek of_fd o.seek 0 s' else s'

  -- Only a name that was given can fail to open.
  abbrev complain : Option (List ℕ) → List ℕ → S → S
  complain none why s = s
  complain (some path) why s = err_3 failed_to_open path why s

  -- What follows the two calls of `open`.
  abbrev pub with_fds : (fuel : ℕ) → Options → (if_fd of_fd : ℤ) → S → Option (ℤ × S)
  with_fds fuel o if_fd of_fd s =
      if is_neg if_fd
      then some (pos 1, complain o.if_str for_reading s)
      else if is_neg of_fd
      then some (pos 1, complain o.of_str for_writing s)
      else Option.map (λ s'. (pos 0, s')) (copy if_fd of_fd o.count fuel 0 (seeks if_fd of_fd o s))

  unfoldable pub main : (fuel : ℕ) → (argv : List (List ℕ)) → S → Option (ℤ × S)
  unfolding parse_args copy
  main fuel [] s = some (pos 1, s)
  main fuel (name ∷ argv) s =
      let (o, s1) = parse_args argv (defaults, s) in
      let (if_fd, s2) = open_or o.if_str 1 0 s1 in
      let (of_fd, s3) = open_or o.of_str 2 1 s2 in with_fds fuel o if_fd of_fd s3
