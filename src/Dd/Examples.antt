-- ===== src/Dd/Examples.antt =====
-- Runs of dd on a machine whose files are the bytes still to read and those written.
use zosys.Common.{ℕ, ◌≡◌, some, List, [], ◌∷◌, ◌++◌, arith, length, take, drop, min}
use zosys.Common.Int.{ℤ, pos}
use zosys.Dd.{Sys, copy}
use zosys.Dd.Copies.{copy_ends}

abbrev Files : Type 0
Files = List ℕ × List ℕ

abbrev taken : ℕ → Files → ℤ × List ℕ × Files
taken n (i, o) = (pos (min n (length i)), take n i, (drop n i, o))

abbrev put : List ℕ → ℤ → Files → ℤ × Files
put buf n (i, o) = (n, (i, o ++ buf))

abbrev machine : Sys Files
machine = record {
  open_call = λ path flags s. (pos 3, s);
  lseek = λ fd off whence s. s;
  read = λ fd n s. taken n s;
  write = λ fd buf n s. put buf n s;
  atol = length;
}

copy_ends_example :
    (s' : Files) × (copy machine (pos 0) (pos 1) 2 3 0 (7 ∷ 8 ∷ [], 5 ∷ []) ≡ some s')
copy_ends_example =
    copy_ends machine (pos 0) (pos 1) 2 3 0 (7 ∷ 8 ∷ [], 5 ∷ []) (omega arith) (omega arith)
      (omega arith)
