-- ===== src/Dd/Copies.antt =====
-- The copy loop of dd/src/main.c ends for a count of 16 bits.
use zosys.Common.{
  ℕ, zero, suc, ◌+◌, ◌-◌, ◌%◌, ◌^◌, ◌≤◌, ◌<◌, ◌≡◌, ap, ◌∙◌, false, some, inl, inr, List, arith, ltb,
  Bool-cases,
}
use zosys.Common.Int.{ℤ, is_neg}
use zosys.Dd.{Sys, copy, less}

module _ {S : Type 0} (sys : Sys S) (if_fd of_fd : ℤ) (count : ℕ) where
  abbrev read_of : S → ℤ × List ℕ × S
  read_of s = sys.read if_fd 512 s

  abbrev write_of : S → ℤ × S
  write_of s = sys.write of_fd (read_of s).1 (read_of s).0 (read_of s).2

  pub copy_more :
      (fuel i : ℕ) (s : S)
      → count < 2 ^ 16
      → i < count
      → is_neg (read_of s).0 ≡ false
      → less (write_of s).0 (read_of s).0 ≡ false
      → copy sys if_fd of_fd count (suc fuel) i s
        ≡ copy sys if_fd of_fd count fuel (i + 1) (write_of s).1
  unfolding copy
  copy_more fuel i s small lt good whole =
      ground (arith, good, whole)
      ∙ ap (λ n. copy sys if_fd of_fd count fuel n (write_of s).1) (wraps small lt)
    where
      wraps : count < 2 ^ 16 → i < count → (i + 1) % 2 ^ 16 ≡ i + 1
      wraps p q = omega arith

  -- For a count that fits in 16 bits, from any round up to that many: with more fuel than there are
  -- rounds left, the copy loop of dd comes to its end, whatever the reads and writes do.
  pub copy_ends :
      (fuel i : ℕ) (s : S)
      → count < 2 ^ 16
      → i ≤ count
      → count - i < fuel
      → (s' : S) × (copy sys if_fd of_fd count fuel i s ≡ some s')
  unfolding copy
  copy_ends zero i s h le f = absurd (omega arith)
  copy_ends (suc fuel) i s h le f = elim (Bool-cases (ltb i count)) [
    | inr done ↦ (s, ground (arith, done))
    | inl more ↦ elim (Bool-cases (is_neg (read_of s).0)) [
      | inl bad ↦ ((read_of s).2, ground (arith, more, bad))
      | inr good ↦ elim (Bool-cases (less (write_of s).0 (read_of s).0)) [
        | inl short ↦ ((write_of s).1, ground (arith, more, good, short))
        | inr whole ↦
            let lt : i < count = ground arith in
            let (s', later) = copy_ends fuel (i + 1) (write_of s).1 h (omega arith) (omega arith) in
            (s', copy_more fuel i s h lt good whole ∙ later)
      ]
    ]
  ]
