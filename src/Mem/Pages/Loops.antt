-- ===== src/Mem/Pages/Loops.antt =====
-- What the searches of the page allocator find, and what it means that they find nothing.
use zosys.Common.{ℕ, zero, suc, ◌+◌, ◌≤◌, ◌<◌, ◌≡◌, ◌≢◌, true, false, none, some, arith}
use zosys.Common.Bits.{bit, and-pow}
use zosys.Mem.Pages.{PageMap, word, find_clear, find_empty}

module _ (w : ℕ) where
  -- A hit is a clear bit of the range.
  pub find_clear_hit :
      (left i j : ℕ) → find_clear w left i ≡ some j → (i ≤ j) × (j < i + left) × (bit w j ≡ false)
  unfolding find_clear
  find_clear_hit zero i j e = ground arith
  find_clear_hit (suc left) i j e = ground (arith, and-pow w i, find_clear_hit left (i + 1) j)

  -- A miss means that the range is full.
  pub find_clear_miss :
      (left i j : ℕ) → find_clear w left i ≡ none → i ≤ j → j < i + left → bit w j ≡ true
  unfolding find_clear
  find_clear_miss zero i j e p q = absurd (omega arith)
  find_clear_miss (suc left) i j e p q =
      ground (arith, and-pow w i, and-pow w j, find_clear_miss left (i + 1) j)

module _ (m : PageMap) where
  pub find_empty_hit :
      (left b c : ℕ) → find_empty m left b ≡ some c → (b ≤ c) × (c < b + left) × (word m c ≡ 0)
  unfolding find_empty
  find_empty_hit zero b c e = ground arith
  find_empty_hit (suc left) b c e = ground (arith, find_empty_hit left (b + 1) c)

  pub find_empty_miss :
      (left b c : ℕ) → find_empty m left b ≡ none → b ≤ c → c < b + left → word m c ≢ 0
  unfolding find_empty
  find_empty_miss zero b c e p q = absurd (omega arith)
  find_empty_miss (suc left) b c e p q = ground (arith, find_empty_miss left (b + 1) c)
