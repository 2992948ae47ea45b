-- ===== src/CircularBuffer/Fifo.antt =====
-- What a circular buffer promises: a queue of at most `cap` bytes, oldest first.
use zosys.Common.{ℕ, ◌-◌, Bool, List, [], ◌∷◌, ◌++◌, if◌then◌else◌, leb, length}
use zosys.Common.Int.{ℤ, pos, minus_one}

-- The calls of a client, and what each returns to it.
pub data Call : Type 0 where
  puts : ℕ → Call
  gets asks_full asks_space : Call

pub data Reply : Type 0 where
  value : ℤ → Reply
  flag : Bool → Reply
  space : ℕ → Reply

unfoldable pub get : List ℕ → ℤ × List ℕ
get [] = (minus_one, [])
get (x ∷ q) = (pos x, q)

module _ (cap : ℕ) where
  unfoldable pub put : List ℕ → ℕ → ℤ × List ℕ
  put q x = if leb cap (length q) then (minus_one, q) else (pos x, q ++ x ∷ [])

  unfoldable pub run : List ℕ → List Call → List Reply
  run q [] = []
  run q (puts x ∷ calls) = let (r, q') = put q x in value r ∷ run q' calls
  run q (gets ∷ calls) = let (r, q') = get q in value r ∷ run q' calls
  run q (asks_full ∷ calls) = flag (leb cap (length q)) ∷ run q calls
  run q (asks_space ∷ calls) = space (cap - length q) ∷ run q calls
