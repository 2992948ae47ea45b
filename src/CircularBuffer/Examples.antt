-- ===== src/CircularBuffer/Examples.antt =====
-- Runs of the circular buffer: a ring of four cells that holds two bytes and has gone round.
use zosys.Common.{◌≡◌, refl, List, [], ◌∷◌, arith}
use zosys.CircularBuffer.{CircularBuffer, put}
use zosys.CircularBuffer.Fifo
use zosys.CircularBuffer.Fifo.{Call, puts, gets, asks_full, asks_space}
use zosys.CircularBuffer.Valid.{IsValid}
use zosys.CircularBuffer.Refine.{contents, run, run_refines}

abbrev ring : CircularBuffer
ring = record { buffer = 20 ∷ 7 ∷ 8 ∷ 10 ∷ []; size = 4; head = 3; tail = 1 }

ring-IsValid : IsValid ring
ring-IsValid = record {
  storage = omega arith;
  small = omega arith;
  head_in = omega arith;
  tail_in = omega arith;
}

contents-ring : contents ring ≡ 10 ∷ 20 ∷ []
contents-ring = refl

put-ring : (put ring 30).1 ≡ record ring { buffer = 20 ∷ 30 ∷ 8 ∷ 10 ∷ []; tail = 2 }
unfolding put
put-ring = refl

abbrev calls : List Call
calls = puts 30 ∷ puts 40 ∷ gets ∷ asks_space ∷ gets ∷ gets ∷ gets ∷ asks_full ∷ []

run_refines_example : run ring calls ≡ Fifo.run 3 (10 ∷ 20 ∷ []) calls
run_refines_example = run_refines calls ring-IsValid
