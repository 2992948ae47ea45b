-- ===== src/Asci/Examples.antt =====
-- Runs of the serial ports.
use zosys.Common.{◌≡◌, refl, arith, true, false, List, [], ◌∷◌, ◌++◌, replicate}
use zosys.CircularBuffer.{CircularBuffer}
use zosys.CircularBuffer.Valid.{IsValid}
use zosys.CircularBuffer.Refine.{contents}
use zosys.Asci.{Port, empty_buf}
use zosys.Asci.Events.{Event, putc, getc, interrupt, run_0, all_taken}
use zosys.Asci.Sends.{IsSound, stream, onto, run_0_lem}
use zosys.Asci.Drains.{ready, drained}

abbrev loaded : CircularBuffer
loaded = record empty_buf { buffer = 0 ∷ 7 ∷ replicate 30 0; head = 0; tail = 2 }

-- A port whose ring holds a NUL and a 7.
abbrev port : Port
port = record { rie = true; tie = true; rts = false; rx = empty_buf; tx = loaded; sent = [] }

loaded-IsValid : IsValid loaded
loaded-IsValid = record {
  storage = omega arith;
  small = omega arith;
  head_in = omega arith;
  tail_in = omega arith;
}

port-IsSound : IsSound port
port-IsSound = record { valid = loaded-IsValid; active = λ x q h. refl }

abbrev events : List Event
events = putc 9 ∷ interrupt true true 65 ∷ getc ∷ ready ∷ []

run_0_lem_example :
    (stream (run_0 events port) ≡ stream port ++ all_taken events port)
    × IsSound (run_0 events port)
run_0_lem_example = run_0_lem events port port-IsSound

drained_example :
    let p' = run_0 (replicate 2 ready) port in
    (onto p'.sent [] ≡ stream port) × (contents p'.tx ≡ [])
drained_example = drained 2 port port-IsSound (omega arith)
