-- ===== src/Asci/Events.antt =====
-- What happens to a serial port, in any order: calls of the kernel and interrupts.
use zosys.Common.{ℕ, Bool, List, [], ◌∷◌, ◌++◌, if◌then◌else◌}
use zosys.Common.Int.{is_neg}
use zosys.Asci.{Port, asci_0_putc, asci_0_getc, int_asci0}

pub data Event : Type 0 where
  putc : ℕ → Event
  getc : Event
  interrupt : (rdrf tdre : Bool) (rdr : ℕ) → Event

unfoldable pub step_0 : Event → Port → Port
unfolding asci_0_putc asci_0_getc int_asci0
step_0 (putc c) p = (asci_0_putc c p).1
step_0 getc p = (asci_0_getc p).1
step_0 (interrupt rdrf tdre rdr) p = int_asci0 rdrf tdre rdr p

unfoldable pub run_0 : List Event → Port → Port
unfolding step_0
run_0 [] p = p
run_0 (e ∷ es) p = run_0 es (step_0 e p)

-- The byte that the event makes the port take, if there is room.
unfoldable pub taken : Event → Port → List ℕ
unfolding asci_0_putc
taken (putc c) p = if is_neg (asci_0_putc c p).0 then [] else c ∷ []
taken getc p = []
taken (interrupt rdrf tdre rdr) p = []

unfoldable pub all_taken : List Event → Port → List ℕ
unfolding step_0 taken
all_taken [] p = []
all_taken (e ∷ es) p = taken e p ++ all_taken es (step_0 e p)
