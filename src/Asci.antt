-- ===== src/Asci.antt =====
-- src/dev_asci.c: the two serial ports, each with a ring for what is received and one for what is to
-- be sent. A function that changes a port returns it beside its result; a count is below 2 ^ 15.
pub mod Events
pub mod Sends
pub mod Drains
mod Examples
use zosys.Common.{
  ℕ, zero, suc, ◌≡◌, Bool, true, false, not, ◌&&◌, Option, List, [], ◌∷◌, ◌++◌, if◌then◌else◌, ltb,
  leb, ◌==◌, length, replicate,
}
use zosys.Common.Int.{ℤ, pos, negsuc, minus_one, is_neg, is_pos}
use zosys.CircularBuffer.{CircularBuffer, put, get, space_left}
use zosys.File.Device.{register_driver}

-- A port: the bits of STAT and CNTLA that the code changes, the rings, and what was written to TDR,
-- the last byte first. The bits that the hardware sets are arguments of the interrupt.
pub record Port : Type 0 where
  -- RIE and TIE of STAT, RTS0 of CNTLA0.
  pub rie : Bool
  pub tie : Bool
  pub rts : Bool
  pub rx : CircularBuffer
  pub tx : CircularBuffer
  pub sent : List ℕ

abbrev pub full_space_left : ℕ
full_space_left = 8

abbrev pub empty_space_left : ℕ
empty_space_left = 8

abbrev pub buf_size : ℕ
buf_size = 32

-- `asci0_rx_circ_buf` and the other three.
abbrev pub empty_buf : CircularBuffer
empty_buf = record { buffer = replicate buf_size 0; size = buf_size; head = 0; tail = 0 }

-- CNTLA0 is written without RTS0.
pub asci_0_init : Port → Port
asci_0_init p = record p { rie = true; tie = false; rts = false }

-- Port 1 has no RTS; its receiver is not turned on.
pub asci_1_init : Port → Port
asci_1_init p = record p { rie = true; tie = false }

-- The ports, and the drivers' table. `drv` is the place of `asci_driver`.
unfoldable dev_asci_init : ℕ → Port × Port × List (Option ℕ) → ℤ × Port × Port × List (Option ℕ)
unfolding asci_0_init asci_1_init register_driver
dev_asci_init drv (p, q, drivers) =
    (pos 0, asci_0_init p, asci_1_init q, (register_driver (pos 1) drv drivers).1)

-- What `putc` of either port does: the byte is stored and TIE is set, unless the ring is full.
pub asci_0_putc : ℕ → Port → ℤ × Port
asci_0_putc c p =
    if is_neg (put p.tx c).0
    then (minus_one, p)
    else (pos c, record p { tx = (put p.tx c).1; tie = true })

pub asci_1_putc : ℕ → Port → ℤ × Port
asci_1_putc c p =
    if is_neg (put p.tx c).0
    then (minus_one, p)
    else (pos c, record p { tx = (put p.tx c).1; tie = true })

-- RTS0 is taken back when there is room.
pub asci_0_getc : Port → ℤ × Port
asci_0_getc p =
    let (c, rx) = get p.rx in
    if is_neg c then (minus_one, p) else (
      c,
      record p { rx = rx; rts = if leb empty_space_left (space_left rx) then false else p.rts },
    )

pub asci_1_getc : Port → ℤ × Port
asci_1_getc p =
    let (c, rx) = get p.rx in if is_neg c then (minus_one, p) else (c, record p { rx = rx })

abbrev byte_in : ℤ → ℕ
byte_in (pos c) = c
byte_in (negsuc n) = 0

-- The loop of `asci_read`, with `left` bytes to go: the bytes put in `buf`.
pub read_loop : (Port → ℤ × Port) → ℕ → Port → List ℕ × Port
read_loop getc zero p = ([], p)
read_loop getc (suc left) p =
    let (c, p') = getc p in
    let rest = read_loop getc left p' in if is_neg c then ([], p') else (byte_in c ∷ rest.0, rest.1)

-- The loop of `asci_write` over what is left of `buf`, after `i` bytes: the number written.
pub write_loop : (ℕ → Port → ℤ × Port) → List ℕ → ℕ → Port → ℕ × Port
write_loop putc [] i p = (i, p)
write_loop putc (c ∷ cs) i p =
    let (r, p') = putc c p in
    let rest = write_loop putc cs (suc i) p' in if is_neg r then (i, p') else rest

abbrev some_bytes : List ℕ × Port → (ℤ × List ℕ) × Port
some_bytes (bytes, p) =
    if length bytes == 0 then ((minus_one, []), p) else ((pos (length bytes), bytes), p)

-- The result, the bytes put in `buf`, and both ports after it.
unfoldable asci_read : (minor count : ℕ) → Port × Port → (ℤ × List ℕ) × Port × Port
unfolding asci_0_getc asci_1_getc read_loop
asci_read minor count (p, q) =
    if minor == 0
    then (let (r, p') = some_bytes (read_loop asci_0_getc count p) in (r, p', q))
    else if minor == 1
    then (let (r, q') = some_bytes (read_loop asci_1_getc count q) in (r, p, q'))
    else ((minus_one, []), p, q)

unfoldable asci_write : (minor : ℕ) → List ℕ → Port × Port → ℤ × Port × Port
unfolding asci_0_putc asci_1_putc write_loop
asci_write minor buf (p, q) =
    if minor == 0
    then (let (n, p') = write_loop asci_0_putc buf 0 p in (pos n, p', q))
    else if minor == 1
    then (let (n, q') = write_loop asci_1_putc buf 0 q in (pos n, p, q'))
    else (minus_one, p, q)

-- A received byte, of which a full ring keeps nothing, and the raising of RTS0.
pub receive_0 : ℕ → Port → Port
receive_0 byte p =
    let rx = (put p.rx byte).1 in
    record p { rx = rx; rts = if ltb (space_left rx) full_space_left then true else p.rts }

pub receive_1 : ℕ → Port → Port
receive_1 byte p = record p { rx = (put p.rx byte).1 }

-- The next byte to TDR, or the end of the interrupts. Port 1 tests `send_byte < 1`.
abbrev pub transmit : Bool → ℤ → Port → Port
transmit true byte p = record p { tie = false }
transmit false byte p = record p { sent = byte_in byte ∷ p.sent }

pub send_0 : Port → Port
send_0 p = transmit (is_neg (get p.tx).0) (get p.tx).0 (record p { tx = (get p.tx).1 })

pub send_1 : Port → Port
send_1 p = transmit (not (is_pos (get p.tx).0)) (get p.tx).0 (record p { tx = (get p.tx).1 })

-- With RDRF and TDRE of STAT as read, and RDR. TIE is that of STAT as read, which `receive` leaves.
pub int_asci0 : (rdrf tdre : Bool) (rdr : ℕ) → Port → Port
unfolding receive_0 send_0
int_asci0 rdrf tdre rdr p =
    let p' = if rdrf then receive_0 rdr p else p in if tdre && p.tie then send_0 p' else p'

pub int_asci1 : (rdrf tdre : Bool) (rdr : ℕ) → Port → Port
unfolding receive_1 send_1
int_asci1 rdrf tdre rdr p =
    let p' = if rdrf then receive_1 rdr p else p in if tdre && p.tie then send_1 p' else p'
