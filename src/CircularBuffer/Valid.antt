-- ===== src/CircularBuffer/Valid.antt =====
-- The representation invariant of a circular buffer.
use zosys.Common.{ℕ, ◌+◌, ◌-◌, ◌^◌, ◌≤◌, ◌<◌, ◌≡◌, arith, length, length-set, if◌then◌else◌, leb}
use zosys.CircularBuffer.{CircularBuffer, put, get}

pub record IsValid (b : CircularBuffer) : Type 0 where
  pub storage : b.size ≤ length b.buffer
  pub small : b.size < 2 ^ 16
  pub head_in : b.head < b.size
  pub tail_in : b.tail < b.size

-- The number of bytes held.
abbrev pub used : CircularBuffer → ℕ
used b = if leb b.head b.tail then b.tail - b.head else b.size + b.tail - b.head

-- `circular_buffer_put` keeps a valid buffer valid, whether it takes the byte or not.
pub put-IsValid : {b : CircularBuffer} (x : ℕ) → IsValid b → IsValid (put b x).1
unfolding put
put-IsValid {b} x v = ground (arith, length-set b.buffer b.tail x)

-- `circular_buffer_get` keeps a valid buffer valid, whether there is a byte or not.
pub get-IsValid : {b : CircularBuffer} → IsValid b → IsValid (get b).1
unfolding get
get-IsValid v = ground arith

pub size-put : (b : CircularBuffer) (x : ℕ) → (put b x).1.size ≡ b.size
unfolding put
size-put b x = ground arith

pub size-get : (b : CircularBuffer) → (get b).1.size ≡ b.size
unfolding get
size-get b = ground arith
