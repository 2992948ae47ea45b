-- ===== src/CircularBuffer.antt =====
-- src/circular_buffer.c and include/circular_buffer.h: a byte ring that keeps one cell free.
-- A function that writes through `buffer` returns the new value beside its `int`.
pub mod Fifo
pub mod Valid
pub mod Refine
pub mod Steps
mod Examples
use zosys.Common.{ℕ, ◌+◌, ◌-◌, ◌%◌, ◌^◌, Bool, List, if◌then◌else◌, ltb, ◌==◌, get_or, set}
use zosys.Common.Int.{ℤ, pos, minus_one}

-- `struct circular_buffer`; `buffer` holds the cells that the pointer leads to.
pub record CircularBuffer : Type 0 where
  pub buffer : List ℕ
  pub size : ℕ
  pub head : ℕ
  pub tail : ℕ

-- `size_t` addition and subtraction, in 16 bits.
abbrev pub add_size : ℕ → ℕ → ℕ
add_size a b = (a + b) % 2 ^ 16

abbrev pub sub_size : ℕ → ℕ → ℕ
sub_size a b = (a + 2 ^ 16 - b) % 2 ^ 16

pub next_head : CircularBuffer → ℕ
next_head b = if add_size b.head 1 == b.size then 0 else add_size b.head 1

pub next_tail : CircularBuffer → ℕ
next_tail b = if add_size b.tail 1 == b.size then 0 else add_size b.tail 1

pub put : CircularBuffer → ℕ → ℤ × CircularBuffer
unfolding next_tail
put b value =
    if next_tail b == b.head
    then (minus_one, b)
    else (pos value, record b { buffer = set b.buffer b.tail value; tail = next_tail b })

pub get : CircularBuffer → ℤ × CircularBuffer
unfolding next_head
get b =
    if b.head == b.tail
    then (minus_one, b)
    else (pos (get_or b.buffer b.head 0), record b { head = next_head b })

pub is_full : CircularBuffer → Bool
unfolding next_tail
is_full b = next_tail b == b.head

pub space_left : CircularBuffer → ℕ
space_left b =
    if b.head == b.tail
    then sub_size b.size 1
    else if ltb b.head b.tail
    then sub_size (sub_size b.size (sub_size b.tail b.head)) 1
    else if ltb b.tail b.head
    then sub_size (sub_size b.head b.tail) 1
    else 0
