-- ===== src/Mem/User.antt =====
-- The user buffer of src/mem.c, and the lengths of strings and vectors in a process' memory. The
-- buffer stands at `user_buffer`, a logical address that the assembly fixes, in the highest page, so
-- that it is in the memory of the process that runs.
pub mod Strings
pub mod Vectors
pub mod Empty
use zosys.Common.{
  ℕ, zero, suc, ◌+◌, ◌-◌, ◌*◌, ◌/◌, ◌%◌, ◌^◌, Bool, true, false, ◌&&◌, ◌||◌, not, Option, none,
  some, if◌then◌else◌, ◌==◌, ltb, leb,
}
use zosys.Common.Int.{ℤ, pos, minus_one}
use zosys.Common.Run.{Run, ok, panic, fault}
use zosys.Mem.Dma.{Memory, Dma}
use zosys.Mem.Copy.{Machine, user_addr, copy}

abbrev pub mem_user_buffer_size : ℕ
mem_user_buffer_size = 0x200

pub mem_user_valid_ptr : ℕ → Bool
mem_user_valid_ptr ptr = leb 0x1000 ptr && ltb ptr 0xf000

-- `strnlen` at an address: the place of the first NUL, or `left` if there is none.
pub strnlen : Memory → (a left : ℕ) → ℕ
strnlen m a zero = 0
strnlen m a (suc left) = if m a == 0 then 0 else suc (strnlen m (a + 1) left)

-- A pointer of two bytes, the lower first.
abbrev pub pointer_at : Memory → ℕ → ℕ
pointer_at m a = m a + m (a + 1) * 2 ^ 8

-- The loop from `null_index`, with `left` pointers to go.
pub find_null : Memory → (base user_vector left null_index : ℕ) → ℤ
unfolding mem_user_valid_ptr
find_null m base user_vector zero null_index = minus_one
find_null m base user_vector (suc left) null_index =
    let rest = find_null m base user_vector left (null_index + 1) in
    if not (mem_user_valid_ptr ((user_vector + (null_index + 1) * 2 - 1) % 2 ^ 16))
    then minus_one
    else if pointer_at m (base + null_index * 2) == 0
    then pos null_index
    else rest

module _ (dma : Dma) (user_buffer : ℕ) where
  pub mem_copy_to_user_buffer : (user_ptr count : ℕ) → Machine → Run Machine
  mem_copy_to_user_buffer user_ptr count k =
      if ltb mem_user_buffer_size count
      then panic
      else ok (copy dma (user_addr k user_buffer) (user_addr k user_ptr) count k)

  pub mem_copy_from_user_buffer : (user_ptr count : ℕ) → Machine → Run Machine
  mem_copy_from_user_buffer user_ptr count k =
      if ltb mem_user_buffer_size count
      then panic
      else ok (copy dma (user_addr k user_ptr) (user_addr k user_buffer) count k)

  abbrev length_of : Machine → ℤ × Machine
  length_of k =
      let len = strnlen k.mem (user_addr k user_buffer) mem_user_buffer_size in
      (if len == mem_user_buffer_size then minus_one else pos len, k)

  abbrev pub map_run : {A B : Type 0} → (A → B) → Run A → Run B
  map_run f (ok a) = ok (f a)
  map_run f panic = panic
  map_run f fault = fault

  pub mem_user_strlen : ℕ → Machine → Run (ℤ × Machine)
  unfolding mem_user_valid_ptr mem_copy_to_user_buffer
  mem_user_strlen user_ptr k =
      if not (mem_user_valid_ptr user_ptr)
      then ok (minus_one, k)
      else map_run length_of (mem_copy_to_user_buffer user_ptr mem_user_buffer_size k)

  abbrev vector_len_of : ℕ → Machine → ℤ × Machine
  vector_len_of user_vector k =
      (find_null k.mem (user_addr k user_buffer) user_vector (mem_user_buffer_size / 2) 0, k)

  pub mem_user_vector_len : ℕ → Machine → Run (ℤ × Machine)
  unfolding mem_user_valid_ptr mem_copy_to_user_buffer
  mem_user_vector_len user_vector k =
      if not (mem_user_valid_ptr user_vector)
      then ok (minus_one, k)
      else map_run (vector_len_of user_vector)
          (mem_copy_to_user_buffer user_vector mem_user_buffer_size k)
