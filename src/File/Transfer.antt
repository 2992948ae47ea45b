-- ===== src/File/Transfer.antt =====
-- `sys_read` and `sys_write` of src/file.c: loops that pass the user buffer, of 0x200 bytes, back and
-- forth. The bytes of user memory from `buf` on are a list: what is copied in, or what is copied out.
use zosys.Common.{
  ℕ, zero, suc, ◌+◌, ◌-◌, ◌%◌, ◌^◌, none, some, List, [], ◌∷◌, ◌++◌, ◌||◌, Bool, if◌then◌else◌, ltb,
  min, take, drop, length,
}
use zosys.Common.Int.{ℤ, pos, negsuc, minus_one}
use zosys.File.{Env, OpenFile}
use zosys.File.Monad.{M, pure, ◌>>=◌, ◌>>◌, panics, the, load_open, store_open}
use zosys.File.Dispatch.{file_read, file_write}
use zosys.File.Calls.{slot}

abbrev pub user_buffer_size : ℕ
user_buffer_size = 0x200

-- `done_count` after a negative result.
abbrev pub failed_at : ℕ → ℤ
failed_at zero = minus_one
failed_at (suc n) = pos (suc n)

module _ {D : Type 0} (env : Env D) where
  abbrev pub advance_pos : ℕ → OpenFile → ℕ → M D (Unit {0})
  advance_pos o f n = store_open o (some (record f { pos = (f.pos + n) % 2 ^ 32 }))

  -- A call of `file_write` with the position of the open file.
  abbrev pub write_part : ℕ → List ℕ → M D ℤ
  write_part o part = do f ← load_open o; p ← the f.file; file_write env p part f.pos

  abbrev pub advance_by : ℕ → ℕ → M D (Unit {0})
  advance_by o n = do f ← load_open o; advance_pos o f n

  -- A round has a result, and the rest is a further round, if the part was written in full.
  abbrev pub after_write : ℕ → ℕ → ℕ → ℤ → (ℕ → M D ℤ) → M D ℤ
  after_write o done asked (negsuc n) rest = pure (failed_at done)
  after_write o done asked (pos n) rest = do
    advance_by o n
    if ltb n asked then pure (pos (done + n)) else rest n

  unfoldable pub write_rounds : ℕ → ℕ → ℕ → List ℕ → M D ℤ
  unfolding file_write
  write_rounds zero o done bytes = pure (pos done)
  write_rounds (suc fuel) o done [] = pure (pos done)
  write_rounds (suc fuel) o done (x ∷ xs) = do
    r ← write_part o (take user_buffer_size (x ∷ xs))
    after_write o done (min (length (x ∷ xs)) user_buffer_size) r
        (λ n. write_rounds fuel o (done + n) (drop n (x ∷ xs)))

  abbrev out_of_user : ℕ → ℕ → Bool
  out_of_user buf last = ltb buf 0x1000 || ltb 0xf000 last

  -- A round writes a byte at least, or is the last, so `count + 1` rounds are enough.
  unfoldable pub sys_write : ℤ → ℕ → List ℕ → M D ℤ
  unfolding write_rounds
  sys_write fd buf bytes k = elim (slot k fd) [
    | none ↦ pure minus_one k
    | some o ↦
        if out_of_user buf (buf + length bytes + 1)
        then pure minus_one k
        else write_rounds (suc (length bytes)) o 0 bytes k
  ]

  abbrev pub read_part : ℕ → ℕ → M D (ℤ × List ℕ)
  read_part o asked = do f ← load_open o; p ← the f.file; file_read env p asked f.pos

  -- `mem_copy_from_user_buffer` panics for more than the buffer holds.
  abbrev pub copy_out : ℕ → M D (Unit {0})
  copy_out n = if ltb user_buffer_size n then panics else pure tt

  abbrev pub after_read : ℕ → ℕ → ℕ → ℤ × List ℕ → (ℕ → M D (ℤ × List ℕ)) → M D (ℤ × List ℕ)
  after_read o done asked (negsuc n, bytes) rest = pure (failed_at done, [])
  after_read o done asked (pos n, bytes) rest = do
    copy_out n
    advance_by o n
    if ltb n asked
        then pure (pos (done + n), take n bytes)
        else (do r ← rest n; pure (r.0, take n bytes ++ r.1))

  unfoldable pub read_rounds : ℕ → ℕ → ℕ → ℕ → M D (ℤ × List ℕ)
  unfolding file_read
  read_rounds zero o done left = pure (pos done, [])
  read_rounds (suc fuel) o done zero = pure (pos done, [])
  read_rounds (suc fuel) o done (suc left) = do
    r ← read_part o (min (suc left) user_buffer_size)
    after_read o done (min (suc left) user_buffer_size) r
        (λ n. read_rounds fuel o (done + n) (suc left - n))

  -- The result, and the bytes copied to user memory.
  unfoldable pub sys_read : ℤ → ℕ → ℕ → M D (ℤ × List ℕ)
  unfolding read_rounds
  sys_read fd buf count k = elim (slot k fd) [
    | none ↦ pure (minus_one, []) k
    | some o ↦
        if out_of_user buf (buf + count)
        then pure (minus_one, []) k
        else read_rounds (suc count) o 0 count k
  ]
