-- ===== src/Sermem.antt =====
-- src/dev_sermem.c: a memory at the end of a serial line, reached through the backing file of a device.
-- The conversions of the C library are parameters: `ltoa` and `itoa` give the digits of a number in
-- a radix, `atoi` reads decimal digits. `temp` is what the array on the stack holds before.
use zosys.Common.{
  ℕ, zero, suc, ◌%◌, ◌^◌, Option, none, some, List, [], ◌∷◌, ◌++◌, length, take, drop,
  if◌then◌else◌, ◌==◌,
}
use zosys.Common.Int.{ℤ, pos, minus_one}
use zosys.File.{Env, FileKind, plain, special, directory, pipe}
use zosys.File.Device.{register_driver}
use zosys.File.Dispatch.{file_read, file_write}
use zosys.File.Monad.{M, pure, ◌>>=◌, ◌>>◌, load_file}

module _ {D : Type 0} (env : Env D) (ltoa itoa : ℕ → ℕ → List ℕ) (atoi : List ℕ → ℕ) where
  -- A write whose result is not looked at.
  abbrev send : ℕ → List ℕ → M D (Unit {0})
  unfolding file_write
  send backing s = do r ← file_write env backing s 0; pure tt

  unfoldable pub sermem_perform_seek : (backing at : ℕ) → M D ℤ
  unfolding file_write
  sermem_perform_seek backing at = do
    send backing (b's' ∷ [])
    send backing (ltoa at 16)
    pure (pos 0)

  abbrev over : (bytes temp : List ℕ) → List ℕ
  over bytes temp = take 2 (bytes ++ drop (length bytes) temp)

  -- The loop of `sermem_perform_read`, with `left` bytes to go.
  unfoldable pub read_bytes : (backing : ℕ) → (temp : List ℕ) → (left : ℕ) → M D (List ℕ)
  unfolding file_write file_read
  read_bytes backing temp zero = pure []
  read_bytes backing temp (suc left) = do
    send backing (b'r' ∷ [])
    r ← file_read env backing 2 0
    rest ← read_bytes backing (over r.1 temp) left
    pure (atoi (over r.1 temp) % 2 ^ 8 ∷ rest)

  unfoldable pub sermem_perform_read :
      (backing : ℕ) → (temp : List ℕ) → (count at : ℕ) → M D (ℤ × List ℕ)
  unfolding sermem_perform_seek read_bytes
  sermem_perform_read backing temp count at = do
    r ← sermem_perform_seek backing at
    bytes ← read_bytes backing temp count
    pure (pos count, bytes)

  -- One digit gets a zero before it.
  abbrev pub two_digits : List ℕ → List ℕ
  two_digits (c ∷ []) = b'0' ∷ c ∷ []
  two_digits [] = []
  two_digits (c ∷ d ∷ s) = c ∷ d ∷ []

  unfoldable pub write_bytes : (backing : ℕ) → List ℕ → M D (Unit {0})
  unfolding file_write
  write_bytes backing [] = pure tt
  write_bytes backing (b ∷ buf) = do
    send backing (b'w' ∷ [])
    send backing (two_digits (itoa b 16))
    write_bytes backing buf

  unfoldable pub sermem_perform_write : (backing : ℕ) → List ℕ → (at : ℕ) → M D ℤ
  unfolding sermem_perform_seek write_bytes
  sermem_perform_write backing buf at = do
    r ← sermem_perform_seek backing at
    write_bytes backing buf
    pure (pos (length buf))

  -- `special.backing` of minor 0; the driver is reached for special files only.
  abbrev pub backing_of : FileKind → Option ℕ
  backing_of (special major minor backing) = if minor == 0 then backing else none
  backing_of (plain mp inode) = none
  backing_of (directory mp inode) = none
  backing_of (pipe end circ_buf) = none

  abbrev on_backing : {A : Type 0} → Option ℕ → M D A → (ℕ → M D A) → M D A
  on_backing none otherwise f = otherwise
  on_backing (some p) otherwise f = f p

  unfoldable pub sermem_read : (file_ptr : ℕ) → (temp : List ℕ) → (count at : ℕ) → M D (ℤ × List ℕ)
  unfolding sermem_perform_read
  sermem_read file_ptr temp count at = do
    f ← load_file file_ptr
    on_backing (backing_of f.kind) (pure (minus_one, [])) (λ p. sermem_perform_read p temp count at)

  unfoldable pub sermem_write : (file_ptr : ℕ) → List ℕ → (at : ℕ) → M D ℤ
  unfolding sermem_perform_write
  sermem_write file_ptr buf at = do
    f ← load_file file_ptr
    on_backing (backing_of f.kind) (pure minus_one) (λ p. sermem_perform_write p buf at)

-- `driver` is the address of `sermem_driver`.
unfoldable pub dev_sermem_init : ℕ → List (Option ℕ) → ℤ × List (Option ℕ)
unfolding register_driver
dev_sermem_init driver drivers = (pos 0, (register_driver (pos 2) driver drivers).1)
