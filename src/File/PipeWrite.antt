-- ===== src/File/PipeWrite.antt =====
-- `sys_write` of src/file.c on a pipe.
use zosys.Common.{
  ℕ, zero, suc, ◌+◌, ◌%◌, ◌^◌, ◌≤◌, ◌<◌, ◌≡◌, ◌⊎◌, refl, ap, ◌∙◌, none, some, List, [], ◌∷◌, ◌++◌,
  ◌||◌, arith, true, false, ltb, min, take, drop, length, take_all, get_or, lt→ltb, Bool-cases, inl,
  inr,
}
use zosys.Common.Int.{ℤ, pos}
use zosys.Common.Run.{ok}
use zosys.CircularBuffer.{CircularBuffer}
use zosys.CircularBuffer.Valid
use zosys.CircularBuffer.Refine.{contents}
use zosys.File.{Kernel, Env, OpenFile, pipe, write_end, put_at}
use zosys.File.Monad.{M}
use zosys.File.Pipe.{write_loop, write_loop_lem, room}
use zosys.File.Dispatch.{file_write, pipe_write}
use zosys.File.Transfer.{user_buffer_size, after_write, write_part, write_rounds, sys_write}

drop_all : (n : ℕ) (xs : List ℕ) → length xs ≤ n → drop n xs ≡ []
drop_all zero [] h = refl
drop_all zero (x ∷ xs) h = absurd (omega arith)
drop_all (suc n) [] h = refl
drop_all (suc n) (x ∷ xs) h = drop_all n xs (omega arith)

all_taken : (n l : ℕ) → ltb n (min l user_buffer_size) ≡ false → l ≤ user_buffer_size → l ≤ n
all_taken n l full h = ground arith

in_user :
    (buf l : ℕ)
    → 0x1000 ≤ buf
    → buf + l < 0xf000
    → (ltb buf 0x1000 || ltb 0xf000 (buf + l + 1)) ≡ false
in_user buf l low high = ground arith

-- A round that is the last.
after_write-last :
    {D : Type 0} (env : Env D) (k : Kernel D) (o asked n : ℕ) (f : OpenFile) (rest : ℕ → M D ℤ)
    → k.opens o ≡ some f
    → let k' = record k {
      opens = put_at k.opens o (some (record f { pos = (f.pos + n) % 2 ^ 32 }));
    } in
      (ltb n asked ≡ true) ⊎ (rest n k' ≡ ok (pos n, k'))
      → after_write env o 0 asked (pos n) rest k ≡ ok (pos n, k')
after_write-last env k o asked n f rest opened why = ground (arith, opened)

module _ {D : Type 0} (env : Env D) (k : Kernel D) (o p b refs : ℕ) (f : OpenFile)
    (ring : CircularBuffer) (opened : k.opens o ≡ some f) (on : f.file ≡ some p)
    (live : k.files p ≡ some (record { kind = pipe write_end b; ref_count = refs }))
    (buf_live : k.bufs b ≡ some ring) (v : Valid.IsValid ring) where
  abbrev put_bytes : List ℕ → Kernel D
  put_bytes bytes = record k { bufs = put_at k.bufs b (some (write_loop bytes ring).1) }

  write_part-pipe :
      (bytes : List ℕ)
      → write_part env o bytes k ≡ ok (pos (write_loop bytes ring).0, put_bytes bytes)
  unfolding file_write pipe_write
  write_part-pipe bytes = ground arith

  abbrev written : List ℕ → Kernel D
  written bytes = record (put_bytes bytes) {
    opens =
        put_at k.opens o (some (record f { pos = (f.pos + (write_loop bytes ring).0) % 2 ^ 32 }));
  }

  rounds-pipe :
      (fuel : ℕ) (x : ℕ) (xs : List ℕ)
      → length (x ∷ xs) ≤ user_buffer_size
      → write_rounds env (suc (suc fuel)) o 0 (x ∷ xs) k
        ≡ ok (pos (write_loop (x ∷ xs) ring).0, written (x ∷ xs))
  unfolding write_rounds
  rounds-pipe fuel x xs h =
      let whole = take_all user_buffer_size (x ∷ xs) h in
      let n = (write_loop (x ∷ xs) ring).0 in
      let asked = min (suc (length xs)) user_buffer_size in
      rw (whole, write_part-pipe (x ∷ xs))
        (after_write-last env (put_bytes (x ∷ xs)) o asked n f
          (λ j. write_rounds env (suc fuel) o (0 + j) (drop j (x ∷ xs))) opened
          (elim (Bool-cases (ltb n asked)) [
            | inl short ↦ inl short
            | inr full ↦ inr (
                rw
                  (drop_all n (x ∷ xs)
                    (all_taken (write_loop (x ∷ xs) ring).0 (suc (length xs)) full h))
                  (ap (λ j. ok (pos j, written (x ∷ xs))) (omega arith)))
          ]))

  -- On a descriptor for the write end of a pipe, with one byte or more that fit in the user buffer
  -- and in user memory, `sys_write` takes as many bytes as there is room for, puts those behind the bytes in the pipe,
  -- and returns how many.
  pub sys_write-pipe :
      (fd buf x : ℕ) (xs : List ℕ)
      → fd < 8
      → get_or k.fds fd none ≡ some o
      → length (x ∷ xs) ≤ user_buffer_size
      → 0x1000 ≤ buf
      → buf + length (x ∷ xs) < 0xf000
      → (k' : Kernel D) × (ring' : CircularBuffer) × (sys_write env (pos fd) buf (x ∷ xs) k
          ≡ ok (pos (min (length (x ∷ xs)) (room ring)), k'))
        × (k'.bufs b ≡ some ring')
        × (contents ring' ≡ contents ring ++ take (room ring) (x ∷ xs))
  unfolding sys_write
  sys_write-pipe fd buf x xs few at h low high =
      let w = write_loop_lem (x ∷ xs) v in
      (
        written (x ∷ xs),
        (write_loop (x ∷ xs) ring).1,
        rw (lt→ltb fd 8 few, at, in_user buf (suc (length xs)) low high, sys_write)
            (rounds-pipe (length xs) x xs h ∙ ap (λ j. ok (pos j, written (x ∷ xs))) w.count),
        ground arith,
        w.bytes,
      )
