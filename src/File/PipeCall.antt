-- ===== src/File/PipeCall.antt =====
-- `sys_pipe` and `file_init_pipe` of src/file.c. What it copies to `pipefd` is given beside its
-- result; the bounds of `pipefd` are tested as in the code.
use zosys.Common.{ℕ, ◌+◌, Option, none, some, List, [], ◌||◌, if◌then◌else◌, ltb}
use zosys.Common.Int.{ℤ, pos, minus_one}
use zosys.Common.Run.{ok}
use zosys.CircularBuffer.{CircularBuffer}
use zosys.File.{Env, pipe, read_end, write_end, put_at, max_open_files}
use zosys.File.Monad.{M, pure, ◌>>=◌, ◌>>◌, load_file, load_open, store_file, store_open}
use zosys.File.Count.{open_free, file_new, open_new}
use zosys.File.Calls.{find_fd, set_slot}

-- The result, and the two descriptors for `pipefd`.
abbrev pub Answer : Type 0
Answer = ℤ × Option (ℕ × ℕ)

abbrev failed : Answer
failed = (minus_one, none)

abbrev empty_buf : List ℕ → CircularBuffer
empty_buf bytes = record { buffer = bytes; size = 128; head = 0; tail = 0 }

module _ {D : Type 0} where
  abbrev free_both : ℕ → ℕ → M D Answer
  free_both r w = do open_free (some w); open_free (some r); pure failed

  abbrev free_buf : ℕ → M D (Unit {0})
  free_buf b k = ok (tt, record k { bufs = put_at k.bufs b none })

  unfoldable pub file_init_pipe : ℕ → ℕ → ℕ → M D (Unit {0})
  file_init_pipe r w b = do
    f ← load_file r
    store_file r (some (record f { kind = pipe read_end b }))
    g ← load_file w
    store_file w (some (record g { kind = pipe write_end b }))

  -- `open_file->file = file_ptr; open_file->pos = 0;`
  abbrev join : ℕ → ℕ → M D (Unit {0})
  join o p = do f ← load_open o; store_open o (some (record f { file = some p; pos = 0 }))

  module _ (env : Env D) (fd_r fd_w : ℕ) where
    abbrev with_files : (o_r o_w b : ℕ) → Option ℕ → Option ℕ → M D Answer
    with_files r w b none q = do free_buf b; free_both r w
    with_files r w b (some f) none = do store_file f none; free_buf b; free_both r w
    with_files r w b (some f) (some g) = do
      file_init_pipe f g b
      join r f
      join w g
      set_slot fd_r (some r)
      set_slot fd_w (some w)
      pure (pos 0, some (fd_r, fd_w))

    -- The second file is made only after the first.
    abbrev make_files : (o_r o_w b : ℕ) → Option ℕ → M D Answer
    make_files r w b none = with_files r w b none none
    make_files r w b (some f) = do g ← file_new env; with_files r w b (some f) g

    abbrev with_bytes : (o_r o_w b : ℕ) → Option (List ℕ) → M D Answer
    with_bytes r w b none k = (do free_buf b; free_both r w) k
    with_bytes r w b (some bytes) k =
        (do f ← file_new env; make_files r w b f)
          (record k { bufs = put_at k.bufs b (some (empty_buf bytes)) })

    abbrev with_buf : (o_r o_w : ℕ) → Option ℕ → M D Answer
    with_buf r w none k = free_both r w k
    with_buf r w (some b) k =
        let k' = record k { bufs = put_at k.bufs b (some (empty_buf [])) } in
        with_bytes r w b (env.malloc_bytes k') k'

    abbrev with_opens : (o_r o_w : Option ℕ) → M D Answer
    with_opens none w k = pure failed k
    with_opens (some r) none k = (do open_free (some r); pure failed) k
    with_opens (some r) (some w) k = with_buf r w (env.malloc_buf k) k

    abbrev make_opens : Option ℕ → M D Answer
    make_opens none = with_opens none none
    make_opens (some r) = do w ← open_new env; with_opens (some r) w

    unfoldable pub pipe_on : M D Answer
    unfolding open_new file_new open_free file_init_pipe
    pipe_on = do r ← open_new env; make_opens r

  module _ (env : Env D) where
    abbrev pick_fds : List (Option ℕ) → Option (ℕ × ℕ)
    pick_fds fds = elim (find_fd fds none max_open_files 0) [
      | none ↦ none
      | some r ↦ elim (find_fd fds (some r) max_open_files 0) [ none ↦ none | some w ↦ some (r, w) ]
    ]

    unfoldable pub sys_pipe : ℕ → M D Answer
    unfolding pipe_on find_fd
    sys_pipe pipefd k =
        if ltb pipefd 0x1000 || ltb 0xf000 (pipefd + 4)
        then pure failed k
        else elim (pick_fds k.fds) [ none ↦ pure failed k | some (r, w) ↦ pipe_on env r w k ]
