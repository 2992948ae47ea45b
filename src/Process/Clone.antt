-- ===== src/Process/Clone.antt =====
-- The loops of `process_clone_files` of src/process.c, which clone the open files of the process that
-- runs.
pub mod Undo
pub mod Whole
use zosys.Common.{Option, none, some, List, [], ◌∷◌, ◌++◌, ℕ}
use zosys.Common.Int.{ℤ, pos, minus_one}
use zosys.File.{Env}
use zosys.File.Count.{open_clone, open_free}
use zosys.File.Monad.{M, pure, ◌>>=◌, ◌>>◌}

module _ {D : Type 0} where
  -- The inner loop, that frees what was cloned.
  unfoldable pub free_all : List (Option ℕ) → M D (Unit {0})
  unfolding open_free
  free_all [] = pure tt
  free_all (o ∷ os) = do open_free o; free_all os

  -- The loop over the files of `src` that are left. The result stands with the first files of
  -- `dest`, of which the last is NULL if it could not be cloned.
  unfoldable pub clone_from : Env D → (cloned src : List (Option ℕ)) → M D (ℤ × List (Option ℕ))
  unfolding free_all open_clone
  clone_from env cloned [] = pure (pos 0, cloned)
  clone_from env cloned (none ∷ src) = clone_from env (cloned ++ none ∷ []) src
  clone_from env cloned (some o ∷ src) = do
    c ← open_clone env (some o)
    elim c [
      | none ↦ (free_all cloned >> pure (minus_one, cloned ++ none ∷ []))
      | some d ↦ clone_from env (cloned ++ some d ∷ []) src
    ]
