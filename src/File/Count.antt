-- ===== src/File/Count.antt =====
-- The reference counts of src/file.c: making, cloning, taking and giving back.
use zosys.Common.{ℕ, ◌+◌, ◌-◌, ◌^◌, Option, none, some, if◌then◌else◌, ◌==◌}
use zosys.Common.Run.{ok}
use zosys.File.{Env, File, plain, OpenFile}
use zosys.File.Monad.{M, pure, ◌>>=◌, ◌>>◌, panics, load_file, load_open, store_file, store_open}

abbrev pub size_max : ℕ
size_max = 2 ^ 16 - 1

module _ {D : Type 0} where
  abbrev take_file : ℕ → File → M D (Unit {0})
  take_file p f =
      if f.ref_count == size_max
      then panics
      else store_file p (some (record f { ref_count = f.ref_count + 1 }))

  -- `file_file_ref`
  unfoldable pub file_ref : Option ℕ → M D (Unit {0})
  file_ref none = panics
  file_ref (some p) = do f ← load_file p; take_file p f

  abbrev give_file : ℕ → File → M D (Unit {0})
  give_file p f =
      if f.ref_count == 0
      then panics
      else if f.ref_count - 1 == 0
      then store_file p none
      else store_file p (some (record f { ref_count = f.ref_count - 1 }))

  -- `file_file_unref`, with `file_file_free` at a count of 0.
  unfoldable pub file_unref : Option ℕ → M D (Unit {0})
  file_unref none = panics
  file_unref (some p) = do f ← load_file p; give_file p f

  abbrev take_open : ℕ → OpenFile → M D (Unit {0})
  take_open p f =
      if f.ref_count == size_max
      then panics
      else store_open p (some (record f { ref_count = f.ref_count + 1 }))

  -- `file_open_file_ref`
  unfoldable pub open_ref : Option ℕ → M D (Unit {0})
  open_ref none = panics
  open_ref (some p) = do f ← load_open p; take_open p f

  abbrev unref_file_of : OpenFile → M D (Unit {0})
  unref_file_of f = elim f.file [ none ↦ pure tt | some q ↦ file_unref (some q) ]

  -- `file_open_file_free`
  unfoldable pub open_free : Option ℕ → M D (Unit {0})
  unfolding file_unref
  open_free none = pure tt
  open_free (some p) = do f ← load_open p; unref_file_of f; store_open p none

  abbrev give_open : ℕ → OpenFile → M D (Unit {0})
  unfolding open_free
  give_open p f = if f.ref_count == 0 then panics else do
    store_open p (some (record f { ref_count = f.ref_count - 1 }))
    if f.ref_count - 1 == 0 then open_free (some p) else pure tt

  -- `file_open_file_unref`
  unfoldable pub open_unref : Option ℕ → M D (Unit {0})
  unfolding give_open
  open_unref none = panics
  open_unref (some p) = do f ← load_open p; give_open p f

  module _ (env : Env D) where
    -- `file_file_new`: all zero, so a plain file with no mount point, then one reference.
    unfoldable pub file_new : M D (Option ℕ)
    unfolding file_ref
    file_new k = elim (env.malloc_file k) [
      | none ↦ ok (none, k)
      | some p ↦
          (do
            store_file p (some (record { kind = plain none 0; ref_count = 0 }))
            file_ref (some p)
            pure (some p))
            k
    ]

    -- `file_open_file_new`
    unfoldable pub open_new : M D (Option ℕ)
    unfolding open_ref
    open_new k = elim (env.malloc_open k) [
      | none ↦ ok (none, k)
      | some (p, _) ↦
          (do
            store_open p (some (record { file = none; ref_count = 0; pos = 0 }))
            open_ref (some p)
            pure (some p))
            k
    ]

    -- `file_open_file_clone`: `sizeof(dest)` is the size of a pointer, two bytes, so that only the
    -- first member is copied, and `pos` stays what `malloc` left there.
    unfoldable pub open_clone : Option ℕ → M D (Option ℕ)
    unfolding file_ref open_ref
    open_clone none k = ok (none, k)
    open_clone (some src) k = elim (env.malloc_open k) [
      | none ↦ ok (none, k)
      | some (dest, junk) ↦
          (do
            f ← load_open src
            file_ref f.file
            store_open dest (some (record { file = f.file; ref_count = 0; pos = junk.pos }))
            open_ref (some dest)
            pure (some dest))
            k
    ]
