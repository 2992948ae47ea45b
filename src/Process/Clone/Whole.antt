-- ===== src/Process/Clone/Whole.antt =====
-- `process_clone_files` of src/process.c clones all open files or none.
use zosys.Common.{
  ℕ, zero, suc, ◌≤◌, ◌≡◌, refl, sym, ap, ◌∙◌, ◌⊎◌, inl, inr, Option, none, some, List, [], ◌∷◌,
  ◌++◌, append-nil, append_assoc, arith, length, Option-cases,
}
use zosys.Common.Int.{pos, minus_one}
use zosys.Common.Run.{ok}
use zosys.File.{Kernel, Env, OpenFile}
use zosys.File.Count.{open_clone}
use zosys.Process.Clone.{free_all, clone_from}
use zosys.Process.Clone.Undo.{
  Made, slots, added, add, Live, Live-add, Fresh, Fresh-append, Fresh-append_none, free_all-added,
  open_clone_lem, still_open, slots-append, added-append, added-append_none,
}

-- What `malloc` gives to an open file was not in use.
abbrev pub AllocatesFree : {D : Type 0} → Env D → Type 0
AllocatesFree {D} env =
    (k : Kernel D) (dest : ℕ) (junk : OpenFile)
    → env.malloc_open k ≡ some (dest, junk)
    → k.opens dest ≡ none

module _ {D : Type 0} where
  -- A clone for each open file, on the same file.
  pub data Copies (k : Kernel D) : List (Option ℕ) → List (Option Made) → Type 0 where
    nil : Copies k [] []
    no_file :
        (src : List (Option ℕ)) (l : List (Option Made))
        → Copies k src l
        → Copies k (none ∷ src) (none ∷ l)
    open_file :
        (o : ℕ) (f : OpenFile) (x : Made) (src : List (Option ℕ)) (l : List (Option Made))
        → k.opens o ≡ some f
        → f.file ≡ some x.file
        → Copies k src l
        → Copies k (some o ∷ src) (some x ∷ l)

  -- Each descriptor in use leads to an open file of `k`, on a file that is in use in `k'` and whose
  -- count leaves room for `n` more.
  abbrev pub Ready : ℕ → (k k' : Kernel D) → List (Option ℕ) → Type 0
  Ready n k k' [] = Unit {0}
  Ready n k k' (none ∷ src) = Ready n k k' src
  Ready n k k' (some o ∷ src) =
      ((f : OpenFile) × (q : ℕ) × (k.opens o ≡ some f)
        × (f.file ≡ some q)
        × Live n k q
        × Live n k' q)
      × Ready n k k' src

  Live-weaken : (n : ℕ) (k : Kernel D) (q : ℕ) → Live (suc n) k q → Live n k q
  Live-weaken n k q (g, e, one, room) = (g, e, one, omega arith)

  Ready-add :
      (n : ℕ) (k k' : Kernel D) (x : Made) (src : List (Option ℕ))
      → Ready (suc n) k k' src
      → Ready n k (add x k') src
  Ready-add n k k' x [] h = tt
  Ready-add n k k' x (none ∷ src) h = Ready-add n k k' x src h
  Ready-add n k k' x (some o ∷ src) ((f, q, op, on, here, there), h) =
      ((f, q, op, on, Live-weaken n k q here, Live-add n k' x q there), Ready-add n k k' x src h)

  module _ (env : Env D) (k : Kernel D) where
    -- The ends of the loop: all are cloned, or nothing has changed.
    abbrev pub Whole : (l : List (Option Made)) (src : List (Option ℕ)) → Type 0
    Whole l src =
        ((m : List (Option Made)) × (clone_from env (slots l) src (added l k)
            ≡ ok ((pos 0, slots (l ++ m)), added (l ++ m) k))
          × Copies k src m
          × Fresh (l ++ m) k)
        ⊎ ((c : List (Option ℕ)) × (clone_from env (slots l) src (added l k)
              ≡ ok ((minus_one, c), k)))

    Whole-cons :
        (l : List (Option Made)) (s : Option ℕ) (x : Option Made) (src : List (Option ℕ))
        → clone_from env (slots l) (s ∷ src) (added l k)
          ≡ clone_from env (slots (l ++ x ∷ [])) src (added (l ++ x ∷ []) k)
        → ((m : List (Option Made)) → Copies k src m → Copies k (s ∷ src) (x ∷ m))
        → Whole (l ++ x ∷ []) src
        → Whole l (s ∷ src)
    Whole-cons l s x src step more (inl (m, e, c, h)) = inl (
      x ∷ m,
      step ∙ e ∙ ap (λ t. ok ((pos 0, slots t), added t k)) (append_assoc l (x ∷ []) m),
      more m c,
      rw (sym (append_assoc l (x ∷ []) m)) h,
    )
    Whole-cons l s x src step more (inr (c, e)) = inr (c, step ∙ e)

    shift :
        (l : List (Option Made)) (x : Option Made) (src : List (Option ℕ)) (k' : Kernel D)
        → added (l ++ x ∷ []) k ≡ k'
        → clone_from env (slots l ++ slots (x ∷ [])) src k'
          ≡ clone_from env (slots (l ++ x ∷ [])) src (added (l ++ x ∷ []) k)
    shift l x src k' e =
        ap (λ z. clone_from env z src k') (sym (slots-append l (x ∷ [])))
        ∙ ap (clone_from env (slots (l ++ x ∷ [])) src) (sym e)

    clone_from-some :
        (cloned src : List (Option ℕ)) (o d : ℕ) (k' k2 : Kernel D)
        → open_clone env (some o) k' ≡ ok (some d, k2)
        → clone_from env cloned (some o ∷ src) k' ≡ clone_from env (cloned ++ some d ∷ []) src k2
    unfolding clone_from
    clone_from-some cloned src o d k' k2 e = rw e refl

    clone_from-fail :
        (cloned src : List (Option ℕ)) (o : ℕ) (k' k2 : Kernel D)
        → env.malloc_open k' ≡ none
        → free_all cloned k' ≡ ok (tt, k2)
        → clone_from env cloned (some o ∷ src) k' ≡ ok ((minus_one, cloned ++ none ∷ []), k2)
    unfolding clone_from open_clone
    clone_from-fail cloned src o k' k2 no_memory e =
        let f : open_clone env (some o) k' ≡ ok (none, k') = ground arith in rw f (rw e refl)

    clone_from-Whole :
        (n : ℕ) (src : List (Option ℕ)) (l : List (Option Made))
        → AllocatesFree env
        → length src ≤ n
        → Ready n k (added l k) src
        → Fresh l k
        → Whole l src
    unfolding clone_from
    clone_from-Whole n [] l free len h fresh =
        inl ([], rw append-nil refl, nil, rw append-nil fresh)
    clone_from-Whole n (none ∷ src) l free len h fresh =
        let e = added-append_none l k in
        Whole-cons l none none src (shift l none src (added l k) e) (no_file src) (
          clone_from-Whole n src (l ++ none ∷ []) free (omega arith) (rw e h)
            (Fresh-append_none l k fresh))
    clone_from-Whole zero (some o ∷ src) l free len h fresh = absurd (omega arith)
    clone_from-Whole (suc n) (some o ∷ src) l free len
          ((f, q, op, on, (g, here, one, _), (g', there, one', room)), h) fresh =
        let k' = added l k in
        let op' = still_open l k o f fresh op in
        elim (Option-cases (env.malloc_open k')) [
          | inl no_memory ↦ inr (
            slots l ++ none ∷ [],
            clone_from-fail (slots l) src o k' k no_memory (free_all-added l k fresh),
          )
          | inr ((dest, junk), e) ↦
              let x : Made = record { at = dest; file = q; pos = junk.pos } in
              let unused = free k' dest junk e in
              let made = open_clone_lem env k' o dest f junk q g' op' on there (omega arith) e in
              let now = added-append l k x unused in
              Whole-cons l (some o) (some x) src
                (clone_from-some (slots l) src o dest k' (add x k') made
                  ∙ shift l (some x) src (add x k') now)
                (λ m c. open_file o f x src m op on c)
                (clone_from-Whole n src (l ++ some x ∷ []) free (omega arith)
                  (rw now (Ready-add n k k' x src h))
                  (Fresh-append l k x fresh unused (g, here, one)))
        ]

    -- If `malloc` gives free memory, and each descriptor in use leads to an open file, on a file that
    -- is in use and whose count leaves room for as many references as there are descriptors: the loop
    -- of `process_clone_files` returns 0 with a clone of each open file, on the same file, or
    -- returns -1 with all open files and reference counts as they were.
    pub clone_from_lem :
        (src : List (Option ℕ))
        → AllocatesFree env
        → Ready (length src) k k src
        → ((m : List (Option Made)) × (clone_from env [] src k ≡ ok ((pos 0, slots m), added m k))
            × Copies k src m
            × Fresh m k)
          ⊎ ((c : List (Option ℕ)) × (clone_from env [] src k ≡ ok ((minus_one, c), k)))
    clone_from_lem src free h = clone_from-Whole (length src) src [] free (omega arith) h tt
