-- ===== src/Process/Clone/Undo.antt =====
-- The clones that the first loop has made, as a list, and that the second loop takes them all back.
use mathlib.Core.Path.{fun_ext}
use zosys.Common.{
  ℕ, suc, ◌+◌, ◌-◌, ◌≤◌, ◌<◌, ◌≡◌, ◌≢◌, refl, ap, ◌∙◌, inl, inr, Option, none, some, List, [], ◌∷◌,
  ◌++◌, arith, if◌then◌else◌, ◌==◌, Bool-cases,
}
use zosys.Common.Run.{ok}
use zosys.File.{Kernel, Env, File, OpenFile, put_at}
use zosys.File.Count.{open_clone, open_free, file_unref, file_ref, open_ref, size_max}
use zosys.Process.Clone.{free_all}

-- An open file at an address, on a file, with the position that the memory held.
pub record Made : Type 0 where
  pub at : ℕ
  pub file : ℕ
  pub pos : ℕ

abbrev pub up : Option File → Option File
up none = none
up (some g) = some (record g { ref_count = g.ref_count + 1 })

abbrev pub bump : (ℕ → Option File) → ℕ → ℕ → Option File
bump files q r = if q == r then up (files r) else files r

abbrev pub opened : Made → OpenFile
opened x = record { file = some x.file; ref_count = 1; pos = x.pos }

abbrev pub slots : List (Option Made) → List (Option ℕ)
slots [] = []
slots (none ∷ l) = none ∷ slots l
slots (some x ∷ l) = some x.at ∷ slots l

module _ {D : Type 0} where
  abbrev pub add : Made → Kernel D → Kernel D
  add x k = record k { files = bump k.files x.file; opens = put_at k.opens x.at (some (opened x)) }

  -- The kernel with the clones of a list.
  abbrev pub added : List (Option Made) → Kernel D → Kernel D
  added [] k = k
  added (none ∷ l) k = added l k
  added (some x ∷ l) k = add x (added l k)

  -- A live file with a count of at least 1.
  abbrev pub Used : Kernel D → ℕ → Type 0
  Used k q = (g : File) × (k.files q ≡ some g) × (1 ≤ g.ref_count)

  -- Its count leaves room for `n` more.
  abbrev pub Live : ℕ → Kernel D → ℕ → Type 0
  Live n k q = (g : File) × (k.files q ≡ some g) × (1 ≤ g.ref_count) × (g.ref_count + n ≤ size_max)

  pub Used-add : (k : Kernel D) (x : Made) (q : ℕ) → Used k q → Used (add x k) q
  Used-add k x q (g, e, one) = elim (Bool-cases (x.file == q)) [
    | inl same ↦ (record g { ref_count = g.ref_count + 1 }, ground arith, omega arith)
    | inr other ↦ (g, ground arith, one)
  ]

  pub Live-add : (n : ℕ) (k : Kernel D) (x : Made) (q : ℕ) → Live (suc n) k q → Live n (add x k) q
  Live-add n k x q (g, e, one, room) = elim (Bool-cases (x.file == q)) [
    | inl same ↦ (record g { ref_count = g.ref_count + 1 }, ground arith, omega arith, omega arith)
    | inr other ↦ (g, ground arith, one, omega arith)
  ]

  pub open_clone_lem :
      (env : Env D) (k : Kernel D) (o dest : ℕ) (f junk : OpenFile) (q : ℕ) (g : File)
      → k.opens o ≡ some f
      → f.file ≡ some q
      → k.files q ≡ some g
      → g.ref_count < size_max
      → env.malloc_open k ≡ some (dest, junk)
      → open_clone env (some o) k
        ≡ ok (some dest, add (record { at = dest; file = q; pos = junk.pos }) k)
  unfolding open_clone file_ref open_ref
  open_clone_lem env k o dest f junk q g op on live room fresh =
      ground (arith, on)
      ∙ ap (λ k'. ok (some dest, k')) (λ i. record k { files = e i; opens = h i })
    where
      e : put_at k.files q (some (record g { ref_count = g.ref_count + 1 })) ≡ bump k.files q
      e = fun_ext (λ r. elim (Bool-cases (q == r)) [
        | inl same ↦ let at : q ≡ r = ground arith in ground (arith, ap k.files at, live)
        | inr other ↦ ground arith
      ])

      h :
          put_at
            (put_at k.opens dest (some (record { file = f.file; ref_count = 0; pos = junk.pos })))
            dest
            (some (record { file = f.file; ref_count = 1; pos = junk.pos }))
          ≡ put_at k.opens dest (some (record { file = some q; ref_count = 1; pos = junk.pos }))
      h = fun_ext (λ r. ground (arith, on))

  pub open_free-add :
      (k : Kernel D) (x : Made)
      → Used k x.file
      → k.opens x.at ≡ none
      → open_free (some x.at) (add x k) ≡ ok (tt, k)
  unfolding open_free file_unref
  open_free-add k x (g, live, one) free =
      ground (arith, live) ∙ ap (λ k'. ok (tt, k')) (λ i. record k { files = e i; opens = h i })
    where
      e :
          put_at (bump k.files x.file) x.file (some (record g { ref_count = g.ref_count + 1 - 1 }))
          ≡ k.files
      e = fun_ext (λ r. elim (Bool-cases (x.file == r)) [
        | inl same ↦ let at : x.file ≡ r = ground arith in ground (arith, ap k.files at, live)
        | inr other ↦ ground arith
      ])

      h : put_at (put_at k.opens x.at (some (opened x))) x.at none ≡ k.opens
      h = fun_ext (λ r. elim (Bool-cases (x.at == r)) [
        | inl same ↦ let at : x.at ≡ r = ground arith in ground (arith, ap k.opens at, free)
        | inr other ↦ ground arith
      ])

  -- Two clones at different addresses may be made in either order.
  add-add : (k : Kernel D) (x y : Made) → x.at ≢ y.at → add x (add y k) ≡ add y (add x k)
  add-add k x y ne = λ i. record k { files = e i; opens = h i }
    where
      e : bump (bump k.files y.file) x.file ≡ bump (bump k.files x.file) y.file
      e = fun_ext (λ r. ground arith)

      h :
          put_at (put_at k.opens y.at (some (opened y))) x.at (some (opened x))
          ≡ put_at (put_at k.opens x.at (some (opened x))) y.at (some (opened y))
      h = fun_ext (λ r. ground arith)

  -- An address that is free with the clones was free without them.
  pub free_before :
      (l : List (Option Made)) (k : Kernel D) (a : ℕ)
      → (added l k).opens a ≡ none
      → k.opens a ≡ none
  free_before [] k a e = e
  free_before (none ∷ l) k a e = free_before l k a e
  free_before (some y ∷ l) k a e = free_before l k a (ground arith)

  pub added-append :
      (l : List (Option Made)) (k : Kernel D) (x : Made)
      → (added l k).opens x.at ≡ none
      → added (l ++ some x ∷ []) k ≡ add x (added l k)
  added-append [] k x e = refl
  added-append (none ∷ l) k x e = added-append l k x e
  added-append (some y ∷ l) k x e =
      ap (add y) (added-append l k x (ground arith))
      ∙ add-add (added l k) y x (λ same. ground (arith, e))

  pub added-append_none :
      (l : List (Option Made)) (k : Kernel D) → added (l ++ none ∷ []) k ≡ added l k
  added-append_none [] k = refl
  added-append_none (none ∷ l) k = added-append_none l k
  added-append_none (some y ∷ l) k = ap (add y) (added-append_none l k)

  Used-added : (l : List (Option Made)) (k : Kernel D) (q : ℕ) → Used k q → Used (added l k) q
  Used-added [] k q h = h
  Used-added (none ∷ l) k q h = Used-added l k q h
  Used-added (some y ∷ l) k q h = Used-add (added l k) y q (Used-added l k q h)

  -- Each clone was made at a free address, on a live file.
  abbrev pub Fresh : List (Option Made) → Kernel D → Type 0
  Fresh [] k = Unit {0}
  Fresh (none ∷ l) k = Fresh l k
  Fresh (some x ∷ l) k = ((added l k).opens x.at ≡ none) × Used k x.file × Fresh l k

  -- The second loop takes back what the first has made.
  pub free_all-added :
      (l : List (Option Made)) (k : Kernel D)
      → Fresh l k
      → free_all (slots l) (added l k) ≡ ok (tt, k)
  unfolding free_all open_free
  free_all-added [] k h = refl
  free_all-added (none ∷ l) k h = free_all-added l k h
  free_all-added (some x ∷ l) k (free, live, h) =
      rw (open_free-add (added l k) x (Used-added l k x.file live) free) (free_all-added l k h)

  pub Fresh-append :
      (l : List (Option Made)) (k : Kernel D) (x : Made)
      → Fresh l k
      → (added l k).opens x.at ≡ none
      → Used k x.file
      → Fresh (l ++ some x ∷ []) k
  Fresh-append [] k x h free live = (free, live, tt)
  Fresh-append (none ∷ l) k x h free live = Fresh-append l k x h free live
  Fresh-append (some y ∷ l) k x (there, used, h) free live =
      let before : (added l k).opens x.at ≡ none = ground arith in
      let apart : x.at ≢ y.at = λ same. ground (arith, free) in
      (
        ap (λ k'. k'.opens y.at) (added-append l k x before) ∙ ground arith,
        used,
        Fresh-append l k x h before live,
      )

  pub Fresh-append_none :
      (l : List (Option Made)) (k : Kernel D) → Fresh l k → Fresh (l ++ none ∷ []) k
  Fresh-append_none [] k h = tt
  Fresh-append_none (none ∷ l) k h = Fresh-append_none l k h
  Fresh-append_none (some y ∷ l) k (there, used, h) =
      (ap (λ k'. k'.opens y.at) (added-append_none l k) ∙ there, used, Fresh-append_none l k h)

  -- What was open before is as it was.
  pub still_open :
      (l : List (Option Made)) (k : Kernel D) (o : ℕ) (f : OpenFile)
      → Fresh l k
      → k.opens o ≡ some f
      → (added l k).opens o ≡ some f
  still_open [] k o f h e = e
  still_open (none ∷ l) k o f h e = still_open l k o f h e
  still_open (some y ∷ l) k o f (there, used, h) e = elim (Bool-cases (y.at == o)) [
    | inl same ↦
        let at : y.at ≡ o = ground arith in
        let clash = free_before l k y.at there in ground (arith, ap k.opens at)
    | inr other ↦ ground (arith, still_open l k o f h e)
  ]

pub slots-append : (l m : List (Option Made)) → slots (l ++ m) ≡ slots l ++ slots m
slots-append [] m = refl
slots-append (none ∷ l) m = ap (◌∷◌ none) (slots-append l m)
slots-append (some x ∷ l) m = ap (◌∷◌ (some x.at)) (slots-append l m)
