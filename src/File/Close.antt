-- ===== src/File/Close.antt =====
-- `sys_close` of src/file.c on a descriptor in use: it comes back, the descriptor is free, and the
-- reference counts are right again.
use zosys.Common.{
  ℕ, ◌-◌, ◌^◌, ◌≤◌, ◌<◌, ◌≡◌, ◌≢◌, refl, ap, ◌∙◌, Option, none, some, arith, ◌⊎◌, inl, inr,
  Bool-cases, ◌==◌, get_or, set, get_or-set_self,
}
use std.Path.{fun_ext, subst}
use zosys.Common.Int.{ℤ, pos}
use zosys.Common.Run.{ok}
use zosys.File.{Kernel, Env, File, OpenFile, put_at}
use zosys.File.Count.{open_unref, open_free, file_unref}
use zosys.File.Dispatch.{file_close}
use zosys.File.Calls.{slot, close_slot, sys_close}
use zosys.File.Refs.{points, le-total, refers, IsCounted}
use zosys.File.Release.{file_left, points_self, lt-length_of_some, keep-IsCounted, drop-IsCounted}

put_at-same :
    {A : Type 0} (g : ℕ → Option A) (p : ℕ) (a : A) → g p ≡ some a → put_at g p (some a) ≡ g
put_at-same g p a e = fun_ext (λ q. ground (arith, e))

put_at-put_at :
    {A : Type 0} (g : ℕ → A) (p : ℕ) (a b : A) → put_at (put_at g p a) p b ≡ put_at g p b
put_at-put_at g p a b = fun_ext (λ q. ground arith)

cases : (n : ℕ) → 1 ≤ n → (n ≡ 1) ⊎ (2 ≤ n)
cases n h = elim (Bool-cases (n == 1)) [
  | inl one ↦ inl (ground arith)
  | inr more ↦ inr (ground arith)
]

-- A count of 1 and nothing left, or one less.
abbrev pub LessOne : {A : Type 0} → (A → ℕ) → (A → ℕ → A) → A → Option A → Type 0
LessOne count with_count a left =
    ((count a ≡ 1) × (left ≡ none)) ⊎ ((2 ≤ count a) × (left ≡ some (with_count a (count a - 1))))

module _ {D : Type 0} where
  -- A reference to open file `o` is given back: the last one frees it and gives back its reference
  -- to file `p`, of which the last one frees the file. Nothing else changes.
  pub record GivenBack (k k' : Kernel D) (o p : ℕ) (f : OpenFile) (g : File) : Type 0 where
    pub open_file :
        ((f.ref_count ≡ 1)
          × (k'.opens o ≡ none)
          × LessOne
              (λ (h : File). h.ref_count)
              (λ (h : File) n. record h { ref_count = n })
              g
              (k'.files p))
        ⊎ ((2 ≤ f.ref_count)
            × (k'.opens o ≡ some (record f { ref_count = f.ref_count - 1 }))
            × (k'.files p ≡ some g))
    pub other_opens : (q : ℕ) → q ≢ o → k'.opens q ≡ k.opens q
    pub other_files : (q : ℕ) → q ≢ p → k'.files q ≡ k.files q

  pub new_dev-IsCounted : (k : Kernel D) (d : D) → IsCounted k → IsCounted (record k { dev = d })
  new_dev-IsCounted k d inv = record {
    table = inv.table;
    address = inv.address;
    slot_live = inv.slot_live;
    open_live = inv.open_live;
    cwd_live = inv.cwd_live;
    open_count = inv.open_count;
    file_count = inv.file_count;
  }

  module _ (k : Kernel D) (fd o p : ℕ) (f : OpenFile) (g : File) (inv : IsCounted k)
      (at : get_or k.fds fd none ≡ some o) (opened : k.opens o ≡ some f) (on : f.file ≡ some p)
      (live : k.files p ≡ some g) where
    in_range : fd < 8
    in_range = omega (arith, inv.table, lt-length_of_some k.fds fd o at)

    count_open : 1 ≤ f.ref_count
    count_open = omega (
      arith,
      inv.open_count o f opened,
      le-total 8 fd (λ i. points (get_or k.fds i none) o) in_range,
      ap (λ c. points c o) at,
      points_self o,
    )

    count_file : 1 ≤ g.ref_count
    count_file = omega (
      arith,
      inv.file_count p g live,
      le-total (2 ^ 16) o (λ i. refers (k.opens i) p) (inv.address o f opened),
      ap (λ c. refers c p) opened,
      ap (λ c. points c p) on,
      points_self p,
    )

    -- Giving back the reference, when it is not the last one.
    unref_keep :
        2 ≤ f.ref_count
        → open_unref (some o) k
          ≡ ok (
            tt,
            record k { opens = put_at k.opens o (some (record f { ref_count = f.ref_count - 1 })) },
          )
    unfolding open_unref open_free file_unref
    unref_keep h = ground arith

    unref_drop :
        f.ref_count ≡ 1
        → open_unref (some o) k
          ≡ ok (
            tt,
            record k {
              opens = put_at k.opens o none;
              files = put_at k.files p (file_left k fd o p f g inv at opened on live);
            },
          )
    unfolding open_unref open_free file_unref
    unref_drop h = ground (
      arith,
      count_file,
      put_at-put_at k.opens o (some (record f { ref_count = f.ref_count - 1 })) none,
    )

    left_of_file :
        (q : Option File)
        → q ≡ file_left k fd o p f g inv at opened on live
        → LessOne (λ (h : File). h.ref_count) (λ (h : File) n. record h { ref_count = n }) g q
    left_of_file q e = elim (cases g.ref_count count_file) [
      | inl last ↦ inl (last, ground arith)
      | inr many ↦ inr (many, ground arith)
    ]

    unref_lem :
        (k' : Kernel D) × (open_unref (some o) k ≡ ok (tt, k'))
        × (k'.fds ≡ k.fds)
        × GivenBack k k' o p f g
        × IsCounted (record k' { fds = set k'.fds fd none })
    unref_lem = elim (cases f.ref_count count_open) [
      | inl last ↦ (
        _,
        unref_drop last,
        refl,
        record {
          open_file = inl (last, ground arith, ground (arith, left_of_file _ refl));
          other_opens = λ q ne. ground arith;
          other_files = λ q ne. ground arith;
        },
        drop-IsCounted k fd o p f g inv at opened on live last,
      )
      | inr many ↦ (
        _,
        unref_keep many,
        refl,
        record {
          open_file = inr (many, ground arith, live);
          other_opens = λ q ne. ground arith;
          other_files = λ q ne. refl;
        },
        subst
            (λ h. IsCounted (record k {
              opens = put_at k.opens o (some (record f { ref_count = f.ref_count - 1 }));
              fds = set k.fds fd none;
              files = h;
            }))
            (put_at-same k.files p g live) (keep-IsCounted k fd o p f g inv at opened on live many),
      )
    ]

  -- Of a descriptor that leads to an open file, where `file_close` comes back and has changed what
  -- drivers keep alone: if the reference counts are right, `sys_close` returns 0, that descriptor
  -- alone becomes free, the open file has one reference less, or is gone with its last one, and then
  -- so for its file; the other open files and files are as they were, and the counts are right again.
  pub sys_close_lem :
      (env : Env D) (k : Kernel D) (fd o p : ℕ) (f : OpenFile) (g : File) (r : ℤ) (d : D)
      → IsCounted k
      → get_or k.fds fd none ≡ some o
      → k.opens o ≡ some f
      → f.file ≡ some p
      → k.files p ≡ some g
      → file_close env p k ≡ ok (r, record k { dev = d })
      → (k' : Kernel D) × (sys_close env (pos fd) k ≡ ok (pos 0, k'))
        × (k'.fds ≡ set k.fds fd none)
        × (get_or k'.fds fd none ≡ none)
        × GivenBack k k' o p f g
        × IsCounted k'
  unfolding sys_close
  sys_close_lem env k fd o p f g r d inv at opened on live closes =
      let (k', did, same, given, counted) =
        unref_lem (record k { dev = d }) fd o p f g (new_dev-IsCounted k d inv) at opened on live in
      let here : slot k (pos fd) ≡ some o =
        ground (arith, in_range k fd o p f g inv at opened on live) in
      let ran : close_slot env fd o k ≡ ok (tt, record k' { fds = set k'.fds fd none }) =
        ground (arith, closes, did, opened, on) in
      (
        record k' { fds = set k'.fds fd none },
        ground (arith, here, ran),
        ap (λ s. set s fd none) same,
        ap (λ s. get_or (set s fd none) fd none) same
            ∙ get_or-set_self k.fds fd none none (lt-length_of_some k.fds fd o at),
        record {
          open_file = given.open_file;
          other_opens = given.other_opens;
          other_files = given.other_files;
        },
        counted,
      )
