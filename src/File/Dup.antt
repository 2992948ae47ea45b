-- ===== src/File/Dup.antt =====
-- `sys_dup2` of src/file.c on a free target: one more descriptor leads to the open file, and the
-- reference counts are right.
use zosys.Common.{
  ℕ, ◌+◌, ◌^◌, ◌<◌, ◌≡◌, ◌≢◌, sym, ap, ◌∙◌, none, some, arith, ◌⊎◌, inl, inr, Bool-cases, ◌==◌,
  length-set, get_or, set, get_or-set_self, get_or-set_ne,
}
use zosys.Common.Int.{pos}
use zosys.Common.Run.{ok}
use zosys.File.{Kernel, Env, OpenFile, put_at}
use zosys.File.Count.{open_ref, size_max}
use zosys.File.Calls.{slot, sys_dup2}
use zosys.File.Refs.{points, slots, refs, total-eq, total-change, refers, IsCounted}
use zosys.File.Release.{lt-length_of_some}

module _ {D : Type 0} (k : Kernel D) (new o : ℕ) (f : OpenFile) (inv : IsCounted k)
    (in_table : new < 8) (free : get_or k.fds new none ≡ none) (opened : k.opens o ≡ some f) where
  abbrev more : OpenFile
  more = record f { ref_count = f.ref_count + 1 }

  abbrev shared : Kernel D
  shared = record k { opens = put_at k.opens o (some more); fds = set k.fds new (some o) }

  slots-shared : (q : ℕ) → slots shared q ≡ slots k q + points (some o) q
  slots-shared q = omega (
    arith,
    total-change 8 new (λ i. points (get_or (set k.fds new (some o)) i none) q)
        (λ i. points (get_or k.fds i none) q) in_table
        (λ j ne. ap (λ c. points c q) (get_or-set_ne k.fds new j (some o) none (λ e. ne (sym e)))),
    ap (λ c. points c q) free,
    ap (λ c. points c q) (get_or-set_self k.fds new (some o) none (omega (arith, inv.table))),
  )

  refs-shared : (r : ℕ) → refs shared r ≡ refs k r
  refs-shared r =
      ap (λ t. t + points k.cwd r)
        (total-eq (2 ^ 16) (λ i. refers (shared.opens i) r) (λ i. refers (k.opens i) r) same)
    where
      same : (i : ℕ) → refers (shared.opens i) r ≡ refers (k.opens i) r
      same i = elim (Bool-cases (o == i)) [
        | inl here ↦ let at : o ≡ i = ground arith in ground (arith, opened, ap k.opens at)
        | inr there ↦ ground arith
      ]

  written :
      (q : ℕ) (h : OpenFile)
      → shared.opens q ≡ some h
      → ((o ≡ q) × (more ≡ h)) ⊎ ((q ≢ o) × (k.opens q ≡ some h))
  written q h e = elim (Bool-cases (o == q)) [
    | inl same ↦ inl (ground arith, ground arith)
    | inr other ↦ inr (ground arith, ground arith)
  ]

  still_open :
      (q : ℕ) (h : OpenFile) → k.opens q ≡ some h → (h' : OpenFile) × (shared.opens q ≡ some h')
  still_open q h e = elim (Bool-cases (o == q)) [
    | inl same ↦ (more, ground arith)
    | inr other ↦ (h, ground arith)
  ]

  slot_of : (n q : ℕ) → get_or shared.fds n none ≡ some q → (q ≡ o) ⊎ (get_or k.fds n none ≡ some q)
  slot_of n q e = elim (Bool-cases (new == n)) [
    | inl same ↦
        let at : new ≡ n = ground arith in
        inl (
          ground (
            arith,
            ap (λ i. get_or (set k.fds new (some o)) i none) at,
            get_or-set_self k.fds new (some o) none (omega (arith, inv.table)),
          ))
    | inr other ↦ inr (ground (arith, get_or-set_ne k.fds new n (some o) none))
  ]

  pub share-IsCounted : IsCounted shared
  share-IsCounted = record {
    table = length-set k.fds new (some o) ∙ inv.table;
    address = λ q h e. elim (written q h e) [
      | inl (same, _) ↦ rw (← same) (inv.address o f opened)
      | inr (_, old) ↦ inv.address q h old
    ];
    slot_live = λ n q e. elim (slot_of n q e) [
      | inl at ↦ (more, ground arith)
      | inr old ↦ let (h, there) = inv.slot_live n q old in still_open q h there
    ];
    open_live = λ q h e. elim (written q h e) [
      | inl (_, now) ↦ let (r, g, on, live) = inv.open_live o f opened in (r, g, ground arith, live)
      | inr (_, old) ↦ inv.open_live q h old
    ];
    cwd_live = inv.cwd_live;
    open_count = λ q h e. elim (written q h e) [
      | inl (same, now) ↦ ground (arith, slots-shared q, inv.open_count o f opened)
      | inr (ne, old) ↦ ground (arith, slots-shared q, inv.open_count q h old)
    ];
    file_count = λ r h e. omega (arith, refs-shared r, inv.file_count r h e);
  }

  pub sys_dup2_lem :
      (env : Env D) (old : ℕ)
      → get_or k.fds old none ≡ some o
      → f.ref_count < size_max
      → sys_dup2 env (pos old) (pos new) k ≡ ok (pos new, shared)
  unfolding sys_dup2 open_ref
  sys_dup2_lem env old at room =
      let old_in : old < 8 = omega (arith, inv.table, lt-length_of_some k.fds old o at) in
      let here : slot k (pos old) ≡ some o = ground arith in ground arith

  -- Of a descriptor that leads to an open file whose count is not at its limit, and a free one: if
  -- the reference counts are right, `sys_dup2` returns the second, both lead to the open file, and
  -- the counts are right again.
  pub sys_dup2-IsCounted :
      (env : Env D) (old : ℕ)
      → get_or k.fds old none ≡ some o
      → f.ref_count < size_max
      → (k' : Kernel D) × (sys_dup2 env (pos old) (pos new) k ≡ ok (pos new, k'))
        × (slot k' (pos new) ≡ some o)
        × (slot k' (pos old) ≡ some o)
        × IsCounted k'
  sys_dup2-IsCounted env old at room =
      let old_in : old < 8 = omega (arith, inv.table, lt-length_of_some k.fds old o at) in
      let there : get_or (set k.fds new (some o)) new none ≡ some o =
        get_or-set_self k.fds new (some o) none (omega (arith, inv.table)) in
      let here : get_or (set k.fds new (some o)) old none ≡ some o =
        get_or-set_ne k.fds new old (some o) none
          (λ e. absurd (ground (arith, ap (λ i. get_or k.fds i none) e)))
        ∙ at in
      (
        shared,
        sys_dup2_lem env old at room,
        ground (arith, there),
        ground (arith, here),
        share-IsCounted,
      )
