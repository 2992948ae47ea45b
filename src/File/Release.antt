-- ===== src/File/Release.antt =====
-- The invariant of the reference counts when a descriptor gives up its open file.
use zosys.Common.{
  ℕ, zero, suc, ◌+◌, ◌-◌, ◌^◌, ◌≤◌, ◌<◌, ◌≡◌, ◌≢◌, sym, ap, ◌∙◌, Option, none, some, List, [], ◌∷◌,
  arith, ◌⊎◌, inl, inr, Bool-cases, if◌then◌else◌, ◌==◌, length, length-set, get_or, set,
  get_or-set_self, get_or-set_ne,
}
use zosys.File.{Kernel, File, OpenFile, put_at}
use zosys.File.Refs.{total-change, le-total, points, refers, slots, refs, IsCounted}

-- `fd` is empty, and `x` and `y` are what is left of open file `o` and of its file `p`.
abbrev pub after : {D : Type 0} → Kernel D → (fd o p : ℕ) → Option OpenFile → Option File → Kernel D
after k fd o p x y = record k {
  fds = set k.fds fd none;
  opens = put_at k.opens o x;
  files = put_at k.files p y;
}

pub lt-length_of_some :
    {A : Type 0} (xs : List (Option A)) (i : ℕ) (a : A) → get_or xs i none ≡ some a → i < length xs
lt-length_of_some [] i a e = ground arith
lt-length_of_some (x ∷ xs) zero a e = omega arith
lt-length_of_some (x ∷ xs) (suc i) a e = omega (arith, lt-length_of_some xs i a e)

pub points_self : (r : ℕ) → points (some r) r ≡ 1
points_self r = ground arith

-- Another descriptor than the one emptied leads where it led.
kept_slot :
    (fds : List (Option ℕ)) (fd n q : ℕ)
    → fd < length fds
    → get_or (set fds fd none) n none ≡ some q
    → (n ≢ fd) × (get_or fds n none ≡ some q)
kept_slot fds fd n q h e = elim (Bool-cases (fd == n)) [
  | inl same ↦
      let at : fd ≡ n = ground arith in
      absurd (ground (arith, rw (← at) at e, get_or-set_self fds fd none none h))
  | inr other ↦ (ground arith, ground (arith, get_or-set_ne fds fd n none none))
]

module _ {D : Type 0} (k : Kernel D) (fd o p : ℕ) (f : OpenFile) (g : File) (inv : IsCounted k)
    (at : get_or k.fds fd none ≡ some o) (opened : k.opens o ≡ some f) (on : f.file ≡ some p)
    (live : k.files p ≡ some g) where
  in_table : fd < length k.fds
  in_table = lt-length_of_some k.fds fd o at

  slots-after :
      (x : Option OpenFile) (y : Option File) (q : ℕ)
      → slots (after k fd o p x y) q + points (some o) q ≡ slots k q
  slots-after x y q = omega (
    arith,
    total-change 8 fd (λ i. points (get_or (set k.fds fd none) i none) q)
        (λ i. points (get_or k.fds i none) q) (omega (arith, inv.table, in_table))
        (λ j ne. ap (λ c. points c q) (get_or-set_ne k.fds fd j none none (λ e. ne (sym e)))),
    ap (λ c. points c q) at,
    ap (λ c. points c q) (get_or-set_self k.fds fd none none in_table),
  )

  refs-after :
      (x : Option OpenFile) (y : Option File) (r : ℕ)
      → refs (after k fd o p x y) r + points (some p) r ≡ refs k r + refers x r
  refs-after x y r = omega (
    arith,
    total-change (2 ^ 16) o (λ i. refers (put_at k.opens o x i) r) (λ i. refers (k.opens i) r)
        (inv.address o f opened) (λ j ne. ap (λ c. refers c r) (ground arith)),
    ap (λ c. refers c r) opened,
    ap (λ c. points c r) on,
    ap (λ c. refers c r) (put_at-here x),
  )
    where
      put_at-here : (x : Option OpenFile) → put_at k.opens o x o ≡ x
      put_at-here x = ground arith

  -- A live object other than the one written is as it was.
  opens-ne : (x : Option OpenFile) (q : ℕ) → q ≢ o → put_at k.opens o x q ≡ k.opens q
  opens-ne x q ne = ground arith

  files-same : (r : ℕ) → put_at k.files p (some g) r ≡ k.files r
  files-same r = ground arith

  -- Another descriptor leads to `o` still: then its count stays above 0.
  abbrev fewer : OpenFile
  fewer = record f { ref_count = f.ref_count - 1 }

  keep_live :
      (q : ℕ) (h : OpenFile)
      → k.opens q ≡ some h
      → (h' : OpenFile) × (put_at k.opens o (some fewer) q ≡ some h')
  keep_live q h e = elim (Bool-cases (o == q)) [
    | inl same ↦ (fewer, ground arith)
    | inr other ↦ (h, ground arith)
  ]

  -- What `put_at` holds at `q` is either what was written, at `o`, or what was there.
  written :
      (x : Option OpenFile) (q : ℕ) (h : OpenFile)
      → put_at k.opens o x q ≡ some h
      → ((o ≡ q) × (x ≡ some h)) ⊎ ((q ≢ o) × (k.opens q ≡ some h))
  written x q h e = elim (Bool-cases (o == q)) [
    | inl same ↦ inl (ground arith, ground arith)
    | inr other ↦ inr (ground arith, ground arith)
  ]

  abbrev FileOf : Kernel D → OpenFile → Type 0
  FileOf k' h = (r : ℕ) × (g' : File) × (h.file ≡ some r) × (k'.files r ≡ some g')

  abbrev kept : Kernel D
  kept = after k fd o p (some fewer) (some g)

  kept_file : (h : OpenFile) → FileOf k h → FileOf kept h
  kept_file h (r, g', e, l) = (r, g', e, files-same r ∙ l)

  pub keep-IsCounted : 2 ≤ f.ref_count → IsCounted kept
  keep-IsCounted h = record {
    table = length-set k.fds fd none ∙ inv.table;
    address = λ q h e. elim (written (some fewer) q h e) [
      | inl (same, _) ↦ rw (← same) (inv.address o f opened)
      | inr (_, old) ↦ inv.address q h old
    ];
    slot_live = λ n q e.
        let (_, old) = kept_slot k.fds fd n q in_table e in
        let (h, there) = inv.slot_live n q old in keep_live q h there;
    open_live = λ q h e. elim (written (some fewer) q h e) [
      | inl (_, now) ↦ (p, g, ground arith, files-same p ∙ live)
      | inr (_, old) ↦ kept_file h (inv.open_live q h old)
    ];
    cwd_live = λ r e. let (g', l) = inv.cwd_live r e in (g', files-same r ∙ l);
    open_count = λ q h e. elim (written (some fewer) q h e) [
      | inl (same, now) ↦
          ground (arith, slots-after (some fewer) (some g) q, inv.open_count o f opened)
      | inr (ne, old) ↦ ground (arith, slots-after (some fewer) (some g) q, inv.open_count q h old)
    ];
    file_count = λ r h e. omega (
      arith,
      refs-after (some fewer) (some g) r,
      ap (λ c. points c r) on,
      inv.file_count r h (sym (files-same r) ∙ e),
    );
  }

  -- What `file_file_unref` leaves of the file.
  abbrev pub file_left : Option File
  file_left = if g.ref_count - 1 == 0 then none else some (record g { ref_count = g.ref_count - 1 })

  abbrev dropped : Kernel D
  dropped = after k fd o p none file_left

  -- A file that is still referred to is still there.
  still_there :
      (r : ℕ) (g' : File)
      → k.files r ≡ some g'
      → 1 ≤ refs dropped r
      → (g'' : File) × (dropped.files r ≡ some g'')
  still_there r g' l many = elim (Bool-cases (p == r)) [
    | inl same ↦
        let at_p : p ≡ r = ground arith in
        (
          record g { ref_count = g.ref_count - 1 },
          ground (arith, refs-after none file_left r, inv.file_count p g live, ap (refs k) at_p),
        )
    | inr other ↦ (g', ground arith)
  ]

  no_slot : f.ref_count ≡ 1 → (n q : ℕ) → get_or dropped.fds n none ≡ some q → q ≢ o
  no_slot last n q e same = ground (
    arith,
    slots-after none file_left o,
    inv.open_count o f opened,
    le-total 8 n (λ i. points (get_or dropped.fds i none) o),
    lt-length_of_some dropped.fds n q e,
    length-set k.fds fd none,
    inv.table,
    ap (λ c. points c o) e,
  )

  drop_file : (q : ℕ) (h : OpenFile) → q ≢ o → k.opens q ≡ some h → FileOf dropped h
  drop_file q h ne old =
      let (r, g', e, l) = inv.open_live q h old in
      let (g'', l') = still_there r g' l (
        omega (
          arith,
          le-total (2 ^ 16) q (λ i. refers (dropped.opens i) r) (inv.address q h old),
          ap (λ c. refers c r) (opens-ne none q ne ∙ old),
          ap (λ c. points c r) e,
          points_self r,
        )) in
      (r, g'', e, l')

  pub drop-IsCounted : f.ref_count ≡ 1 → IsCounted dropped
  drop-IsCounted last = record {
    table = length-set k.fds fd none ∙ inv.table;
    address = λ q h e. elim (written none q h e) [
      | inl (_, no_way) ↦ absurd (ground arith)
      | inr (_, old) ↦ inv.address q h old
    ];
    slot_live = λ n q e.
        let (_, old) = kept_slot k.fds fd n q in_table e in
        let (h, there) = inv.slot_live n q old in (h, ground (arith, no_slot last n q e));
    open_live = λ q h e. elim (written none q h e) [
      | inl (_, no_way) ↦ absurd (ground arith)
      | inr (ne, old) ↦ drop_file q h ne old
    ];
    cwd_live = λ r e.
        let (g', l) = inv.cwd_live r e in
        still_there r g' l (omega (arith, ap (λ c. points c r) e, points_self r));
    open_count = λ q h e. elim (written none q h e) [
      | inl (_, no_way) ↦ absurd (ground arith)
      | inr (ne, old) ↦ ground (arith, slots-after none file_left q, inv.open_count q h old)
    ];
    file_count = λ r h e.
        ground (arith, refs-after none file_left r, inv.file_count p g live, inv.file_count r h);
  }
