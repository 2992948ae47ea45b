-- ===== src/Sync/BlockBuf.antt =====
-- src/block_buf.c: a pool of 512-byte blocks behind a semaphore, with a mutex for each block.
-- A block is named by its offset in bytes in `blocks_512`; `free` holds the mutexes of `free_512`.
-- The bytes are the clients' own.
use zosys.Common.{
  ℕ, zero, suc, ◌+◌, ◌*◌, ◌/◌, ◌<◌, ◌≡◌, ◌≢◌, refl, ap, ◌∙◌, ◌⊎◌, inl, inr, Bool, true, false,
  Option, none, some, List, [], ◌∷◌, arith, Bool-cases, ◌==◌, if◌then◌else◌, replicate,
}
use zosys.Common.Int.{pos}
use zosys.Common.ProcList.{ProcList}
use zosys.Process.{Sched, Run, ok, panic, fault}
use zosys.Sync.{Pass, returned, asleep}
use zosys.Sync.Mutex
use zosys.Sync.Mutex.{Mutex}
use zosys.Sync.Semaphore
use zosys.Sync.Semaphore.{Semaphore}

abbrev pub block_512_count : ℕ
block_512_count = 1

pub record BlockBuf (L : ProcList) : Type 0 where
  pub available : Semaphore L
  pub free : List (Mutex L)

module _ {L : ProcList} where
  pub init : BlockBuf L
  unfolding Semaphore.init Mutex.init
  init = record {
    available = Semaphore.init (pos block_512_count);
    free = replicate block_512_count Mutex.init;
  }

  -- The loop over `free_512` from index `i`: the first block whose mutex can be taken.
  pub take_from : ℕ → List (Mutex L) → Option (ℕ × List (Mutex L))
  take_from i [] = none
  take_from i (m ∷ ms) =
      let rest = take_from (i + 1) ms in
      if (Mutex.trylock m).0
      then some (i * 512, (Mutex.trylock m).1 ∷ ms)
      else elim rest [ none ↦ none | some (block, ms') ↦ some (block, m ∷ ms') ]

  -- The loop, and the panic behind it.
  abbrev taken : BlockBuf L → Option (ℕ × List (Mutex L)) → Run (Option ℕ × BlockBuf L)
  taken b none = panic
  taken b (some (block, ms)) = ok (some block, record b { free = ms })

  pub tryalloc : BlockBuf L → Run (Option ℕ × BlockBuf L)
  unfolding take_from Semaphore.trywait
  tryalloc b =
      if (Semaphore.trywait b.available).0
      then taken (record b { available = (Semaphore.trywait b.available).1 }) (take_from 0 b.free)
      else ok (none, b)

  abbrev finish :
      Sched L → Run (Option ℕ × BlockBuf L) → Run (Pass (Option ℕ × BlockBuf L × Sched L))
  finish s panic = panic
  finish s fault = fault
  finish s (ok (block, b)) = ok (returned (block, b, s))

  abbrev after_wait :
      BlockBuf L → Run (Pass (Semaphore L × Sched L)) → Run (Pass (Option ℕ × BlockBuf L × Sched L))
  unfolding take_from
  after_wait b panic = panic
  after_wait b fault = fault
  after_wait b (ok (asleep (m, s))) = ok (asleep (none, record b { available = m }, s))
  after_wait b (ok (returned (m, s))) =
      finish s (taken (record b { available = m }) (take_from 0 b.free))

  -- `block_512_alloc` up to where the caller sleeps in `semaphore_wait`, if it does.
  pub alloc : BlockBuf L → Sched L → Run (Pass (Option ℕ × BlockBuf L × Sched L))
  unfolding after_wait Semaphore.wait
  alloc b s = after_wait b (Semaphore.wait b.available s)

  abbrev unlock_at : List (Mutex L) → ℕ → Sched L → List (Mutex L) × Sched L
  unlock_at [] i s = ([], s)
  unlock_at (m ∷ ms) zero s = ((Mutex.unlock m s).0 ∷ ms, (Mutex.unlock m s).1)
  unlock_at (m ∷ ms) (suc i) s = (m ∷ (unlock_at ms i s).0, (unlock_at ms i s).1)

  pub free : ℕ → BlockBuf L → Sched L → BlockBuf L × Sched L
  unfolding Mutex.unlock Semaphore.signal
  free block b s =
      let (ms, s') = unlock_at b.free (block / 512) s in
      let (sem, s'') = Semaphore.signal b.available s' in
      (record { available = sem; free = ms }, s'')

  -- The number of blocks that nobody holds.
  abbrev pub unlocked : List (Mutex L) → ℕ
  unlocked [] = 0
  unlocked (m ∷ ms) = (if m.locked then 0 else 1) + unlocked ms

  abbrev pub locked_at : List (Mutex L) → ℕ → Bool
  locked_at [] i = false
  locked_at (m ∷ ms) zero = m.locked
  locked_at (m ∷ ms) (suc i) = locked_at ms i

  -- With nobody asleep in `semaphore_wait`, the count is that of the blocks that nobody holds.
  abbrev pub IsValid : BlockBuf L → Type 0
  IsValid b = b.available.count ≡ pos (unlocked b.free)

  pub record Took (i : ℕ) (ms : List (Mutex L)) (block : ℕ) (ms' : List (Mutex L)) (j : ℕ)
      : Type 0 where
    pub block_is : block ≡ (i + j) * 512
    pub was_free : locked_at ms j ≡ false
    pub now_held : locked_at ms' j ≡ true
    pub fewer : unlocked ms' + 1 ≡ unlocked ms
    pub others : (k : ℕ) → k ≢ j → locked_at ms' k ≡ locked_at ms k

  take_from-Took :
      (i : ℕ) (ms : List (Mutex L))
      → 0 < unlocked ms
      → (block : ℕ) × (ms' : List (Mutex L)) × (j : ℕ) × (take_from i ms ≡ some (block, ms'))
        × Took i ms block ms' j
  unfolding take_from Mutex.trylock
  take_from-Took i [] h = absurd (omega arith)
  take_from-Took i (m ∷ ms) h = elim (Bool-cases m.locked) [
    | inr e ↦ (
      i * 512,
      record m { locked = true } ∷ ms,
      0,
      rw e,
      record {
        block_is = omega arith;
        was_free = e;
        now_held = refl;
        fewer = ground arith;
        others = elim [ zero ↦ λ ne. absurd (ne refl) | suc k ↦ λ ne. refl ];
      },
    )
    | inl e ↦
        let (block, ms', j, ran, t) = take_from-Took (i + 1) ms (ground arith) in
        (
          block,
          m ∷ ms',
          suc j,
          ground (arith, ran),
          record {
            block_is = omega (arith, t.block_is);
            was_free = t.was_free;
            now_held = t.now_held;
            fewer = ground (arith, t.fewer);
            others = elim [ zero ↦ λ ne. refl | suc k ↦ λ ne. t.others k (λ e. ne (ap suc e)) ];
          },
        )
  ]

  -- On a valid pool `block_512_tryalloc` never panics. It refuses exactly if every block is held; else it hands out
  -- the offset of a block that was free and is held now, and the other blocks are as they were.
  pub tryalloc_lem :
      {b : BlockBuf L}
      → IsValid b
      → ((tryalloc b ≡ ok (none, b)) × (unlocked b.free ≡ 0))
        ⊎ ((block : ℕ) × (b' : BlockBuf L) × (j : ℕ) × (tryalloc b ≡ ok (some block, b'))
            × IsValid b'
            × Took 0 b.free block b'.free j)
  unfolding tryalloc
  tryalloc_lem {b} v = elim (Bool-cases (unlocked b.free == 0)) [
    | inl e ↦ inl (ground (arith, v), ground arith)
    | inr e ↦
        let (block, ms', j, ran, t) = take_from-Took 0 b.free (ground arith) in
        inr (
          block,
          record { available = (Semaphore.trywait b.available).1; free = ms' },
          j,
          ground (arith, v, ran),
          ground (arith, v, t.fewer),
          t,
        )
  ]

  -- On a valid pool with a block that nobody holds `block_512_alloc` does not sleep and does not panic:
  -- it hands out the offset of a block that was free and is held now, as `block_512_tryalloc` does.
  alloc_lem :
      (b : BlockBuf L) (s : Sched L)
      → IsValid b
      → 0 < unlocked b.free
      → (block : ℕ) × (b' : BlockBuf L) × (j : ℕ) × (alloc b s ≡ ok (returned (some block, b', s)))
        × IsValid b'
        × Took 0 b.free block b'.free j
  unfolding alloc Semaphore.wait Semaphore.wait_pass after_wait
  alloc_lem b s v h =
      let (block, ms', j, ran, t) = take_from-Took 0 b.free h in
      let one_more : unlocked b.free ≡ suc (unlocked ms') = omega (arith, t.fewer) in
      let e = v ∙ ap pos one_more in
      (
        block,
        record { available = record b.available { count = pos (unlocked ms') }; free = ms' },
        j,
        rw (Semaphore.wait, e, ran) refl,
        refl,
        t,
      )

  unlocked-unlock_at :
      (ms : List (Mutex L)) (i : ℕ) (s : Sched L)
      → locked_at ms i ≡ true
      → (unlocked (unlock_at ms i s).0 ≡ unlocked ms + 1)
        × (locked_at (unlock_at ms i s).0 i ≡ false)
        × ((k : ℕ) → k ≢ i → locked_at (unlock_at ms i s).0 k ≡ locked_at ms k)
  unfolding Mutex.unlock
  unlocked-unlock_at [] i s h = ground arith
  unlocked-unlock_at (m ∷ ms) zero s h =
      (ground arith, refl, elim [ zero ↦ λ ne. absurd (ne refl) | suc k ↦ λ ne. refl ])
  unlocked-unlock_at (m ∷ ms) (suc i) s h =
      let (n, freed, others) = unlocked-unlock_at ms i s h in
      (
        ground (arith, n),
        freed,
        elim [ zero ↦ λ ne. refl | suc k ↦ λ ne. others k (λ e. ne (ap suc e)) ],
      )

  -- On a valid pool `block_512_free` of a block that is held frees that block, and no other, and the
  -- pool is valid again.
  free_lem :
      (b : BlockBuf L) (block : ℕ) (s : Sched L)
      → IsValid b
      → locked_at b.free (block / 512) ≡ true
      → let b' = (free block b s).0 in
        IsValid b'
        × (locked_at b'.free (block / 512) ≡ false)
        × ((k : ℕ) → k ≢ block / 512 → locked_at b'.free k ≡ locked_at b.free k)
  unfolding free
  free_lem b block s v h =
      let (n, freed, others) = unlocked-unlock_at b.free (block / 512) s h in
      (ground (arith, v, n), freed, others)
