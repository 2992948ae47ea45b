-- ===== src/Mem/Pages/Blocks.antt =====
-- `mem_alloc_page_block`, `mem_alloc_page_block_specific` and `mem_free_page_block` of src/mem.c.
use std.Path.{subst}
use zosys.Common.{
  ℕ, ◌*◌, ◌/◌, ◌%◌, ◌<◌, ◌≡◌, refl, ◌⊎◌, inl, inr, not, ◌&&◌, ◌||◌, false, arith, Option-cases,
  Bool-cases, ◌==◌, ltb, set,
}
use zosys.Common.Int.{ℤ, pos, minus_one}
use zosys.Mem.Pages.{
  PageMap, initial_map, word, find_empty, alloc_page_block, alloc_page_block_specific,
  free_page_block,
}
use zosys.Mem.Pages.Loops.{find_empty_hit, find_empty_miss}
use zosys.Mem.Pages.Used.{
  IsValid, is_used, initial_map-IsValid, set-IsValid, is_used-fill, is_used-empty, free_of_zero,
  zero_of_free,
}

-- No page of block `b` is in use.
abbrev pub IsFreeBlock : PageMap → ℕ → Type 0
IsFreeBlock m b = (q : ℕ) → q / 16 ≡ b → is_used m q ≡ false

-- The 16 pages of block `b` were free and are all in use now, no other page changed, and the
-- number of the first is returned.
pub record Got (m : PageMap) (r : ℤ × PageMap) (b : ℕ) : Type 0 where
  pub in_range : b < 16
  pub result : r.0 ≡ pos (b * 16)
  pub was_free : IsFreeBlock m b
  pub now_used : (q : ℕ) → is_used r.1 q ≡ (is_used m q || (q / 16 == b))
  pub valid : IsValid r.1

pub record Refused (m : PageMap) (r : ℤ × PageMap) : Type 0 where
  pub result : r.0 ≡ minus_one
  pub same : r.1 ≡ m

Got-at :
    {m : PageMap} (b n : ℕ)
    → IsValid m
    → b < 16
    → n ≡ b * 16
    → word m b ≡ 0
    → Got m (pos n, set m b 0xffff) b
Got-at {m} b n v hb e z = record {
  in_range = hb;
  result = ground arith;
  was_free = λ q h. free_of_zero m q (rw h z);
  now_used = λ q. is_used-fill b q v hb;
  valid = set-IsValid b 0xffff v hb (omega arith);
}

-- From a valid map, `mem_alloc_page_block` takes a whole free block of 16 pages and returns the number of its first
-- page; it fails only if every block has a page in use, changing nothing.
pub alloc_page_block_lem :
    {m : PageMap}
    → IsValid m
    → ((b : ℕ) × Got m (alloc_page_block m) b)
      ⊎ (Refused m (alloc_page_block m) × ((b : ℕ) → b < 16 → ¬ (IsFreeBlock m b)))
unfolding alloc_page_block
alloc_page_block_lem {m} v = elim (Option-cases (find_empty m 16 0)) [
  | inr (b, e) ↦
      let (_, hb, z) = find_empty_hit m 16 0 b e in
      rw (e, alloc_page_block) (inl (b, Got-at b (b * 16) v hb refl z))
  | inl e ↦
      rw (e, alloc_page_block)
        (inr (
          record { result = refl; same = refl },
          λ b h free. find_empty_miss m 16 0 b e (omega arith) h (zero_of_free b v free),
        ))
]

-- From a valid map, `mem_alloc_page_block_specific` takes the block that starts at the page asked for, exactly if that
-- page is the first of one of the 16 blocks and the block is free; else it changes nothing.
alloc_page_block_specific_lem :
    {m : PageMap} (page : ℕ)
    → IsValid m
    → (Got m (alloc_page_block_specific page m) (page / 16) × (page % 16 ≡ 0))
      ⊎ (Refused m (alloc_page_block_specific page m)
          × ¬ ((page % 16 ≡ 0) × (page < 256) × IsFreeBlock m (page / 16)))
unfolding alloc_page_block_specific
alloc_page_block_specific_lem {m} page v = elim (Bool-cases (page % 16 == 0)) [
  | inr e ↦
      rw (e, alloc_page_block_specific)
        (inr (record { result = refl; same = refl }, λ h. ground arith))
  | inl e ↦ elim (Bool-cases (ltb (page / 16) 16)) [
    | inr f ↦
        rw (e, f, alloc_page_block_specific)
          (inr (record { result = refl; same = refl }, λ h. ground arith))
    | inl f ↦ elim (Bool-cases (word m (page / 16) == 0)) [
      | inr g ↦
          rw (e, f, g, alloc_page_block_specific)
            (inr (
              record { result = refl; same = refl },
              λ h. ground (arith, zero_of_free (page / 16) v h.2),
            ))
      | inl g ↦
          rw (e, f, g, alloc_page_block_specific)
            (inl (
              Got-at (page / 16) page v (ground arith) (ground arith) (ground arith),
              ground arith,
            ))
    ]
  ]
]

-- From a valid map, `mem_free_page_block` of a page below 256 puts the 16 pages of its block out of use, and no other.
pub free_page_block_lem :
    {m : PageMap} (page : ℕ)
    → IsValid m
    → page < 256
    → IsValid (free_page_block page m)
      × ((q : ℕ) → is_used (free_page_block page m) q ≡ (is_used m q && not (q / 16 == page / 16)))
unfolding free_page_block
free_page_block_lem page v h = (
  set-IsValid (page / 16) 0 v (omega arith) (omega arith),
  λ q. is_used-empty (page / 16) q v (omega arith),
)

-- The first block that is given out is the ninth.
pub alloc_page_block_first : Got initial_map (alloc_page_block initial_map) 8
unfolding alloc_page_block find_empty
alloc_page_block_first = elim (alloc_page_block_lem initial_map-IsValid) [
  | inl (b, got) ↦
      let e : b ≡ 8 = ground (arith, got.result) in
      subst (Got initial_map (alloc_page_block initial_map)) e got
  | inr (refused, _) ↦ absurd (ground (arith, refused.result))
]
