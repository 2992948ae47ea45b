-- ===== src/Mem/Pages.antt =====
-- The page allocator of src/mem.c: one usage word for each block of 16 pages.
pub mod Loops
pub mod Used
pub mod Blocks
pub mod Single
mod Examples
use Prim.Native.Nat.{bit_and, bit_or}
use zosys.Common.{
  ℕ, zero, suc, ◌+◌, ◌-◌, ◌*◌, ◌/◌, ◌%◌, ◌^◌, not, ◌&&◌, Option, none, some, List, [], ◌∷◌, ◌++◌,
  get_or, set, replicate, if◌then◌else◌, ltb, ◌==◌,
}
use zosys.Common.Int.{ℤ, pos, minus_one}

abbrev pub page_count : ℕ
page_count = 256

abbrev pub pages_per_block : ℕ
pages_per_block = 16

abbrev pub page_block_count : ℕ
page_block_count = page_count / pages_per_block

-- `page_usage_map`: bit `i` of word `b` is set if page `16 * b + i` is in use.
abbrev pub PageMap : Type 0
PageMap = List ℕ

-- Its initial value: the lower 128 pages are in use.
abbrev pub initial_map : PageMap
initial_map = replicate 8 0xffff ++ replicate 8 0

abbrev pub word : PageMap → ℕ → ℕ
word m b = get_or m b 0

-- The loop over `page_in_block`, with `left` rounds to go.
pub find_clear : ℕ → (left i : ℕ) → Option ℕ
find_clear w zero i = none
find_clear w (suc left) i =
    let rest = find_clear w left (i + 1) in if bit_and w (2 ^ i) == 0 then some i else rest

-- The first loop of `mem_alloc_page`: a partly used block, and a clear bit in it.
pub find_partial : PageMap → (left b : ℕ) → Option (ℕ × ℕ)
unfolding find_clear
find_partial m zero b = none
find_partial m (suc left) b =
    let rest = find_partial m left (b + 1) in
    if not (word m b == 0xffff) && not (word m b == 0)
    then elim (find_clear (word m b) pages_per_block 0) [ none ↦ rest | some i ↦ some (b, i) ]
    else rest

-- The loops that look for an empty block.
pub find_empty : PageMap → (left b : ℕ) → Option ℕ
find_empty m zero b = none
find_empty m (suc left) b =
    let rest = find_empty m left (b + 1) in if word m b == 0 then some b else rest

abbrev pub mark : PageMap → (b i : ℕ) → PageMap
mark m b i = set m b (bit_or (word m b) (2 ^ i))

pub alloc_page : PageMap → ℤ × PageMap
unfolding find_partial find_empty
alloc_page m = elim (find_partial m page_block_count 0) [
  | some (b, i) ↦ (pos (b * page_count + i), mark m b i)
  | none ↦ elim (find_empty m page_block_count 0) [
    | some b ↦ (pos (b * page_count + 0), mark m b 0)
    | none ↦ (minus_one, m)
  ]
]

pub alloc_page_block : PageMap → ℤ × PageMap
unfolding find_empty
alloc_page_block m = elim (find_empty m page_block_count 0) [
  | some b ↦ (pos (b * pages_per_block), set m b 0xffff)
  | none ↦ (minus_one, m)
]

pub alloc_page_block_specific : ℕ → PageMap → ℤ × PageMap
alloc_page_block_specific page m =
    if page % pages_per_block == 0
    then if ltb (page / pages_per_block) page_block_count
      then if word m (page / pages_per_block) == 0
        then (pos page, set m (page / pages_per_block) 0xffff)
        else (minus_one, m)
      else (minus_one, m)
    else (minus_one, m)

-- `page` is an `unsigned char`; `~(1U << i)` is `0xffff - 2 ^ i` in 16 bits.
pub free_page : ℕ → PageMap → PageMap
free_page page m =
    set m (page / pages_per_block)
      (bit_and (word m (page / pages_per_block)) (0xffff - 2 ^ (page % pages_per_block)))

pub free_page_block : ℕ → PageMap → PageMap
free_page_block page m = set m (page / pages_per_block) 0
