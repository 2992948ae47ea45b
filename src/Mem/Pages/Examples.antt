-- ===== src/Mem/Pages/Examples.antt =====
-- Runs of the page allocator from its initial map.
use zosys.Common.{ℕ, ◌/◌, ◌%◌, ◌<◌, ◌≡◌, refl, ap, ◌⊎◌, true, false, arith}
use zosys.Common.Int.{pos}
use zosys.Mem.Pages.{PageMap, initial_map, word, alloc_page, alloc_page_block, free_page}
use zosys.Mem.Pages.Used.{is_used, used_of_full, initial_map-IsValid}
use zosys.Mem.Pages.Single
use zosys.Mem.Pages.Single.{alloc_page_lem, free-alloc_leaks}

alloc_page_lem_example :
    ((p : ℕ) × Single.Got initial_map (alloc_page initial_map) p)
    ⊎ Single.Refused initial_map (alloc_page initial_map)
alloc_page_lem_example = alloc_page_lem initial_map-IsValid

alloc_page-initial : (alloc_page initial_map).0 ≡ pos 2048
unfolding alloc_page
alloc_page-initial = refl

abbrev after_alloc : PageMap
after_alloc = (alloc_page initial_map).1

low_used : (q : ℕ) → q < 16 → is_used initial_map q ≡ true
low_used q h = used_of_full initial_map q (ap (word initial_map) first)
  where
    first : q / 16 ≡ 0
    first = omega arith

alloc_page_result : alloc_page initial_map ≡ (pos 2048, after_alloc)
unfolding alloc_page
alloc_page_result = refl

free-alloc_leaks_example :
    (p : ℕ) × (is_used initial_map p ≡ false)
    × (is_used (free_page 0 after_alloc) p ≡ true)
    × (is_used initial_map (p % 16) ≡ true)
    × (is_used (free_page 0 after_alloc) (p % 16) ≡ false)
free-alloc_leaks_example = free-alloc_leaks 2048 initial_map-IsValid low_used alloc_page_result

alloc_page_block-initial : (alloc_page_block initial_map).0 ≡ pos 128
unfolding alloc_page_block
alloc_page_block-initial = refl
