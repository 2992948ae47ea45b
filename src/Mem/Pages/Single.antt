-- ===== src/Mem/Pages/Single.antt =====
-- `mem_alloc_page` and `mem_free_page` of src/mem.c.
use zosys.Common.{
  ℕ, ◌+◌, ◌*◌, ◌/◌, ◌%◌, ◌<◌, ◌≡◌, ◌≢◌, refl, ◌⊎◌, inl, inr, not, ◌&&◌, ◌||◌, true, false, arith,
  Option-cases, ◌==◌,
}
use mathlib.Core.Path.{subst}
use zosys.Common.Int.{ℤ, pos, minus_one}
use zosys.Mem.Pages.{PageMap, word, mark, find_partial, find_empty, alloc_page, free_page}
use zosys.Mem.Pages.Loops.{find_empty_hit, find_empty_miss}
use zosys.Mem.Pages.Used.{
  IsValid, is_used, mark-IsValid, is_used-mark, clear-IsValid, is_used-clear, free_of_zero,
  used_of_full, find_partial_hit, find_partial_miss,
}

-- A page of a block that was partly used, where there is such a block.
abbrev Preferred : PageMap → ℕ → Type 0
Preferred m p = (word m (p / 16) ≢ 0) ⊎ ((c : ℕ) → c < 16 → (word m c ≡ 0) ⊎ (word m c ≡ 0xffff))

-- The page `p` was free, is the only one that is now in use besides those before, and what is
-- returned for it is its block's number times 256, plus its place in the block.
pub record Got (m : PageMap) (r : ℤ × PageMap) (p : ℕ) : Type 0 where
  pub in_range : p < 256
  pub result : r.0 ≡ pos (p / 16 * 256 + p % 16)
  pub was_free : is_used m p ≡ false
  pub preferred : Preferred m p
  pub now_used : (q : ℕ) → is_used r.1 q ≡ (is_used m q || (q == p))
  pub valid : IsValid r.1

pub record Refused (m : PageMap) (r : ℤ × PageMap) : Type 0 where
  pub result : r.0 ≡ minus_one
  pub same : r.1 ≡ m
  pub full : (q : ℕ) → q < 256 → is_used m q ≡ true

Got-at :
    {m : PageMap} (b i : ℕ)
    → IsValid m
    → b < 16
    → i < 16
    → is_used m (b * 16 + i) ≡ false
    → Preferred m (b * 16 + i)
    → Got m (pos (b * 256 + i), mark m b i) (b * 16 + i)
Got-at {m} b i v hb hi free pref = record {
  in_range = omega arith;
  result = ground arith;
  was_free = free;
  preferred = pref;
  now_used = λ q. is_used-mark b i q v hb hi;
  valid = mark-IsValid b i v hb hi;
}

first_page : (b : ℕ) → (b * 16 + 0) / 16 ≡ b
first_page b = omega arith

-- From a valid map, `mem_alloc_page` takes one page that was free, from a partly used block where there is one, and
-- fails only if all 256 pages are in use, changing nothing.
pub alloc_page_lem :
    {m : PageMap} → IsValid m → ((p : ℕ) × Got m (alloc_page m) p) ⊎ Refused m (alloc_page m)
unfolding alloc_page
alloc_page_lem {m} v = elim (Option-cases (find_partial m 16 0)) [
  | inr ((b, i), e) ↦
      let (_, hb, hi, free, ne) = find_partial_hit m 16 0 b i e in
      rw (e, alloc_page) (inl (b * 16 + i, Got-at b i v hb hi free (inl (ground arith))))
  | inl e ↦ elim (Option-cases (find_empty m 16 0)) [
    | inr (b, f) ↦
        let (_, hb, z) = find_empty_hit m 16 0 b f in
        rw (e, f, alloc_page)
          (inl (
            b * 16 + 0,
            Got-at b 0 v hb (omega arith) (free_of_zero m _ (rw first_page z))
                (inr λ c h. find_partial_miss m 16 0 c v e (omega arith) h),
          ))
    | inl f ↦
        rw (e, f, alloc_page)
          (inr (record {
            result = refl;
            same = refl;
            full = λ q h. used_of_full m q (
                ground (
                  arith,
                  find_partial_miss m 16 0 (q / 16) v e,
                  find_empty_miss m 16 0 (q / 16) f,
                ));
          }))
  ]
]

-- From a valid map, `mem_free_page` of a page below 256 puts that page out of use, and no other.
free_page_lem :
    {m : PageMap} (p : ℕ)
    → IsValid m
    → p < 256
    → IsValid (free_page p m)
      × ((q : ℕ) → is_used (free_page p m) q ≡ (is_used m q && not (q == p)))
unfolding free_page
free_page_lem {m} p v h = (
  clear-IsValid (p / 16) _ v (omega arith),
  λ q. ground (arith, is_used-clear (p / 16) (p % 16) q v),
)

leak :
    {m m' : PageMap} (n p : ℕ)
    → ((q : ℕ) → q < 16 → is_used m q ≡ true)
    → Got m (pos n, m') p
    → (p : ℕ) × (is_used m p ≡ false)
      × (is_used (free_page (n % 256) m') p ≡ true)
      × (is_used m (p % 16) ≡ true)
      × (is_used (free_page (n % 256) m') (p % 16) ≡ false)
leak {m} {m'} n p low g =
    let freed = (free_page_lem (n % 256) g.valid (omega arith)).1 in
    (
      p,
      g.was_free,
      ground (arith, freed p, g.now_used p, low p, g),
      low (p % 16) (omega arith),
      ground (arith, freed (p % 16), g),
    )

-- The bug: the number that `mem_alloc_page` returns is not that of the page taken. Where the first
-- block is in use, as it always is, giving that number back as the `unsigned char` argument of
-- `mem_free_page` leaves the page in use, and puts a page of the first block out of use.
pub free-alloc_leaks :
    {m m' : PageMap} (n : ℕ)
    → IsValid m
    → ((q : ℕ) → q < 16 → is_used m q ≡ true)
    → alloc_page m ≡ (pos n, m')
    → (p : ℕ) × (is_used m p ≡ false)
      × (is_used (free_page (n % 256) m') p ≡ true)
      × (is_used m (p % 16) ≡ true)
      × (is_used (free_page (n % 256) m') (p % 16) ≡ false)
free-alloc_leaks {m} {m'} n v low e = elim (alloc_page_lem v) [
  | inl (p, g) ↦ leak n p low (subst (λ r. Got m r p) e g)
  | inr refused ↦ absurd (ground (arith, refused.result, e))
]
