-- ===== src/Mem/Pages/Used.antt =====
-- The set of pages in use that a page map stands for, and how each write of a word changes it.
use Prim.Native.Nat.{bit_and, bit_or}
use zosys.Common.{
  ℕ, zero, suc, ◌+◌, ◌-◌, ◌*◌, ◌/◌, ◌%◌, ◌^◌, ◌≤◌, ◌<◌, ◌≡◌, ◌≢◌, refl, List, [], ◌∷◌, ltb, ◌∙◌,
  ◌⊎◌, inl, inr, not, ◌&&◌, ◌||◌, Bool, true, false, none, some, arith, Bool-cases, ◌==◌,
  if◌then◌else◌, length, length-set, set, get_or-set_self, get_or-set_ne,
}
use zosys.Common.Bits.{
  bit, pow-lt, bit-mask, bit-or, bit-and, bit-pow, bit-zero, bit-full, or-lt, and-lt,
  eq-zero_of_bits, eq-full_of_bits,
}
use zosys.Mem.Pages.{PageMap, initial_map, word, mark, find_clear, find_partial}
use zosys.Mem.Pages.Loops.{find_clear_hit, find_clear_miss}

-- The array has 16 words of 16 bits.
pub record IsValid (m : PageMap) : Type 0 where
  pub blocks : length m ≡ 16
  pub fits : (b : ℕ) → word m b < 2 ^ 16

-- Page `p` is marked as in use.
unfoldable pub is_used : PageMap → ℕ → Bool
is_used m p = bit (word m (p / 16)) (p % 16)

word-set :
    (m : PageMap) (b c w : ℕ) → b < length m → word (set m b w) c ≡ (if b == c then w else word m c)
word-set m b c w h = elim (Bool-cases (b == c)) [
  | inl e ↦ ground (arith, get_or-set_self m b w 0 h)
  | inr e ↦ ground (arith, get_or-set_ne m b c w 0)
]

pub set-IsValid : {m : PageMap} (b w : ℕ) → IsValid m → b < 16 → w < 2 ^ 16 → IsValid (set m b w)
set-IsValid {m} b w v hb hw = record {
  blocks = length-set m b w ∙ v.blocks;
  fits = λ c. ground (arith, word-set m b c w, v.blocks, v.fits c);
}

pub mark-IsValid : {m : PageMap} (b i : ℕ) → IsValid m → b < 16 → i < 16 → IsValid (mark m b i)
mark-IsValid {m} b i v hb hi =
    set-IsValid b _ v hb (or-lt 16 (word m b) (2 ^ i) (v.fits b) (pow-lt i hi))

-- Setting bit `i` of word `b` puts page `16 * b + i` in use, and no other.
pub is_used-mark :
    {m : PageMap} (b i q : ℕ)
    → IsValid m
    → b < 16
    → i < 16
    → is_used (mark m b i) q ≡ (is_used m q || (q == b * 16 + i))
unfolding is_used
is_used-mark {m} b i q v hb hi = ground (
  arith,
  v.blocks,
  word-set m b (q / 16) (bit_or (word m b) (2 ^ i)),
  bit-or (word m b) (2 ^ i) (q % 16),
  bit-pow i (q % 16),
)

pub clear-IsValid :
    {m : PageMap} (b k : ℕ) → IsValid m → b < 16 → IsValid (set m b (bit_and (word m b) k))
clear-IsValid {m} b k v hb = set-IsValid b _ v hb (and-lt 16 (word m b) k (v.fits b))

-- Clearing bit `i` of word `b` frees page `16 * b + i`, and no other.
pub is_used-clear :
    {m : PageMap} (b i q : ℕ)
    → IsValid m
    → b < 16
    → i < 16
    → is_used (set m b (bit_and (word m b) (0xffff - 2 ^ i))) q
      ≡ (is_used m q && not (q == b * 16 + i))
unfolding is_used
is_used-clear {m} b i q v hb hi = ground (
  arith,
  v.blocks,
  word-set m b (q / 16) (bit_and (word m b) (0xffff - 2 ^ i)),
  bit-and (word m b) (0xffff - 2 ^ i) (q % 16),
  bit-mask i (q % 16) hi,
)

-- Overwriting word `b` by all ones or by zero changes the pages of block `b` only.
pub is_used-fill :
    {m : PageMap} (b q : ℕ)
    → IsValid m
    → b < 16
    → is_used (set m b 0xffff) q ≡ (is_used m q || (q / 16 == b))
unfolding is_used
is_used-fill {m} b q v hb =
    ground (arith, v.blocks, word-set m b (q / 16) 0xffff, bit-full (q % 16) (omega arith))

pub is_used-empty :
    {m : PageMap} (b q : ℕ)
    → IsValid m
    → b < 16
    → is_used (set m b 0) q ≡ (is_used m q && not (q / 16 == b))
unfolding is_used
is_used-empty {m} b q v hb = ground (arith, v.blocks, word-set m b (q / 16) 0, bit-zero (q % 16))

-- A word is zero exactly if its block has no page in use, and all ones if every page is.
pub free_of_zero : (m : PageMap) (q : ℕ) → word m (q / 16) ≡ 0 → is_used m q ≡ false
unfolding is_used
free_of_zero m q e = rw e (bit-zero (q % 16))

pub zero_of_free :
    {m : PageMap} (b : ℕ) → IsValid m → ((q : ℕ) → q / 16 ≡ b → is_used m q ≡ false) → word m b ≡ 0
unfolding is_used
zero_of_free {m} b v free =
    eq-zero_of_bits 16 (word m b) (v.fits b) λ i h. ground (arith, free (b * 16 + i) (omega arith))

pub used_of_full : (m : PageMap) (q : ℕ) → word m (q / 16) ≡ 0xffff → is_used m q ≡ true
unfolding is_used
used_of_full m q e = rw e (bit-full (q % 16) (omega arith))

-- The first loop of `mem_alloc_page` hits a free page of a block that has a page in use.
pub find_partial_hit :
    (m : PageMap) (left b c i : ℕ)
    → find_partial m left b ≡ some (c, i)
    → (b ≤ c) × (c < b + left) × (i < 16) × (is_used m (c * 16 + i) ≡ false) × (word m c ≢ 0)
unfolding find_partial is_used
find_partial_hit m zero b c i e = ground arith
find_partial_hit m (suc left) b c i e =
    ground (arith, find_clear_hit (word m b) 16 0 i, find_partial_hit m left (b + 1) c i)

clear_of_not_full : (w : ℕ) → w < 2 ^ 16 → w ≢ 0xffff → find_clear w 16 0 ≢ none
clear_of_not_full w h ne e =
    ne (omega (arith, eq-full_of_bits 16 w h (λ i p. find_clear_miss w 16 0 i e (omega arith) p)))

-- A miss means that every block is empty or full.
pub find_partial_miss :
    (m : PageMap) (left b c : ℕ)
    → IsValid m
    → find_partial m left b ≡ none
    → b ≤ c
    → c < b + left
    → (word m c ≡ 0) ⊎ (word m c ≡ 0xffff)
unfolding find_partial
find_partial_miss m zero b c v e p q = absurd (omega arith)
find_partial_miss m (suc left) b c v e p q =
    ground (arith, clear_of_not_full (word m b) (v.fits b), find_partial_miss m left (b + 1) c v)

all_fit : List ℕ → Bool
all_fit [] = true
all_fit (w ∷ ws) = ltb w (2 ^ 16) && all_fit ws

word-lt : (m : PageMap) (b : ℕ) → all_fit m ≡ true → word m b < 2 ^ 16
unfolding all_fit
word-lt [] b e = omega arith
word-lt (w ∷ m) zero e = ground arith
word-lt (w ∷ m) (suc b) e = word-lt m b (ground arith)

-- The map at the start is well formed.
pub initial_map-IsValid : IsValid initial_map
unfolding all_fit
initial_map-IsValid = record { blocks = refl; fits = λ b. word-lt initial_map b refl }
