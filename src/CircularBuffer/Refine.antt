-- ===== src/CircularBuffer/Refine.antt =====
-- A valid circular buffer behaves as the queue of the bytes that it holds.
use mathlib.Core.Path.{ap₂}
use zosys.Common.{
  ℕ, zero, suc, ◌+◌, ◌-◌, ◌≤◌, ◌<◌, ◌≡◌, ◌≢◌, refl, sym, ap, ◌∙◌, List, [], ◌∷◌, ◌++◌, arith,
  length, get_or, set, get_or-set_self, get_or-set_ne, if◌then◌else◌, ltb, leb, ◌==◌,
}
use zosys.CircularBuffer.{CircularBuffer, put, get, is_full, space_left}
use zosys.CircularBuffer.Fifo
use zosys.CircularBuffer.Fifo.{Call, puts, gets, asks_full, asks_space, Reply, value, flag, space}
use zosys.CircularBuffer.Valid.{IsValid, used, put-IsValid, get-IsValid, size-put, size-get}

abbrev next : ℕ → ℕ → ℕ
next size h = if suc h == size then 0 else suc h

-- The `n` bytes from index `h` on, going round at `size`.
abbrev cells : List ℕ → ℕ → ℕ → ℕ → List ℕ
cells buf size h zero = []
cells buf size h (suc n) = get_or buf h 0 ∷ cells buf size (next size h) n

abbrev pub contents : CircularBuffer → List ℕ
contents b = cells b.buffer b.size b.head (used b)

length-cells : (buf : List ℕ) (size h n : ℕ) → length (cells buf size h n) ≡ n
length-cells buf size h zero = refl
length-cells buf size h (suc n) = ap suc (length-cells buf size (next size h) n)

pub length-contents : (b : CircularBuffer) → length (contents b) ≡ used b
length-contents b = length-cells b.buffer b.size b.head (used b)

-- The index `n` places after `h`.
abbrev place : ℕ → ℕ → ℕ → ℕ
place size h n = if ltb (h + n) size then h + n else h + n - size

place-zero : (size h : ℕ) → h < size → place size h 0 ≡ h
place-zero size h p = ground arith

place-next :
    (size h n : ℕ) → h < size → suc n < size → place size (next size h) n ≡ place size h (suc n)
place-next size h n p q = ground arith

place-ne : (size h n : ℕ) → h < size → suc n < size → place size h (suc n) ≢ h
place-ne size h n p q = ground arith

next-lt : (size h : ℕ) → h < size → next size h < size
next-lt size h p = ground arith

-- A write just behind a run of bytes adds that byte to it.
cells-set :
    (buf : List ℕ) (size x n h i : ℕ)
    → size ≤ length buf
    → h < size
    → n < size
    → i ≡ place size h n
    → cells (set buf i x) size h (suc n) ≡ cells buf size h n ++ x ∷ []
cells-set buf size x zero h i hs hh hn e =
    rw (e, place-zero size h hh, get_or-set_self buf h x 0 (omega arith))
cells-set buf size x (suc n) h i hs hh hn e =
    ap₂ ◌∷◌ (get_or-set_ne buf i h x 0 (rw e (place-ne size h n hh hn))) (
      cells-set buf size x n (next size h) i hs (next-lt size h hh) (omega arith)
        (e ∙ sym (place-next size h n hh hn)))

-- `cells` matches on `suc`, the code tests for emptiness.
cells_of_pos :
    (buf : List ℕ) (size h n : ℕ)
    → 0 < n
    → cells buf size h n ≡ get_or buf h 0 ∷ cells buf size (next size h) (n - 1)
cells_of_pos buf size h zero p = absurd (omega arith)
cells_of_pos buf size h (suc n) p = ap (λ k. cells buf size h (suc k)) (omega arith)

-- `circular_buffer_put` answers as the bounded queue does, and leaves its queue.
pub put_refines :
    {b : CircularBuffer} (x : ℕ)
    → IsValid b
    → let (r, b') = put b x in (r, contents b') ≡ Fifo.put (b.size - 1) (contents b) x
unfolding put Fifo.put
put_refines {b} x v =
    ground (arith, length-contents b, cells-set b.buffer b.size x (used b) b.head b.tail)

-- `circular_buffer_get` answers as the bounded queue does, and leaves its queue.
pub get_refines :
    {b : CircularBuffer}
    → IsValid b
    → let (r, b') = get b in (r, contents b') ≡ Fifo.get (contents b)
unfolding get Fifo.get
get_refines {b} v = ground (arith, cells_of_pos b.buffer b.size b.head (used b))

-- On a valid buffer `circular_buffer_is_full` tells whether `size - 1` bytes are held.
pub is_full_lem :
    {b : CircularBuffer} → IsValid b → is_full b ≡ leb (b.size - 1) (length (contents b))
unfolding is_full
is_full_lem {b} v = ground (arith, length-contents b)

-- On a valid buffer `circular_buffer_space_left` is the capacity, `size - 1`, less the bytes held.
space_left_lem : {b : CircularBuffer} → IsValid b → space_left b ≡ b.size - 1 - length (contents b)
unfolding space_left
space_left_lem {b} v = ground (arith, length-contents b)

-- What a client sees of a series of calls.
pub run : CircularBuffer → List Call → List Reply
run b [] = []
run b (puts x ∷ calls) = let (r, b') = put b x in value r ∷ run b' calls
run b (gets ∷ calls) = let (r, b') = get b in value r ∷ run b' calls
run b (asks_full ∷ calls) = flag (is_full b) ∷ run b calls
run b (asks_space ∷ calls) = space (space_left b) ∷ run b calls

-- Over any series of calls of its four functions, a valid circular buffer gives the replies of the
-- queue of its contents with room for `size - 1` bytes.
pub run_refines :
    (calls : List Call) {b : CircularBuffer}
    → IsValid b
    → run b calls ≡ Fifo.run (b.size - 1) (contents b) calls
unfolding run Fifo.run
run_refines [] v = refl
run_refines (puts x ∷ calls) {b} v =
    rw (run_refines calls (put-IsValid x v), ← put_refines x v, size-put)
run_refines (gets ∷ calls) v = rw (run_refines calls (get-IsValid v), ← get_refines v, size-get)
run_refines (asks_full ∷ calls) v = rw (run_refines calls v, is_full_lem v)
run_refines (asks_space ∷ calls) v = rw (run_refines calls v, space_left_lem v)
