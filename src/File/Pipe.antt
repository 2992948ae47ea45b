-- ===== src/File/Pipe.antt =====
-- `pipe_read` and `pipe_write` of src/file.c: loops over the circular buffer of a pipe.
use zosys.Common.{
  ℕ, zero, suc, ◌-◌, ◌≤◌, ◌≡◌, refl, ap, ◌∙◌, sym, List, [], ◌∷◌, ◌++◌, append-nil, append_assoc,
  arith, length, take, drop, min, Bool-cases, inl, inr, false, if◌then◌else◌, length-append,
  take_all, take_least, ◌<◌,
}
use zosys.Common.Int.{pos, negsuc, minus_one}
use zosys.CircularBuffer.{CircularBuffer, put, get, is_full}
use zosys.CircularBuffer.Fifo
use zosys.CircularBuffer.Valid.{IsValid, put-IsValid, get-IsValid, size-put, size-get}
use zosys.CircularBuffer.Refine.{contents, put_refines, get_refines, is_full_lem, length-contents}

-- The bytes read, in order, and the buffer. `left` is `count - count_done`.
unfoldable pub read_loop : (left : ℕ) → CircularBuffer → List ℕ × CircularBuffer
read_loop zero b = ([], b)
read_loop (suc left) b =
    let rest = read_loop left (get b).1 in
    elim (get b).0 [ pos x ↦ (x ∷ rest.0, rest.1) | negsuc n ↦ ([], (get b).1) ]

-- The number of bytes written, and the buffer. The list is `buf[count_done..count)`.
unfoldable pub write_loop : List ℕ → CircularBuffer → ℕ × CircularBuffer
write_loop [] b = (0, b)
write_loop (x ∷ xs) b =
    let rest = write_loop xs (put b x).1 in if is_full b then (0, b) else (suc rest.0, rest.1)

-- What a read leaves: the oldest bytes are out, in order, and the others stay.
pub record DidRead (n : ℕ) (b : CircularBuffer) (r : List ℕ × CircularBuffer) : Type 0 where
  pub bytes : r.0 ≡ take n (contents b)
  pub left : contents r.1 ≡ drop n (contents b)
  pub valid : IsValid r.1
  pub size : r.1.size ≡ b.size

take-nil : (n : ℕ) → take {A = ℕ} n [] ≡ []
take-nil zero = refl
take-nil (suc n) = refl

drop-nil : (n : ℕ) → drop {A = ℕ} n [] ≡ []
drop-nil zero = refl
drop-nil (suc n) = refl

get-nil :
    (b : CircularBuffer)
    → IsValid b
    → contents b ≡ []
    → ((get b).0 ≡ minus_one) × (contents (get b).1 ≡ [])
unfolding Fifo.get
get-nil b v e = ground (arith, get_refines v, e)

get-cons :
    (b : CircularBuffer) (x : ℕ) (q : List ℕ)
    → IsValid b
    → contents b ≡ x ∷ q
    → ((get b).0 ≡ pos x) × (contents (get b).1 ≡ q)
unfolding Fifo.get
get-cons b x q v e = ground (arith, get_refines v, e)

read_from :
    (n : ℕ) (b : CircularBuffer) (q : List ℕ)
    → IsValid b
    → contents b ≡ q
    → DidRead n b (read_loop n b)
unfolding read_loop
read_from zero b q v e = record { bytes = refl; left = refl; valid = v; size = refl }
read_from (suc n) b [] v e =
    let (r, empty) = get-nil b v e in
    rw (r, read_loop)
      (record { bytes = rw e refl; left = rw e empty; valid = get-IsValid v; size = size-get b })
read_from (suc n) b (x ∷ q) v e =
    let (r, rest) = get-cons b x q v e in
    let ih = read_from n (get b).1 q (get-IsValid v) rest in
    rw (r, read_loop)
      (record {
        bytes = rw e (ap (◌∷◌ x) (rw (← rest) ih.bytes));
        left = rw e (rw (← rest) ih.left);
        valid = ih.valid;
        size = ih.size ∙ size-get b;
      })

-- `pipe_read` of `n` bytes gives the `n` oldest, or all if there are fewer, in the order in which
-- they were put; the rest stay, and the buffer stays valid.
read_loop_lem : (n : ℕ) {b : CircularBuffer} → IsValid b → DidRead n b (read_loop n b)
read_loop_lem n {b} v = read_from n b (contents b) v refl

-- The room of a buffer: one cell is never used.
abbrev pub room : CircularBuffer → ℕ
room b = b.size - 1 - length (contents b)

pub record DidWrite (xs : List ℕ) (b : CircularBuffer) (r : ℕ × CircularBuffer) : Type 0 where
  pub count : r.0 ≡ min (length xs) (room b)
  pub bytes : contents r.1 ≡ contents b ++ take (room b) xs
  pub valid : IsValid r.1
  pub size : r.1.size ≡ b.size

put-room :
    {b : CircularBuffer} (x : ℕ)
    → IsValid b
    → is_full b ≡ false
    → (contents (put b x).1 ≡ contents b ++ x ∷ []) × (room b ≡ suc (room (put b x).1))
unfolding Fifo.put
put-room {b} x v e =
    ground
      (arith, put_refines x v, is_full_lem v, size-put b x, length-append (contents b) (x ∷ []))

-- `pipe_write` takes as many bytes as there is room for, puts those behind the bytes held, in
-- order, says how many, and the buffer stays valid.
pub write_loop_lem :
    (xs : List ℕ) {b : CircularBuffer} → IsValid b → DidWrite xs b (write_loop xs b)
unfolding write_loop
write_loop_lem [] {b} v = record {
  count = omega arith;
  bytes = rw (take-nil, append-nil);
  valid = v;
  size = refl;
}
write_loop_lem (x ∷ xs) {b} v = elim (Bool-cases (is_full b)) [
  | inl full ↦
      let none_left : room b ≡ 0 = ground (arith, is_full_lem v) in
      rw (full, write_loop)
        (record {
          count = rw none_left (omega arith);
          bytes = rw (none_left, append-nil);
          valid = v;
          size = refl;
        })
  | inr free ↦
      let (added, fewer) = put-room x v free in
      let ih = write_loop_lem xs (put-IsValid x v) in
      rw (free, write_loop)
        (record {
          count = omega (arith, ih.count, fewer);
          bytes =
              ih.bytes
              ∙ ap (λ c. c ++ take (room (put b x).1) xs) added
              ∙ append_assoc (contents b) (x ∷ []) (take (room (put b x).1) xs)
              ∙ ap (λ k. contents b ++ take k (x ∷ xs)) (sym fewer);
          valid = ih.valid;
          size = ih.size ∙ size-put b x;
        })
]

contents-lt : (b : CircularBuffer) → IsValid b → length (contents b) < b.size
contents-lt b v = ground (arith, length-contents b)

-- What is written into a pipe comes out of it: of a write and a read of enough bytes after it, the
-- read gives the bytes that were in the pipe, and behind them the bytes that the write took.
pub read-write :
    (xs : List ℕ) (n : ℕ) {b : CircularBuffer}
    → IsValid b
    → b.size ≤ suc n
    → (read_loop n (write_loop xs b).1).0 ≡ contents b ++ take (write_loop xs b).0 xs
read-write xs n {b} v h =
    let w = write_loop_lem xs v in
    let r = read_loop_lem n w.valid in
    r.bytes
    ∙ take_all n (contents (write_loop xs b).1)
        (omega (arith, contents-lt (write_loop xs b).1 w.valid, w.size))
    ∙ w.bytes
    ∙ ap (◌++◌ (contents b)) (sym (take_least (room b) xs) ∙ ap (λ k. take k xs) (sym w.count))
