-- ===== src/Sync/Spinlock.antt =====
-- src/spinlock.c and include/spinlock.h: a byte that processes race for, one machine instruction at
-- a time. Between any two instructions another process may run.
use zosys.Common.{
  ltb, length-replicate, ℕ, zero, suc, ◌+◌, ◌%◌, ◌^◌, ◌≤◌, ◌<◌, ◌≡◌, refl, sym, ap, ◌∙◌, inl, inr,
  List, [], ◌∷◌, arith, Bool-cases, ◌==◌, if◌then◌else◌, replicate, get_or, set, length, length-set,
}

-- Where a process stands: outside, before the `inc`, the `ld a, (hl)`, the jump after `cp 0x01` with
-- what it read, or the `dec` of a failed attempt; or it holds the lock.
pub data Place : Type 0 where
  outside at_inc at_load : Place
  at_jump : (a : ℕ) → Place
  at_dec holding : Place

-- `locked`, and each process' place.
pub record Race : Type 0 where
  pub locked : ℕ
  pub places : List Place

abbrev inc : ℕ → ℕ
inc n = (n + 1) % 2 ^ 8

abbrev dec : ℕ → ℕ
dec n = (n + 255) % 2 ^ 8

-- One instruction of a process that wants the lock, at its place. A failed test starts again in
-- `spinlock_lock`, and returns false in `spinlock_trylock`: both are outside.
unfoldable pub advance : Place → ℕ → Place × ℕ
advance outside n = if n == 0 then (at_inc, n) else (outside, n)
advance at_inc n = (at_load, inc n)
advance at_load n = (at_jump n, n)
advance (at_jump a) n = if a == 1 then (holding, n) else (at_dec, n)
advance at_dec n = (outside, dec n)
-- `spinlock_unlock`
advance holding n = (outside, dec n)

unfoldable pub step : Race → ℕ → Race
unfolding advance
step r i =
    let moved = advance (get_or r.places i outside) r.locked in
    record { locked = moved.1; places = set r.places i moved.0 }

-- `spinlock_init`, with `n` processes that may come.
abbrev pub start : ℕ → Race
start n = record { locked = 0; places = replicate n outside }

-- The instructions of a run, by the process that each belongs to.
unfoldable pub run : List ℕ → Race → Race
run [] r = r
run (i ∷ is) r = run is (step r i)

abbrev sum : (Place → ℕ) → List Place → ℕ
sum g [] = 0
sum g (p ∷ ps) = g p + sum g ps

-- What a process has added to the byte and not yet taken off.
abbrev weight : Place → ℕ
weight outside = 0
weight at_inc = 0
weight at_load = 1
weight (at_jump a) = 1
weight at_dec = 1
weight holding = 1

-- Does a process hold the lock, or is it about to?
abbrev owns : Place → ℕ
owns outside = 0
owns at_inc = 0
owns at_load = 0
owns (at_jump a) = if a == 1 then 1 else 0
owns at_dec = 0
owns holding = 1

abbrev holds : Place → ℕ
holds outside = 0
holds at_inc = 0
holds at_load = 0
holds (at_jump a) = 0
holds at_dec = 0
holds holding = 1

abbrev pub holders : Race → ℕ
holders r = sum holds r.places

sum-set :
    (g : Place → ℕ) (ps : List Place) (i : ℕ) (p : Place)
    → i < length ps
    → sum g (set ps i p) + g (get_or ps i outside) ≡ sum g ps + g p
sum-set g [] i p h = absurd (omega arith)
sum-set g (q ∷ ps) zero p h = omega arith
sum-set g (q ∷ ps) (suc i) p h = omega (arith, sum-set g ps i p (omega arith))

set_beyond : (ps : List Place) (i : ℕ) (p : Place) → length ps ≤ i → set ps i p ≡ ps
set_beyond [] i p h = refl
set_beyond (q ∷ ps) zero p h = absurd (omega arith)
set_beyond (q ∷ ps) (suc i) p h = ap (◌∷◌ q) (set_beyond ps i p (omega arith))

get_or_beyond : (ps : List Place) (i : ℕ) → length ps ≤ i → get_or ps i outside ≡ outside
get_or_beyond [] i h = refl
get_or_beyond (q ∷ ps) zero h = absurd (omega arith)
get_or_beyond (q ∷ ps) (suc i) h = get_or_beyond ps i (omega arith)

sum_le : (g h : Place → ℕ) (ps : List Place) → ((p : Place) → g p ≤ h p) → sum g ps ≤ sum h ps
sum_le g h [] le = omega arith
sum_le g h (p ∷ ps) le = omega (arith, le p, sum_le g h ps le)

weight_le : (ps : List Place) → sum weight ps ≤ length ps
weight_le [] = omega arith
weight_le (p ∷ ps) = omega (arith, one p, weight_le ps)
  where
    one : (p : Place) → weight p ≤ 1
    one outside = omega arith
    one at_inc = omega arith
    one at_load = omega arith
    one (at_jump a) = omega arith
    one at_dec = omega arith
    one holding = omega arith

owns_le_weight : (p : Place) → owns p ≤ weight p
owns_le_weight outside = omega arith
owns_le_weight at_inc = omega arith
owns_le_weight at_load = omega arith
owns_le_weight (at_jump a) = ground arith
owns_le_weight at_dec = omega arith
owns_le_weight holding = omega arith

holds_le_owns : (p : Place) → holds p ≤ owns p
holds_le_owns outside = omega arith
holds_le_owns at_inc = omega arith
holds_le_owns at_load = omega arith
holds_le_owns (at_jump a) = omega arith
holds_le_owns at_dec = omega arith
holds_le_owns holding = omega arith

-- The byte counts what the processes have added, and one of them at most is past the test.
record Fair (r : Race) : Type 0 where
  few : length r.places < 255
  counted : r.locked ≡ sum weight r.places
  alone : sum owns r.places ≤ 1

-- One process' move, in sums over the others.
move-Fair :
    (q : Place) (n w o : ℕ)
    → n ≡ w + weight q
    → w + 1 < 256
    → o ≤ w
    → o + owns q ≤ 1
    → let moved = advance q n in (moved.1 ≡ w + weight moved.0) × (o + owns moved.0 ≤ 1)
unfolding advance
move-Fair outside n w o e few le one = ground arith
move-Fair at_inc n w o e few le one = ground arith
move-Fair at_load n w o e few le one = ground arith
move-Fair (at_jump a) n w o e few le one = ground arith
move-Fair at_dec n w o e few le one = ground arith
move-Fair holding n w o e few le one = ground arith

outside_keeps : (n : ℕ) → (advance outside n).1 ≡ n
unfolding advance
outside_keeps n = ground arith

step-Fair : {r : Race} (i : ℕ) → Fair r → Fair (step r i)
unfolding step advance
step-Fair {r} i f = elim (Bool-cases (ltb i (length r.places))) [
  | inl there ↦
      let q = get_or r.places i outside in
      let moved = advance q r.locked in
      let rest = set r.places i outside in
      let inside : i < length r.places = ground arith in
      let w = sum-set weight r.places i outside inside in
      let o = sum-set owns r.places i outside inside in
      let (kept, one) =
        move-Fair q r.locked (sum weight rest) (sum owns rest) (omega (arith, f.counted, w))
          (omega (arith, weight_le rest, length-set r.places i outside, f.few))
          (sum_le owns weight rest owns_le_weight) (omega (arith, f.alone, o)) in
      record {
        few = omega (arith, length-set r.places i moved.0, f.few);
        counted = omega (arith, kept, w, sum-set weight r.places i moved.0 inside);
        alone = omega (arith, one, o, sum-set owns r.places i moved.0 inside);
      }
  | inr beyond ↦
      let far : length r.places ≤ i = ground arith in
      let same = set_beyond r.places i (advance outside r.locked).0 far in
      rw (get_or_beyond r.places i far) (record {
        few = omega (arith, ap length same, f.few);
        counted = outside_keeps r.locked ∙ f.counted ∙ ap (sum weight) (sym same);
        alone = omega (arith, ap (sum owns) same, f.alone);
      })
]

run-Fair : (is : List ℕ) {r : Race} → Fair r → Fair (run is r)
unfolding run
run-Fair [] f = f
run-Fair (i ∷ is) f = run-Fair is (step-Fair i f)

start-Fair : (n : ℕ) → n < 255 → Fair (start n)
start-Fair n h = record {
  few = omega (arith, length-replicate n outside);
  counted = sym (nothing weight refl n);
  alone = omega (arith, nothing owns refl n);
}
  where
    nothing : (g : Place → ℕ) → g outside ≡ 0 → (n : ℕ) → sum g (replicate n outside) ≡ 0
    nothing g e zero = refl
    nothing g e (suc n) = omega (arith, e, nothing g e n)

-- Mutual exclusion: whatever the order in which fewer than 255 processes run the instructions of
-- `spinlock_lock`, `spinlock_trylock` and, where they hold the lock, `spinlock_unlock`, one of them
-- at most holds the lock at any time.
pub spinlock_excludes : (n : ℕ) (is : List ℕ) → n < 255 → holders (run is (start n)) ≤ 1
spinlock_excludes n is h =
    let f = run-Fair is (start-Fair n h) in
    omega (arith, f.alone, sum_le holds owns (run is (start n)).places holds_le_owns)
