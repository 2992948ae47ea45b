-- ===== src/Process/Queue.antt =====
-- What the scheduler promises, over plain lists: first come, first served, but that the idle
-- process gives way to any other.
use zosys.Common.{
  ℕ, zero, suc, ◌<◌, ◌≡◌, ◌≢◌, refl, ◌⊎◌, inl, inr, Bool, true, false, ◌||◌, Option, none, some,
  List, [], ◌∷◌, ◌++◌, arith, Bool-cases, ◌==◌, if◌then◌else◌,
}
use mathlib.Core.Path.{subst}
use zosys.Common.ProcList.{has}

-- Who runs next, and who is ready then.
unfoldable pub pick : (ℕ → Bool) → List ℕ → Option (ℕ × List ℕ)
pick idle [] = none
pick idle (x ∷ []) = some (x, [])
pick idle (x ∷ y ∷ r) = if idle x then some (y, r ++ x ∷ []) else some (x, y ∷ r)

abbrev pub Distinct : List ℕ → Type 0
Distinct [] = Unit {0}
Distinct (x ∷ xs) = (has x xs ≡ false) × Distinct xs

pub has-append : (x : ℕ) (xs ys : List ℕ) → has x (xs ++ ys) ≡ (has x xs || has x ys)
has-append x [] ys = refl
has-append x (y ∷ xs) ys = ground (arith, has-append x xs ys)

pub Distinct-snoc : (xs : List ℕ) (x : ℕ) → Distinct xs → has x xs ≡ false → Distinct (xs ++ x ∷ [])
Distinct-snoc [] x d h = (refl, tt)
Distinct-snoc (y ∷ xs) x d h =
    (ground (arith, has-append y xs (x ∷ [])), Distinct-snoc xs x d.1 (ground arith))

pub ne_of_has : (p c : ℕ) (q : List ℕ) → has p q ≡ true → has c q ≡ false → p ≢ c
ne_of_has p c q h k e = ground (arith, subst (λ x. has x q ≡ true) e h)

-- One of the ready runs, and the others stay ready, each once.
pub pick-Distinct :
    (idle : ℕ → Bool) (xs : List ℕ) (c : ℕ) (q : List ℕ)
    → Distinct xs
    → pick idle xs ≡ some (c, q)
    → (has c q ≡ false) × Distinct q
unfolding pick
pick-Distinct idle [] c q d e = ground arith
pick-Distinct idle (x ∷ []) c q d e = ground arith
pick-Distinct idle (x ∷ y ∷ r) c q d e = ground (arith, Distinct-snoc r x, has-append y r (x ∷ []))

pub pick-has :
    (idle : ℕ → Bool) (xs : List ℕ) (c : ℕ) (q : List ℕ) (p : ℕ)
    → pick idle xs ≡ some (c, q)
    → has p xs ≡ ((p == c) || has p q)
unfolding pick
pick-has idle [] c q p e = ground arith
pick-has idle (x ∷ []) c q p e = ground arith
pick-has idle (x ∷ y ∷ r) c q p e = ground (arith, has-append p r (x ∷ []))

-- `p` has `n` others before it.
pub data At (p : ℕ) : ℕ → List ℕ → Type 0 where
  here : {xs : List ℕ} → At p zero (p ∷ xs)
  there : {n : ℕ} {x : ℕ} {xs : List ℕ} → At p n xs → At p (suc n) (x ∷ xs)

pub At-append : {p n : ℕ} {xs : List ℕ} (ys : List ℕ) → At p n xs → At p n (xs ++ ys)
At-append ys here = here
At-append ys (there a) = there (At-append ys a)

pick_head :
    (idle : ℕ → Bool) (x : ℕ) (xs : List ℕ) → idle x ≡ false → pick idle (x ∷ xs) ≡ some (x, xs)
unfolding pick
pick_head idle x [] h = refl
pick_head idle x (y ∷ r) h = rw h

-- A process that is ready, and is not the idle one, runs next or moves up.
pub pick-At :
    (idle : ℕ → Bool) {p n : ℕ} (xs : List ℕ) (c : ℕ) (q : List ℕ)
    → At p n xs
    → idle p ≡ false
    → pick idle xs ≡ some (c, q)
    → (c ≡ p) ⊎ ((k : ℕ) × (k < n) × At p k q)
unfolding pick
pick-At idle _ c q (here {xs}) h e = inl (ground (arith, pick_head idle _ xs h))
pick-At idle _ c q (there {x} (here {xs})) h e = elim (Bool-cases (idle x)) [
  | inl i ↦ inl (ground arith)
  | inr n ↦ inr (0, omega arith, subst (At _ 0) (ground arith) (here {xs = xs}))
]
pick-At idle _ c q (there {x} (there {n} {x = y} {xs} a)) h e = elim (Bool-cases (idle x)) [
  | inl i ↦ inr (n, omega arith, subst (At _ n) (ground arith) (At-append (x ∷ []) a))
  | inr k ↦ inr (suc n, omega arith, subst (At _ (suc n)) (ground arith) (there {x = y} a))
]

pub pick-snoc : (idle : ℕ → Bool) (xs : List ℕ) (x : ℕ) → pick idle (xs ++ x ∷ []) ≢ none
unfolding pick
pick-snoc idle [] x e = ground arith
pick-snoc idle (y ∷ []) x e = ground arith
pick-snoc idle (y ∷ z ∷ r) x e = ground arith
