-- ===== src/Common/ProcList.antt =====
-- z88dk's `p_list_t`, an intrusive list, as an interface: `to_list` reads it from front to back,
-- and the laws are the documented effect of each call. An element may be pushed only onto a list
-- that it is not in.
use mathlib.Core.Path.{◌≡◌}
use mathlib.Core.Bool.{Bool, true, false, ◌||◌}
use mathlib.Core.Option.{Option, none, some}
use mathlib.Core.List.{List, [], ◌∷◌, ◌++◌}
use Prim.Native.Nat.{ℕ}
use zosys.Common.Tests.{◌==◌, if◌then◌else◌}

abbrev pub has : ℕ → List ℕ → Bool
has x [] = false
has x (y ∷ ys) = (x == y) || has x ys

abbrev pub without : ℕ → List ℕ → List ℕ
without x [] = []
without x (y ∷ ys) = if x == y then ys else y ∷ without x ys

abbrev pub is_empty : List ℕ → Bool
is_empty [] = true
is_empty (x ∷ xs) = false

pub record ProcList : Type 1 where
  pub T : Type 0
  pub to_list : T → List ℕ
  pub init : T
  pub push_back : T → ℕ → T
  pub pop_front : T → Option ℕ × T
  pub remove : T → ℕ → T
  pub empty : T → Bool
  pub to_list-init : to_list init ≡ []
  pub to_list-push_back :
      (l : T) (x : ℕ) → has x (to_list l) ≡ false → to_list (push_back l x) ≡ to_list l ++ x ∷ []
  pub pop_front-nil : (l : T) → to_list l ≡ [] → (pop_front l).0 ≡ none
  pub pop_front-cons :
      (l : T) (x : ℕ) (xs : List ℕ)
      → to_list l ≡ x ∷ xs
      → ((pop_front l).0 ≡ some x) × (to_list (pop_front l).1 ≡ xs)
  pub to_list-remove :
      (l : T) (x : ℕ) → has x (to_list l) ≡ true → to_list (remove l x) ≡ without x (to_list l)
  pub empty_lem : (l : T) → empty l ≡ is_empty (to_list l)
