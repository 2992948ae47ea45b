-- ===== src/Common/ListModel.antt =====
-- An instance of the list interface: a list of the elements themselves.
use mathlib.Core.Path.{◌≡◌, refl}
use mathlib.Core.Option.{Option, none, some}
use mathlib.Core.List.{List, [], ◌∷◌, ◌++◌}
use Prim.Native.Nat.{ℕ}
use native.Mathlib.Omega.{arith}
use zosys.Common.ProcList.{ProcList, without, is_empty}

abbrev pub pop : List ℕ → Option ℕ × List ℕ
pop [] = (none, [])
pop (x ∷ xs) = (some x, xs)

pub pop-nil : (l : List ℕ) → l ≡ [] → (pop l).0 ≡ none
pop-nil l e = ground arith

pub pop-cons :
    (l : List ℕ) (x : ℕ) (xs : List ℕ) → l ≡ x ∷ xs → ((pop l).0 ≡ some x) × ((pop l).1 ≡ xs)
pop-cons l x xs e = ground arith

abbrev pub list_model : ProcList
list_model = record {
  T = List ℕ;
  to_list = λ l. l;
  init = [];
  push_back = λ l x. l ++ x ∷ [];
  pop_front = pop;
  remove = λ l x. without x l;
  empty = is_empty;
  to_list-init = refl;
  to_list-push_back = λ l x h. refl;
  pop_front-nil = pop-nil;
  pop_front-cons = pop-cons;
  to_list-remove = λ l x h. refl;
  empty_lem = λ l. refl;
}
