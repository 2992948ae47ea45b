-- ===== src/File/Monad.antt =====
-- Kernel code as state passing, with panics and faults.
use zosys.Common.{ℕ, Option, none, some}
use zosys.Common.Run.{Run, ok, panic, fault}
use zosys.File.{Kernel, File, OpenFile, put_at}

abbrev pub M : Type 0 → Type 0 → Type 0
M D A = Kernel D → Run (A × Kernel D)

module _ {D : Type 0} where
  abbrev pub pure : {A : Type 0} → A → M D A
  pure a k = ok (a, k)

  abbrev pub and_then : {A B : Type 0} → Run (A × Kernel D) → (A → M D B) → Run (B × Kernel D)
  and_then (ok (a, k)) f = f a k
  and_then panic f = panic
  and_then fault f = fault

  infixl 5 ◌>>=◌ ◌>>◌
  abbrev pub ◌>>=◌ : {A B : Type 0} → M D A → (A → M D B) → M D B
  ◌>>=◌ m f k = and_then (m k) f

  abbrev pub ◌>>◌ : {B : Type 0} → M D (Unit {0}) → M D B → M D B
  m >> n = m >>= λ _. n

  abbrev pub panics : {A : Type 0} → M D A
  panics k = panic

  abbrev pub faults : {A : Type 0} → M D A
  faults k = fault

  abbrev pub get_kernel : M D (Kernel D)
  get_kernel k = ok (k, k)

  abbrev pub the : {A : Type 0} → Option A → M D A
  the none k = fault
  the (some a) k = ok (a, k)

  -- `*p` for the two kinds of object; a dangling pointer is a fault.
  abbrev pub load_file : ℕ → M D File
  load_file p k = the (k.files p) k

  abbrev pub load_open : ℕ → M D OpenFile
  load_open p k = the (k.opens p) k

  abbrev pub store_file : ℕ → Option File → M D (Unit {0})
  store_file p f k = ok (tt, record k { files = put_at k.files p f })

  abbrev pub store_open : ℕ → Option OpenFile → M D (Unit {0})
  store_open p f k = ok (tt, record k { opens = put_at k.opens p f })
