-- ===== src/File/Device.antt =====
-- src/device.c and include/device.h: the table of device drivers, and the calls through it.
use zosys.Common.{
  ℕ, zero, suc, ◌+◌, ◌-◌, Option, none, some, List, [], get_or, set, if◌then◌else◌, leb,
}
use zosys.Common.Int.{ℤ, pos, negsuc, minus_one}
use zosys.Common.Run.{ok, fault}
use zosys.File.{Env, FileOps}
use zosys.File.Monad.{M, pure, ◌>>=◌}

abbrev pub device_major_num : ℕ
device_major_num = 8

-- The loop for a free major number, from `major` with `left` to go.
unfoldable pub find_major : List (Option ℕ) → (left major : ℕ) → Option ℕ
find_major drivers zero major = none
find_major drivers (suc left) major =
    let rest = find_major drivers left (major + 1) in
    elim (get_or drivers (major - 1) none) [ none ↦ some major | some _ ↦ rest ]

unfoldable pub register_driver : ℤ → ℕ → List (Option ℕ) → ℤ × List (Option ℕ)
unfolding find_major
register_driver (pos zero) drv drivers = elim (find_major drivers device_major_num 1) [
  | some major ↦ (pos major, set drivers (major - 1) (some drv))
  | none ↦ (minus_one, drivers)
]
register_driver (pos (suc n)) drv drivers =
    if leb (suc n) device_major_num
    then elim (get_or drivers n none) [
      | some _ ↦ (minus_one, drivers)
      | none ↦ (pos 0, set drivers n (some drv))
    ]
    else (minus_one, drivers)
register_driver (negsuc n) drv drivers = (minus_one, drivers)

module _ {D : Type 0} (env : Env D) where
  -- `device_drivers[major - 1]`, a fault outside the table.
  abbrev pub driver_of : ℕ → M D (Option (FileOps D))
  driver_of zero k = fault
  driver_of (suc n) k =
      if leb (suc n) device_major_num
      then elim (get_or k.drivers n none) [
        | none ↦ ok (none, k)
        | some d ↦ ok (some (env.driver d), k)
      ]
      else fault

  -- A call through a function pointer changes the devices' state alone.
  abbrev pub on_dev : (D → ℤ × D) → M D ℤ
  on_dev f k = ok ((f k.dev).0, record k { dev = (f k.dev).1 })

  abbrev pub on_dev_read : (D → ℤ × List ℕ × D) → M D (ℤ × List ℕ)
  on_dev_read f k = ok (((f k.dev).0, (f k.dev).1), record k { dev = (f k.dev).2 })

  abbrev call_or : ℤ → Option (D → ℤ × D) → M D ℤ
  call_or r none = pure r
  call_or r (some f) = on_dev f

  abbrev bind_op : {A : Type 0} → Option A → (A → D → ℤ × D) → Option (D → ℤ × D)
  bind_op none f = none
  bind_op (some a) f = some (f a)

  unfoldable pub device_open : ℕ → ℕ → ℕ → M D ℤ
  device_open major p flags = driver_of major >>= λ d. elim d [
    | none ↦ pure minus_one
    | some ops ↦ call_or (pos 0) (bind_op ops.open_op (λ f. f p flags))
  ]

  unfoldable pub device_close : ℕ → ℕ → M D ℤ
  device_close major p = driver_of major >>= λ d. elim d [
    | none ↦ pure minus_one
    | some ops ↦ call_or (pos 0) (bind_op ops.close_op (λ f. f p))
  ]

  unfoldable pub device_read : ℕ → ℕ → ℕ → ℕ → M D (ℤ × List ℕ)
  device_read major p count at = driver_of major >>= λ d. elim d [
    | none ↦ pure (minus_one, [])
    | some ops ↦ elim ops.read_op [
      | none ↦ pure (minus_one, [])
      | some f ↦ on_dev_read (f p count at)
    ]
  ]

  unfoldable pub device_write : ℕ → ℕ → List ℕ → ℕ → M D ℤ
  device_write major p buf at = driver_of major >>= λ d. elim d [
    | none ↦ pure minus_one
    | some ops ↦ call_or minus_one (bind_op ops.write_op (λ f. f p buf at))
  ]

  unfoldable pub device_ioctl : ℕ → ℕ → ℤ → ℕ → M D ℤ
  device_ioctl major p request argp = driver_of major >>= λ d. elim d [
    | none ↦ pure minus_one
    | some ops ↦ call_or minus_one (bind_op ops.ioctl_op (λ f. f p request argp))
  ]
