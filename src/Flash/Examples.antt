-- ===== src/Flash/Examples.antt =====
-- Runs of the flash driver on a chip in memory: its bytes, and how far a command has come.
use zosys.Common.{
  ℕ, zero, suc, ◌+◌, ◌-◌, ◌*◌, ◌/◌, ◌<◌, ◌≤◌, ◌≡◌, ◌⊎◌, refl, ap, ◌∙◌, arith, none, some, [], ◌∷◌,
  if◌then◌else◌, ◌==◌, min, take,
}
use zosys.Common.Int.{pos, minus_one, int16}
use zosys.Common.Bytes.{bytes}
use zosys.Flash.{Bus, flash_write, flash_read, flash_ioctl, wait}
use zosys.Flash.Chip.{cleared, erased, byte_program, sector_erase, Chip}
use zosys.Flash.Writes.{flash_write_lem, wait_endless}
use zosys.Flash.RoundTrip.{erase_write_read}

abbrev Sim : Type 0
Sim = (ℕ → ℕ) × ℕ

-- The writes of a command count up; the phases are 1 and 2 of the first unlocking, 3 before a byte,
-- 4 to 6 for the erase.
abbrev on_write : (addr byte phase : ℕ) → (ℕ → ℕ) → Sim
unfolding cleared erased
on_write addr byte zero f = (f, 1)
on_write addr byte (suc zero) f = (f, 2)
on_write addr byte (suc (suc zero)) f = (f, if byte == 0xa0 then 3 else 4)
on_write addr byte (suc (suc (suc zero))) f = (cleared f addr (byte ∷ []), 0)
on_write addr byte (suc (suc (suc (suc zero)))) f = (f, 5)
on_write addr byte (suc (suc (suc (suc (suc zero))))) f = (f, 6)
on_write addr byte (suc (suc (suc (suc (suc (suc n)))))) f = (erased f (addr / 4096) 4096, 0)

abbrev sim : Bus Sim
unfolding on_write bytes
sim = record { read = λ a n d. (bytes d.0 a n, d); write = λ a b d. on_write a b d.1 d.0 }

abbrev Holds : Sim → (ℕ → ℕ) → Type 0
Holds d f = d ≡ (f, 0)

abbrev Works : Sim → (ℕ → ℕ) → ℕ → Type 0
Works d f n = (d ≡ (f, 0)) × (n ≡ 0)

sector_lem : (s : ℕ) → s * 4096 / 4096 ≡ s
sector_lem s = omega arith

chip : Chip sim 2 524288 Holds Works
unfolding sim on_write
chip = record {
  reads = λ d f a n some_bytes h e. (ap (λ g. bytes g.0 a n) e, e);
  programs = λ d f a b h e. (0, omega arith, (ap (byte_program sim a b) e, refl));
  erases = λ d f s h e. (
    0,
    omega arith,
    (ap (sector_erase sim (s * 4096)) e ∙ ap (λ t. (erased f t 4096, 0)) (sector_lem s), refl),
  );
  toggles = λ d f n w. absurd (ground (arith, w.1));
  done = λ d f w. w.0;
}

abbrev old : ℕ → ℕ
old a = 0

flash_write_lem_example :
    ((d' : Sim) × (524286 < 524288)
      × (let n = min 3 (524288 - 524286) in
          (flash_write sim 2 0 (7 ∷ 8 ∷ 9 ∷ []) 524286 (old, 0) ≡ some (int16 n, d'))
          × Holds d' (cleared old 524286 (take n (7 ∷ 8 ∷ 9 ∷ [])))))
    ⊎ ((524288 ≤ 524286)
        × (flash_write sim 2 0 (7 ∷ 8 ∷ 9 ∷ []) 524286 (old, 0) ≡ some (minus_one, (old, 0))))
flash_write_lem_example =
    flash_write_lem chip old (7 ∷ 8 ∷ 9 ∷ []) 524286 (old, 0) (omega arith) (omega arith) refl refl

erase_write_read_example :
    (d1 d2 d3 : Sim) × (flash_ioctl sim 2 0 0 1 (old, 0) ≡ some (pos 0, d1))
    × (flash_write sim 2 0 (7 ∷ 8 ∷ []) (1 * 4096 + 10) d1 ≡ some (pos 2, d2))
    × (flash_read sim 2 0 2 (1 * 4096 + 10) d2 ≡ ((pos 2, 7 ∷ 8 ∷ []), d3))
erase_write_read_example =
    erase_write_read chip old 1 10 (7 ∷ 8 ∷ []) (old, 0) (omega arith) (omega arith) (omega arith)
      (omega arith) (omega arith, (omega arith, tt)) refl refl

-- The first byte is a jump, and bit 6 of the second is clear.
abbrev jump : ℕ → ℕ
jump a = if a == 0 then 0xc3 else 0x00

wait_endless_example : wait sim 2 1000 (jump, 0) ≡ none
wait_endless_example = wait_endless chip 1000 jump (jump, 0) (λ e. ground (arith, e)) refl
