-- ===== src/Process/Fork/Stack.antt =====
-- What `sys_fork_helper` of src/process.c leaves on the stack of the child.
use zosys.Common.{ℕ, ◌+◌, ◌-◌, ◌*◌, ◌^◌, ◌≤◌, ◌<◌, ◌≡◌, refl, ap, ◌∙◌, ◌⊎◌, inr, arith}
use zosys.Mem.Copy.{pa_from_pfn}
use zosys.Mem.Dma.{Memory}
use zosys.Process.Fork.{Frame, place, push, below, push_frame}

-- The word at a logical address of the memory of `cbr`.
abbrev pub word_at : Memory → (cbr a : ℕ) → ℕ
word_at m cbr a = m (place cbr a) + m (place cbr (a + 1)) * 2 ^ 8

-- The memory of `cbr` is not cut off by the end of physical memory.
abbrev pub Fits : ℕ → Type 0
Fits cbr = pa_from_pfn cbr + 2 ^ 16 ≤ 2 ^ 20

place_lem : (cbr a : ℕ) → Fits cbr → a < 2 ^ 16 → place cbr a ≡ pa_from_pfn cbr + a
place_lem cbr a fits h = omega arith

push_self :
    (m : Memory) (cbr sp x : ℕ) → Fits cbr → sp + 1 < 2 ^ 16 → word_at (push cbr sp x m) cbr sp ≡ x
push_self m cbr sp x fits h =
    rw (place_lem cbr sp fits (omega arith), place_lem cbr (sp + 1) fits h) (ground arith)

push_other :
    (m : Memory) (cbr sp x p : ℕ)
    → Fits cbr
    → sp + 1 < 2 ^ 16
    → (p < pa_from_pfn cbr + sp) ⊎ (pa_from_pfn cbr + sp + 2 ≤ p)
    → push cbr sp x m p ≡ m p
push_other m cbr sp x p fits h apart =
    rw (place_lem cbr sp fits (omega arith), place_lem cbr (sp + 1) fits h) (ground arith)

push_word :
    (m : Memory) (cbr sp x a : ℕ)
    → Fits cbr
    → sp + 1 < 2 ^ 16
    → a + 1 < 2 ^ 16
    → (a + 2 ≤ sp) ⊎ (sp + 2 ≤ a)
    → word_at (push cbr sp x m) cbr a ≡ word_at m cbr a
push_word m cbr sp x a fits h at apart =
    let e = place_lem cbr a fits (omega arith) in
    let f = place_lem cbr (a + 1) fits at in
    omega (
      arith,
      push_other m cbr sp x (place cbr a) fits h (ground (arith, e)),
      push_other m cbr sp x (place cbr (a + 1)) fits h (ground (arith, f)),
    )

pub below_lem : (sp n : ℕ) → n ≤ sp → sp < 2 ^ 16 → below sp n ≡ sp - n
below_lem sp n h small = omega arith

-- The child finds IY, IX, the place where it goes on and the address that the helper returns to.
pub record Framed (m' : Memory) (cbr sp : ℕ) (f : Frame) : Type 0 where
  pub iy : word_at m' cbr (sp - 6) ≡ f.iy
  pub ix : word_at m' cbr (sp - 4) ≡ f.ix
  pub reentry : word_at m' cbr (sp - 2) ≡ f.reentry
  pub back : word_at m' cbr sp ≡ f.back

module _ (m : Memory) (cbr sp : ℕ) (f : Frame) (fits : Fits cbr) (deep : 6 ≤ sp)
    (small : sp + 1 < 2 ^ 16) where
  abbrev one : Memory
  one = push cbr sp f.back m

  abbrev two : Memory
  two = push cbr (sp - 2) f.reentry one

  abbrev three : Memory
  three = push cbr (sp - 4) f.ix two

  abbrev four : Memory
  four = push cbr (sp - 6) f.iy three

  push_frame-four : push_frame cbr sp f m ≡ four
  unfolding push_frame
  push_frame-four =
      rw
        (
          below_lem sp 6 deep (omega arith),
          below_lem sp 4 (omega arith) (omega arith),
          below_lem sp 2 (omega arith) (omega arith),
        )
        refl

  four-Framed : Framed four cbr sp f
  four-Framed = record {
    iy = push_self three cbr (sp - 6) f.iy fits (omega arith);
    ix =
        push_word three cbr (sp - 6) f.iy (sp - 4) fits (omega arith) (omega arith)
          (inr (omega arith))
        ∙ push_self two cbr (sp - 4) f.ix fits (omega arith);
    reentry =
        push_word three cbr (sp - 6) f.iy (sp - 2) fits (omega arith) (omega arith)
          (inr (omega arith))
        ∙ push_word two cbr (sp - 4) f.ix (sp - 2) fits (omega arith) (omega arith)
            (inr (omega arith))
        ∙ push_self one cbr (sp - 2) f.reentry fits (omega arith);
    back =
        push_word three cbr (sp - 6) f.iy sp fits (omega arith) small (inr (omega arith))
        ∙ push_word two cbr (sp - 4) f.ix sp fits (omega arith) small (inr (omega arith))
        ∙ push_word one cbr (sp - 2) f.reentry sp fits (omega arith) small (inr (omega arith))
        ∙ push_self m cbr sp f.back fits small;
  }

  pub push_frame-Framed : Framed (push_frame cbr sp f m) cbr sp f
  push_frame-Framed = rw push_frame-four four-Framed

  -- No other place changes.
  pub push_frame-other :
      (p : ℕ)
      → (p < pa_from_pfn cbr + (sp - 6)) ⊎ (pa_from_pfn cbr + sp + 2 ≤ p)
      → push_frame cbr sp f m p ≡ m p
  push_frame-other p apart =
      ap (λ g. g p) push_frame-four
      ∙ push_other three cbr (sp - 6) f.iy p fits (omega arith) (ground arith)
      ∙ push_other two cbr (sp - 4) f.ix p fits (omega arith) (ground arith)
      ∙ push_other one cbr (sp - 2) f.reentry p fits (omega arith) (ground arith)
      ∙ push_other m cbr sp f.back p fits small (ground arith)
