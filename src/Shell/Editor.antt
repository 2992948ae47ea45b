-- ===== src/Shell/Editor.antt =====
-- What the line editor of sh/src/main.c should do: a line of bounded length, and the buffer that holds
-- it.
use zosys.Common.{
  ℕ, zero, suc, ◌+◌, ◌-◌, ◌≤◌, ◌<◌, ◌≡◌, refl, ap, arith, not, Option, none, some, List, [], ◌∷◌,
  if◌then◌else◌, ltb, ◌==◌, length, set, get_or, get_or-set_ne,
}
use zosys.Shell.{LineState, accepted, ends_line, backspace}

abbrev pub but_last : List ℕ → List ℕ
but_last [] = []
but_last (x ∷ l) = l

-- A line is its characters, the last one first. A character is added while there is room.
unfoldable pub typed : (cap c : ℕ) → List ℕ → List ℕ
typed cap c l = if c == backspace then but_last l else if ltb (length l) cap then c ∷ l else l

-- What should come of the input: the line and the rest of the input, if the line ends.
unfoldable pub edited : (cap : ℕ) → List ℕ → List ℕ → Option (List ℕ × List ℕ)
unfolding typed
edited cap [] l = none
edited cap (c ∷ input) l =
    if not (accepted c)
    then edited cap input l
    else if ends_line c
    then some (l, input)
    else edited cap input (typed cap c l)

-- The first `n` characters of the buffer, the last one first.
abbrev pub before : List ℕ → ℕ → List ℕ
before buf zero = []
before buf (suc n) = get_or buf n 0 ∷ before buf n

pub before-set : (buf : List ℕ) (n i c : ℕ) → n ≤ i → before (set buf i c) n ≡ before buf n
before-set buf zero i c h = refl
before-set buf (suc n) i c h =
    rw (get_or-set_ne buf i n c 0 (ground arith), before-set buf n i c (omega arith)) refl

pub length-before : (buf : List ℕ) (n : ℕ) → length (before buf n) ≡ n
length-before buf zero = refl
length-before buf (suc n) = ap suc (length-before buf n)

-- The buffer holds the line as a string.
pub record IsLine (buflen : ℕ) (l : List ℕ) (s : LineState) : Type 0 where
  pub size : length s.buf ≡ buflen
  pub inside : s.index < buflen
  pub chars : before s.buf s.index ≡ l
  pub nul : get_or s.buf s.index 0 ≡ 0

pub but_last-before : (buf : List ℕ) (n : ℕ) → but_last (before buf n) ≡ before buf (n - 1)
but_last-before buf zero = refl
but_last-before buf (suc n) = ap (before buf) back
  where
    back : n ≡ suc n - 1
    back = omega arith

pub before-next : (buf : List ℕ) (n : ℕ) → before buf (n + 1) ≡ get_or buf n 0 ∷ before buf n
before-next buf n = ap (before buf) next
  where
    next : n + 1 ≡ suc n
    next = omega arith
