-- ===== src/Shell/Lines.antt =====
-- The line editor of sh/src/main.c against a line of bounded length.
use zosys.Common.{
  ℕ, ◌+◌, ◌-◌, ◌≤◌, ◌<◌, ◌≡◌, inl, inr, refl, sym, ap, ◌∙◌, arith, true, false, Bool-cases, Option,
  none, some, List, [], ◌∷◌, if◌then◌else◌, ltb, leb, ◌==◌, length, set, length-set,
  get_or-set_self,
}
use zosys.Shell.{
  LineState, Typed, line, waiting, accepted, ends_line, backspace, and_then, echo, erase_last,
  edit_char, end_string, type_char, read_line, get_command_line,
}
use zosys.Shell.Editor.{
  typed, edited, but_last, before, before-set, length-before, IsLine, but_last-before, before-next,
}

end_lem :
    (buflen : ℕ) (l : List ℕ) (s : LineState)
    → length s.buf ≡ buflen
    → s.index < buflen
    → before s.buf s.index ≡ l
    → (t : LineState) × (end_string buflen s ≡ some t) × IsLine buflen l t
unfolding end_string
end_lem buflen l s size inside chars =
    let short : leb buflen s.index ≡ false = ground arith in
    let fits : ltb s.index (length s.buf) ≡ true = ground arith in
    (
      record s { buf = set s.buf s.index 0 },
      rw (end_string, short, fits) refl,
      record {
        size = length-set s.buf s.index 0 ∙ size;
        inside = inside;
        chars = before-set s.buf s.index s.index 0 (omega arith) ∙ chars;
        nul = get_or-set_self s.buf s.index 0 0 (omega arith);
      },
    )

-- The last place of the buffer is for the NUL.
end_full :
    (buflen : ℕ) (l : List ℕ) (s : LineState)
    → length s.buf ≡ buflen
    → 1 ≤ buflen
    → s.index ≡ buflen
    → before s.buf (buflen - 1) ≡ l
    → (t : LineState) × (end_string buflen s ≡ some t) × IsLine buflen l t
unfolding end_string
end_full buflen l s size low full chars =
    let long : leb buflen s.index ≡ true = ground arith in
    let fits : ltb (buflen - 1) (length s.buf) ≡ true = ground arith in
    (
      record s { index = buflen - 1; buf = set s.buf (buflen - 1) 0 },
      rw (end_string, long, fits) refl,
      record {
        size = length-set s.buf (buflen - 1) 0 ∙ size;
        inside = omega arith;
        chars = before-set s.buf (buflen - 1) (buflen - 1) 0 (omega arith) ∙ chars;
        nul = get_or-set_self s.buf (buflen - 1) 0 0 (omega arith);
      },
    )

erase_lem :
    (buflen : ℕ) (l : List ℕ) (s : LineState)
    → IsLine buflen l s
    → (t : LineState) × (end_string buflen (erase_last s) ≡ some t) × IsLine buflen (but_last l) t
erase_lem buflen l s h = elim (Bool-cases (ltb 0 s.index)) [
  | inl more ↦
      rw (erase_last, more)
        (end_lem buflen (but_last l)
          (record s { index = s.index - 1; out = backspace ∷ b' ' ∷ backspace ∷ s.out }) h.size
          (omega arith) (sym (but_last-before s.buf s.index) ∙ ap but_last h.chars))
  | inr empty ↦
      let at_start : s.index ≡ s.index - 1 = ground arith in
      rw (erase_last, empty)
        (end_lem buflen (but_last l) s h.size h.inside
          (ap (before s.buf) at_start ∙ sym (but_last-before s.buf s.index) ∙ ap but_last h.chars))
]

add_lem :
    (buflen c : ℕ) (l : List ℕ) (s : LineState)
    → IsLine buflen l s
    → let s' = record s { buf = set s.buf s.index c; index = s.index + 1 } in
      (t : LineState) × (end_string buflen s' ≡ some t)
      × IsLine buflen (if ltb (length l) (buflen - 1) then c ∷ l else l) t
add_lem buflen c l s h =
    let s' = record s { buf = set s.buf s.index c; index = s.index + 1 } in
    let size = length-set s.buf s.index c ∙ h.size in
    let kept = before-set s.buf s.index s.index c (omega arith) ∙ h.chars in
    let n : length l ≡ s.index = sym (ap (λ k. length k) h.chars) ∙ length-before s.buf s.index in
    elim (Bool-cases (ltb (length l) (buflen - 1))) [
      | inl room ↦ rw room (
          end_lem buflen (c ∷ l) s' size (ground arith) (
            before-next s'.buf s.index
            ∙ rw (get_or-set_self s.buf s.index c 0 (omega arith), kept) refl))
      | inr full ↦
          let here : buflen - 1 ≡ s.index = ground arith in
          rw full
            (end_full buflen l s' size (omega arith) (omega arith) (ap (before s'.buf) here ∙ kept))
    ]

type_back :
    (buflen c : ℕ) (s : LineState)
    → (c == backspace) ≡ true
    → type_char buflen c s ≡ end_string buflen (erase_last s)
unfolding type_char edit_char
type_back buflen c s e = rw (type_char, edit_char, e) refl

echo_other :
    (c : ℕ) (s : LineState) → (c == backspace) ≡ false → echo c s ≡ record s { out = c ∷ s.out }
echo_other c s e = rw (echo, e) refl

type_other :
    (buflen c : ℕ) (s : LineState)
    → (c == backspace) ≡ false
    → s.index < length s.buf
    → type_char buflen c s
      ≡ end_string buflen
          (record s { buf = set s.buf s.index c; index = s.index + 1; out = c ∷ s.out })
unfolding type_char edit_char
type_other buflen c s e h =
    let fits : ltb s.index (length s.buf) ≡ true = ground arith in
    ap (λ s'. and_then (edit_char c s') (end_string buflen)) (echo_other c s e)
    ∙ rw (edit_char, e, fits) refl

echoed :
    (buflen c : ℕ) (l : List ℕ) (s : LineState)
    → IsLine buflen l s
    → IsLine buflen l (record s { out = c ∷ s.out })
echoed buflen c l s h = record { size = h.size; inside = h.inside; chars = h.chars; nul = h.nul }

echo-IsLine :
    (buflen c : ℕ) (l : List ℕ) (s : LineState) → IsLine buflen l s → IsLine buflen l (echo c s)
echo-IsLine buflen c l s h = elim (Bool-cases (c == backspace)) [
  | inl back ↦ rw (echo, back) h
  | inr other ↦ rw (echo_other c s other) (echoed buflen c l s h)
]

type_lem :
    (buflen c : ℕ) (l : List ℕ) (s : LineState)
    → IsLine buflen l s
    → (t : LineState) × (type_char buflen c s ≡ some t) × IsLine buflen (typed (buflen - 1) c l) t
unfolding typed
type_lem buflen c l s h = elim (Bool-cases (c == backspace)) [
  | inl back ↦
      let (t, e, h') = erase_lem buflen l s h in
      (t, type_back buflen c s back ∙ e, rw (typed, back) h')
  | inr other ↦
      let (t, e, h') = add_lem buflen c l (record s { out = c ∷ s.out }) (echoed buflen c l s h) in
      (t, type_other buflen c s other (omega (arith, h.size, h.inside)) ∙ e, rw (typed, other) h')
]

-- What the editor should do with this line so far.
abbrev pub Edits : ℕ → Option (List ℕ × List ℕ) → Typed → Type 0
Edits buflen none r = (l : List ℕ) × (t : LineState) × (r ≡ waiting t) × IsLine buflen l t
Edits buflen (some (l, rest)) r = (t : LineState) × (r ≡ line t rest) × IsLine buflen l t

read_lem :
    (buflen : ℕ) (input l : List ℕ) (s : LineState)
    → IsLine buflen l s
    → Edits buflen (edited (buflen - 1) input l) (read_line buflen input s)
unfolding read_line edited
read_lem buflen [] l s h = (l, s, refl, h)
read_lem buflen (c ∷ input) l s h = elim (Bool-cases (accepted c)) [
  | inr skipped ↦ rw (read_line, edited, skipped) (read_lem buflen input l s h)
  | inl good ↦ elim (Bool-cases (ends_line c)) [
    | inl end ↦ rw (read_line, edited, good, end) (echo c s, refl, echo-IsLine buflen c l s h)
    | inr more ↦
        let (t, e, h') = type_lem buflen c l s h in
        rw (read_line, edited, good, more, e) (read_lem buflen input (typed (buflen - 1) c l) t h')
  ]
]

-- `get_command_line` never writes outside its buffer, if that has a byte at least. On any input it
-- does as the editor of a line of at most `buflen - 1` characters, which drops what does not fit,
-- forgets the last character on a backspace and ends at the end of a line: it returns where that
-- ends, with that line and a NUL in the buffer and its length as the index, and else it waits.
pub get_command_line_lem :
    (buf input : List ℕ)
    → 1 ≤ length buf
    → Edits
        (length buf)
        (edited (length buf - 1) input [])
        (get_command_line buf (length buf) input)
unfolding get_command_line
get_command_line_lem buf input h =
    let s : LineState = record { index = 0; buf = set buf 0 0; out = [] } in
    let fits : ltb 0 (length buf) ≡ true = ground arith in
    rw (get_command_line, fits)
      (read_lem (length buf) input [] s (record {
        size = length-set buf 0 0;
        inside = omega arith;
        chars = refl;
        nul = get_or-set_self buf 0 0 0 (omega arith);
      }))
