-- ===== src/Asci/Sends.antt =====
-- Port 0 sends what it takes: every byte, once, in order, and it does not stop before the last.
use zosys.Common.{
  ℕ, ◌≡◌, ◌≢◌, inl, inr, refl, sym, ap, ◌∙◌, arith, Bool, true, false, ◌&&◌, Bool-cases, List, [],
  ◌∷◌, ◌++◌, append-nil, append_assoc, if◌then◌else◌,
}
use zosys.Common.Int.{pos, minus_one, is_neg}
use zosys.CircularBuffer.{put, get}
use zosys.CircularBuffer.Valid.{IsValid, put-IsValid, get-IsValid}
use zosys.CircularBuffer.Refine.{contents}
use zosys.CircularBuffer.Steps.{put-cases, get-cases}
use zosys.Asci.{Port, asci_0_putc, asci_0_getc, receive_0, send_0, int_asci0}
use zosys.Asci.Events.{Event, putc, getc, interrupt, step_0, run_0, taken, all_taken}

-- The bytes of the first list, which is in reverse, and then those of the second.
abbrev pub onto : List ℕ → List ℕ → List ℕ
onto [] ys = ys
onto (x ∷ xs) ys = onto xs (x ∷ ys)

onto-append : (xs ys zs : List ℕ) → onto xs (ys ++ zs) ≡ onto xs ys ++ zs
onto-append [] ys zs = refl
onto-append (x ∷ xs) ys zs = onto-append xs (x ∷ ys) zs

pub nil-ne-cons : (x : ℕ) (q : List ℕ) → [] ≢ (x ∷ q)
nil-ne-cons x q h = ground (arith, h)

-- What was sent and what waits, oldest first.
abbrev pub stream : Port → List ℕ
stream p = onto p.sent (contents p.tx)

-- The interrupt that sends is on while a byte waits.
pub record IsSound (p : Port) : Type 0 where
  pub valid : IsValid p.tx
  pub active : (x : ℕ) (q : List ℕ) → contents p.tx ≡ x ∷ q → p.tie ≡ true

-- What every event does.
pub record Sends (e : Event) (p : Port) : Type 0 where
  pub sound : IsSound (step_0 e p)
  pub order : stream (step_0 e p) ≡ stream p ++ taken e p

putc_full : (c : ℕ) (p : Port) → (put p.tx c).0 ≡ minus_one → asci_0_putc c p ≡ (minus_one, p)
unfolding asci_0_putc
putc_full c p e = rw e refl

putc_room :
    (c : ℕ) (p : Port)
    → (put p.tx c).0 ≡ pos c
    → asci_0_putc c p ≡ (pos c, record p { tx = (put p.tx c).1; tie = true })
unfolding asci_0_putc
putc_room c p e = rw e refl

putc_lem : (c : ℕ) (p : Port) → IsSound p → Sends (putc c) p
unfolding step_0 taken
putc_lem c p s = elim (put-cases p.tx c s.valid) [
  | inl (full, same) ↦
      let e = putc_full c p full in
      record {
        sound = rw (step_0, e) s;
        order = rw (step_0, taken, e) (sym (append-nil (stream p)));
      }
  | inr (ok, more) ↦
      let e = putc_room c p ok in
      record {
        sound = rw (step_0, e) (record { valid = put-IsValid c s.valid; active = λ x q h. refl });
        order =
            rw (step_0, taken, e)
              (ap (onto p.sent) more ∙ onto-append p.sent (contents p.tx) (c ∷ []));
      }
]

send_lem : (p : Port) → IsSound p → IsSound (send_0 p) × (stream (send_0 p) ≡ stream p)
unfolding send_0
send_lem p s = elim (get-cases p.tx s.valid) [
  | inl (none, empty, still) ↦ (
    rw none (record {
      valid = get-IsValid s.valid;
      active = λ x q h. absurd (nil-ne-cons x q (sym still ∙ h));
    }),
    rw none (ap (onto p.sent) (still ∙ sym empty)),
  )
  | inr (x, q, all, first, rest) ↦ (
    rw first (record { valid = get-IsValid s.valid; active = λ y r h. s.active x q all }),
    rw first (ap (onto (x ∷ p.sent)) rest ∙ sym (ap (onto p.sent) all)),
  )
]

getc_lem : (p : Port) → IsSound p → Sends getc p
unfolding step_0 asci_0_getc taken
getc_lem p s = elim (Bool-cases (is_neg (get p.rx).0)) [
  | inl empty ↦ record {
    sound = rw (step_0, empty) s;
    order = rw (step_0, empty) (sym (append-nil (stream p)));
  }
  | inr some ↦ record {
    sound = rw (step_0, some) (record { valid = s.valid; active = s.active });
    order = rw (step_0, some) (sym (append-nil (stream p)));
  }
]

received_lem :
    (rdrf : Bool) (rdr : ℕ) (p : Port) → IsSound p → IsSound (if rdrf then receive_0 rdr p else p)
unfolding receive_0
received_lem true rdr p s = record { valid = s.valid; active = s.active }
received_lem false rdr p s = s

received_stream :
    (rdrf : Bool) (rdr : ℕ) (p : Port) → stream (if rdrf then receive_0 rdr p else p) ≡ stream p
unfolding receive_0
received_stream true rdr p = refl
received_stream false rdr p = refl

interrupt_lem :
    (rdrf tdre : Bool) (rdr : ℕ) (p : Port) → IsSound p → Sends (interrupt rdrf tdre rdr) p
unfolding step_0 int_asci0 taken
interrupt_lem rdrf tdre rdr p s =
    let p' = if rdrf then receive_0 rdr p else p in
    let s' = received_lem rdrf rdr p s in
    let same = received_stream rdrf rdr p ∙ sym (append-nil (stream p)) in
    elim (Bool-cases (tdre && p.tie)) [
      | inl ready ↦ record {
        sound = rw (step_0, int_asci0, ready) (send_lem p' s').0;
        order = rw (step_0, int_asci0, ready) ((send_lem p' s').1 ∙ same);
      }
      | inr wait ↦ record {
        sound = rw (step_0, int_asci0, wait) s';
        order = rw (step_0, int_asci0, wait) same;
      }
    ]

pub step_lem : (e : Event) (p : Port) → IsSound p → Sends e p
step_lem (putc c) p s = putc_lem c p s
step_lem getc p s = getc_lem p s
step_lem (interrupt rdrf tdre rdr) p s = interrupt_lem rdrf tdre rdr p s

-- From a sound state of port 0, a valid ring and the interrupt that sends on if a byte waits,
-- whatever calls and interrupts come, in any order: what the port has sent and what waits in its
-- ring are together the bytes that were there and those that `asci_0_putc` has taken since, in
-- that order, with none lost and none twice; and the state stays sound.
pub run_0_lem :
    (es : List Event) (p : Port)
    → IsSound p
    → (stream (run_0 es p) ≡ stream p ++ all_taken es p) × IsSound (run_0 es p)
unfolding run_0 all_taken
run_0_lem [] p s = (sym (append-nil (stream p)), s)
run_0_lem (e ∷ es) p s =
    let now = step_lem e p s in
    let (order, sound) = run_0_lem es (step_0 e p) now.sound in
    (
      order
          ∙ ap (λ l. l ++ all_taken es (step_0 e p)) now.order
          ∙ append_assoc (stream p) (taken e p) (all_taken es (step_0 e p)),
      sound,
    )
