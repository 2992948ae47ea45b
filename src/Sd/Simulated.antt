-- ===== src/Sd/Simulated.antt =====
-- A card on the wire that follows the protocol of `Wire`, bytes and what it is in the middle of, and
-- runs of `sd_read` and `sd_write` on it.
use zosys.Common.{
  ℕ, zero, suc, ◌+◌, ◌*◌, ◌/◌, ◌%◌, ◌^◌, ◌<◌, ◌≡◌, refl, sym, ap, ◌∙◌, Bool, true, false, some,
  List, [], ◌∷◌, ◌++◌, arith, length, length-replicate, replicate, if◌then◌else◌, ◌==◌, get_or, inl,
  inr, Bool-cases,
}
use mathlib.Core.Path.{fun_ext, subst}
use zosys.Common.Bits.{holds_from, at_of_holds}
use zosys.Common.Bytes.{bytes, AreBytes, bytes-AreBytes, append-AreBytes}
use zosys.Common.Int.{pos}
use zosys.Spi.{Csio, reverse, spi_in_byte}
use zosys.Sd.Answers.{Answers}
use zosys.Sd.Card.{over}
use zosys.Sd.Transfer.{sd_read, sd_write}
use zosys.Sd.Writes.{over-append}
use zosys.Sd.Wire.{frame, sent, selected, released, Wire, sd_read_lem, sd_write_lem}

data Mode : Type 0 where
  off : Mode
  hears : List ℕ → Mode
  tells : List ℕ → Mode
  grants waits : (addr : ℕ) → Mode
  takes : (addr left : ℕ) → Mode

abbrev Sim : Type 0
Sim = (ℕ → ℕ) × Mode

abbrev begin : (code addr : ℕ) → (ℕ → ℕ) → Sim
unfolding bytes
begin code addr f =
    if code == 0x51
    then (f, tells (0 ∷ 0xfe ∷ (bytes f addr 512 ++ 0xff ∷ 0xff ∷ [])))
    else (f, grants addr)

-- The last byte heard comes first.
abbrev address : List ℕ → ℕ
address l = get_or l 3 0 * 2 ^ 24 + get_or l 2 0 * 2 ^ 16 + get_or l 1 0 * 2 ^ 8 + get_or l 0 0

abbrev on_send : ℕ → (ℕ → ℕ) → Mode → Sim
unfolding over
on_send x f off = (f, off)
on_send x f (hears []) = if x == 0xff then (f, hears []) else (f, hears (x ∷ []))
on_send x f (hears (y ∷ l)) =
    if length l == 4 then begin (get_or (y ∷ l) 4 0) (address (y ∷ l)) f else (f, hears (x ∷ y ∷ l))
on_send x f (tells l) = (f, tells l)
on_send x f (grants addr) = (f, grants addr)
on_send x f (waits addr) = (f, takes addr 512)
on_send x f (takes addr zero) = (f, takes addr zero)
on_send x f (takes addr (suc left)) = (over f addr (x ∷ []), takes (addr + 1) left)

abbrev on_receive : (ℕ → ℕ) → Mode → ℕ × Sim
on_receive f off = (0xff, (f, off))
on_receive f (hears l) = (0xff, (f, hears l))
on_receive f (tells []) = (0xff, (f, tells []))
on_receive f (tells (b ∷ l)) = (b, (f, tells l))
on_receive f (grants addr) = (0, (f, waits addr))
on_receive f (waits addr) = (0xff, (f, waits addr))
on_receive f (takes addr zero) = (0xe5, (f, tells (0x00 ∷ 0xff ∷ [])))
on_receive f (takes addr (suc left)) = (0xff, (f, takes addr (suc left)))

abbrev sim : Csio Sim
unfolding reverse
sim = record {
  send = λ b d. on_send (reverse b) d.0 d.1;
  receive = λ d. (reverse (on_receive d.0 d.1).0, (on_receive d.0 d.1).1);
  io_system = λ b d. (d.0, if b == 8 then hears [] else off);
}

same_byte : ℕ → Bool
unfolding reverse
same_byte b = reverse (reverse b) == b

reverse_table : holds_from same_byte 0 256 ≡ true
unfolding holds_from same_byte reverse
reverse_table = refl

reverse-reverse : (b : ℕ) → b < 256 → reverse (reverse b) ≡ b
unfolding same_byte
reverse-reverse b h =
    let e = at_of_holds same_byte 0 256 b reverse_table (omega arith) (omega arith) in
    ground (arith, e)

sent_step :
    (b : ℕ) (bs : List ℕ) (f : ℕ → ℕ) (m : Mode)
    → b < 256
    → sent sim 0 9 (b ∷ bs) (f, m) ≡ sent sim 0 9 bs (on_send b f m)
unfolding sim on_send
sent_step b bs f m h = ap (λ x. sent sim 0 9 bs (on_send x f m)) (reverse-reverse b h)

address_lem :
    (a : ℕ)
    → a < 2 ^ 32
    → a / 2 ^ 24 % 2 ^ 8 * 2 ^ 24
        + a / 2 ^ 16 % 2 ^ 8 * 2 ^ 16
        + a / 2 ^ 8 % 2 ^ 8 * 2 ^ 8
        + a / 2 ^ 0 % 2 ^ 8
      ≡ a
address_lem a h = omega arith

frame_lem :
    (code a : ℕ) (f : ℕ → ℕ)
    → code < 255
    → a < 2 ^ 32
    → sent sim 0 9 (frame code a) (f, hears []) ≡ begin code a f
unfolding begin on_send
frame_lem code a f hc ha =
    let x = a / 2 ^ 24 % 2 ^ 8 in
    let y = a / 2 ^ 16 % 2 ^ 8 in
    let z = a / 2 ^ 8 % 2 ^ 8 in
    let w = a / 2 ^ 0 % 2 ^ 8 in
    let other : (code == 0xff) ≡ false = ground arith in
    sent_step code (x ∷ y ∷ z ∷ w ∷ 1 ∷ []) f (hears []) (omega arith)
    ∙ ap
        (λ c.
          sent sim 0 9 (x ∷ y ∷ z ∷ w ∷ 1 ∷ [])
            (if c then (f, hears []) else (f, hears (code ∷ []))))
        other
    ∙ sent_step x (y ∷ z ∷ w ∷ 1 ∷ []) f (hears (code ∷ [])) (omega arith)
    ∙ sent_step y (z ∷ w ∷ 1 ∷ []) f (hears (x ∷ code ∷ [])) (omega arith)
    ∙ sent_step z (w ∷ 1 ∷ []) f (hears (y ∷ x ∷ code ∷ [])) (omega arith)
    ∙ sent_step w (1 ∷ []) f (hears (z ∷ y ∷ x ∷ code ∷ [])) (omega arith)
    ∙ sent_step 1 [] f (hears (w ∷ z ∷ y ∷ x ∷ code ∷ [])) (omega arith)
    ∙ ap (λ n. begin code n f) (address_lem a ha)

selected_lem : (f : ℕ → ℕ) → selected sim 0 9 (f, off) ≡ (f, hears [])
unfolding sim reverse on_send
selected_lem f = refl

tells_lem : (bs : List ℕ) (f : ℕ → ℕ) → AreBytes bs → Answers sim 0 9 (f, tells bs) bs (f, tells [])
unfolding spi_in_byte
tells_lem [] f h = refl
tells_lem (b ∷ bs) f (small, h) = (reverse-reverse b small, tells_lem bs f h)

takes_lem :
    (bs : List ℕ) (f : ℕ → ℕ) (a : ℕ)
    → AreBytes bs
    → (a' : ℕ) × (sent sim 0 9 bs (f, takes a (length bs)) ≡ (over f a bs, takes a' 0))
unfolding over
takes_lem [] f a h = (a, refl)
takes_lem (b ∷ bs) f a (small, h) =
    let (a', e) = takes_lem bs (over f a (b ∷ [])) (a + 1) h in
    (
      a',
      sent_step b bs f (takes a (suc (length bs))) small
          ∙ e
          ∙ ap (λ g. (g, takes a' 0)) (fun_ext (λ x. over-append f a 1 (b ∷ bs) x (omega arith))),
    )

record Holds (d : Sim) (f : ℕ → ℕ) : Type 0 where
  at_rest : d ≡ (f, off)
  small : (x : ℕ) → f x < 256

over-small :
    (f : ℕ → ℕ) (a : ℕ) (bs : List ℕ)
    → ((x : ℕ) → f x < 256)
    → AreBytes bs
    → (x : ℕ) → over f a bs x < 256
unfolding over
over-small f a [] h k x = h x
over-small f a (b ∷ bs) h (small, k) x = elim (Bool-cases (x == a)) [
  | inl here ↦ rw here small
  | inr other ↦ rw other (over-small f (a + 1) bs h k x)
]

released_lem : (f : ℕ → ℕ) (l : List ℕ) → released sim 0 9 (f, tells l) ≡ (f, off)
unfolding sim reverse on_send
released_lem f l = refl

begun :
    (code a : ℕ) (d : Sim) (f : ℕ → ℕ)
    → code < 255
    → a < 2 ^ 32
    → d ≡ (f, off)
    → sent sim 0 9 (frame code a) (selected sim 0 9 d) ≡ begin code a f
begun code a d f hc ha e =
    ap (λ x. sent sim 0 9 (frame code a) (selected sim 0 9 x)) e
    ∙ ap (sent sim 0 9 (frame code a)) (selected_lem f)
    ∙ frame_lem code a f hc ha

Answers-eq :
    (d d1 d' : Sim) (bs : List ℕ) → d ≡ d1 → Answers sim 0 9 d1 bs d' → Answers sim 0 9 d bs d'
Answers-eq d d1 d' bs e a = subst (λ x. Answers sim 0 9 x bs d') (sym e) a

read_answer :
    (f : ℕ → ℕ) (a : ℕ)
    → ((x : ℕ) → f x < 256)
    → Answers sim 0 9
        (begin 0x51 a f)
        (0 ∷ 0xfe ∷ (bytes f a 512 ++ 0xff ∷ 0xff ∷ []))
        (f, tells [])
unfolding begin
read_answer f a h = tells_lem (0 ∷ 0xfe ∷ (bytes f a 512 ++ 0xff ∷ 0xff ∷ [])) f (
  omega arith,
  (
    omega arith,
    append-AreBytes (bytes f a 512) (0xff ∷ 0xff ∷ []) (bytes-AreBytes f a 512 h)
        (omega arith, (omega arith, tt)),
  ),
)

grant : (f : ℕ → ℕ) (a : ℕ) → Answers sim 0 9 (begin 0x58 a f) (0 ∷ []) (f, waits a)
unfolding begin sim spi_in_byte reverse
grant f a = (refl, refl)

block_taken :
    (f : ℕ → ℕ) (a : ℕ) (bs : List ℕ)
    → length bs ≡ 512
    → AreBytes bs
    → Answers sim 0 9
        (sent sim 0 9 bs (sent sim 0 9 (0xfe ∷ []) (f, waits a)))
        (0xe5 ∷ 0x00 ∷ 0xff ∷ [])
        (over f a bs, tells [])
unfolding sim spi_in_byte reverse on_send
block_taken f a bs size h =
    let (a', e) = takes_lem bs f a h in
    Answers-eq _ (over f a bs, takes a' 0) (over f a bs, tells []) (0xe5 ∷ 0x00 ∷ 0xff ∷ [])
      (ap (λ n. sent sim 0 9 bs (f, takes a n)) (sym size) ∙ e) (refl, (refl, (refl, refl)))

wire : Wire sim 0 9 Holds
wire = record {
  are_bytes = λ d f h. h.small;
  answers_read = λ d f b hb h. (
    0,
    0,
    0xff,
    0xff,
    (f, tells []),
    omega arith,
    omega arith,
    Answers-eq _ _ (f, tells []) (0 ∷ 0xfe ∷ (bytes f (b * 512) 512 ++ 0xff ∷ 0xff ∷ []))
        (begun 0x51 (b * 512) d f (omega arith) hb h.at_rest) (read_answer f (b * 512) h.small),
    record { at_rest = released_lem f []; small = h.small },
  );
  answers_write = λ d f b bs hb size by h. (
    0,
    0,
    1,
    0xe5,
    0xff,
    (f, waits (b * 512)),
    (over f (b * 512) bs, tells []),
    omega arith,
    omega arith,
    omega arith,
    refl,
    omega arith,
    omega arith,
    Answers-eq _ _ (f, waits (b * 512)) (0 ∷ [])
        (begun 0x58 (b * 512) d f (omega arith) hb h.at_rest) (grant f (b * 512)),
    block_taken f (b * 512) bs size by,
    record {
      at_rest = released_lem (over f (b * 512) bs) [];
      small = over-small f (b * 512) bs h.small by;
    },
  );
}

abbrev stored : ℕ → ℕ
stored a = a % 256

at_start : Holds (stored, off) stored
at_start = record { at_rest = refl; small = λ x. omega arith }

-- The last two bytes of the first block, and the first of the second.
sd_read_lem_example :
    (d' : Sim) × (sd_read sim 0 9 0 510 (0 ∷ 0 ∷ 0 ∷ []) (replicate 512 0) (stored, off)
      ≡ some ((pos 3, bytes stored 510 3), d'))
    × Holds d' stored
sd_read_lem_example =
    sd_read_lem wire stored 510 (0 ∷ 0 ∷ 0 ∷ []) (replicate 512 0) (stored, off) (omega arith)
      (omega arith) (length-replicate {A = ℕ} 512 0) at_start

sd_write_lem_example :
    (d' : Sim) × (sd_write sim 0 9 0 510 (7 ∷ 8 ∷ 9 ∷ []) (replicate 512 0) (stored, off)
      ≡ some (pos 3, d'))
    × Holds d' (over stored 510 (7 ∷ 8 ∷ 9 ∷ []))
sd_write_lem_example =
    sd_write_lem wire stored 510 (7 ∷ 8 ∷ 9 ∷ []) (replicate 512 0) (stored, off) (omega arith)
      (omega arith) (length-replicate {A = ℕ} 512 0) (omega arith, (omega arith, (omega arith, tt)))
      at_start
