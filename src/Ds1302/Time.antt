-- ===== src/Ds1302/Time.antt =====
-- `ds1302_time_get` of src/ds1302.c reads back a time that the clock's registers hold in BCD.
use Prim.Native.Nat.{bit_and}
use zosys.Common.{
  ℕ, ◌+◌, ◌-◌, ◌*◌, ◌/◌, ◌%◌, ◌<◌, ◌≡◌, refl, ap, ◌∙◌, Bool, true, arith, ==_iff, ◌==◌,
  if◌then◌else◌,
}
use zosys.Common.Bits.{holds_from, at_of_holds}
use zosys.Common.Int.{ℤ, pos, sub_one}
use zosys.Ds1302.{
  Lines, Tm, field, ds1302_read_byte, ds1302_time_get, sec_of, hour_of, mday_of, mon_of, wday_of,
  year_of,
}

-- Two decimal digits in a byte.
abbrev pub bcd : ℕ → ℕ
bcd n = n / 10 * 16 + n % 10

table : (ℕ → ℕ) → ℕ → Bool
table f n = holds_from (λ x. f (bcd x) == x) 0 n

read_table : (f : ℕ → ℕ) (n x : ℕ) → table f n ≡ true → x < n → f (bcd x) ≡ x
unfolding table
read_table f n x all h =
    (==_iff (f (bcd x)) x).0
      (at_of_holds (λ y. f (bcd y) == y) 0 n x all (omega arith) (omega arith))

sec_table : table sec_of 60 ≡ true
unfolding table holds_from sec_of
sec_table = refl

hour_table : table hour_of 24 ≡ true
unfolding table holds_from hour_of
hour_table = refl

mday_table : table mday_of 32 ≡ true
unfolding table holds_from mday_of
mday_table = refl

mon_table : table mon_of 13 ≡ true
unfolding table holds_from mon_of
mon_table = refl

low_3_table : holds_from (λ x. bit_and x 0x07 == x) 0 8 ≡ true
unfolding holds_from
low_3_table = refl

wday_lem : (x : ℕ) → x < 8 → wday_of x ≡ sub_one (pos x)
unfolding wday_of
wday_lem x h =
    ap (λ n. sub_one (pos n))
      ((==_iff (bit_and x 0x07) x).0
        (at_of_holds (λ y. bit_and y 0x07 == y) 0 8 x low_3_table (omega arith) (omega arith)))

abbrev two_digits : ℕ → ℕ
two_digits r = year_of r - 100

year_table : table two_digits 100 ≡ true
unfolding table holds_from year_of
year_table = refl

year_lem : (x : ℕ) → x < 100 → year_of (bcd x) ≡ x + 100
unfolding year_of
year_lem x h = omega (arith, read_table two_digits 100 x year_table h)

-- A time of the clock: its month counts from 1, its day of the week too, its year is of this century.
pub record Clock : Type 0 where
  pub second : ℕ
  pub minute : ℕ
  pub hour : ℕ
  pub day : ℕ
  pub month : ℕ
  pub weekday : ℕ
  pub year : ℕ

pub record IsTime (c : Clock) : Type 0 where
  pub second : c.second < 60
  pub minute : c.minute < 60
  pub hour : c.hour < 24
  pub day : c.day < 32
  pub month : c.month < 13
  pub weekday : c.weekday < 8
  pub year : c.year < 100

-- What the clock register `k` holds, in 24-hour mode and with the clock running.
abbrev pub register : Clock → ℕ → ℕ
register c k =
    if k == 0
    then bcd c.second
    else if k == 1
    then bcd c.minute
    else if k == 2
    then bcd c.hour
    else if k == 3
    then bcd c.day
    else if k == 4
    then bcd c.month
    else if k == 5
    then c.weekday
    else bcd c.year

module _ {D : Type 0} (lines : Lines D) where
  field_lem :
      (address : ℕ) (store : ℕ → Tm → Tm) (rest : Tm → D → ℤ × Tm × D) (t : Tm) (d : D) (r : ℕ)
      → (ds1302_read_byte lines address d).0 ≡ pos r
      → field lines address store rest t d ≡ rest (store r t) (ds1302_read_byte lines address d).1
  unfolding field
  field_lem address store rest t d r e = rw (e, field) refl

  -- If a read of each clock register gives what the register holds, time_get succeeds; its month
  -- counts from 1, and its day of the week is one less than the clock's.
  pub time_get_lem :
      (ready : D → Bool) (c : Clock)
      → ((k : ℕ) (d : D)
          → k < 7
          → ready d ≡ true
          → let (r, d') = ds1302_read_byte lines (0x81 + k * 2) d in
            (r ≡ pos (register c k)) × (ready d' ≡ true))
      → IsTime c
      → (t : Tm) (d : D) → ready d ≡ true
      → (d' : D) × (ds1302_time_get lines t d ≡ (
        pos 0,
        record {
          tm_sec = c.second;
          tm_min = c.minute;
          tm_hour = c.hour;
          tm_mday = c.day;
          tm_mon = c.month;
          tm_wday = sub_one (pos c.weekday);
          tm_year = c.year + 100;
        },
        d',
      ))
  unfolding ds1302_time_get
  time_get_lem ready c reads valid t d h =
      let at = λ (k : ℕ) (d : D). (ds1302_read_byte lines (0x81 + k * 2) d).1 in
      let (e0, h1) = reads 0 d (omega arith) h in
      let (e1, h2) = reads 1 (at 0 d) (omega arith) h1 in
      let (e2, h3) = reads 2 (at 1 (at 0 d)) (omega arith) h2 in
      let (e3, h4) = reads 3 (at 2 (at 1 (at 0 d))) (omega arith) h3 in
      let (e4, h5) = reads 4 (at 3 (at 2 (at 1 (at 0 d)))) (omega arith) h4 in
      let (e5, h6) = reads 5 (at 4 (at 3 (at 2 (at 1 (at 0 d))))) (omega arith) h5 in
      let (e6, h7) = reads 6 (at 5 (at 4 (at 3 (at 2 (at 1 (at 0 d)))))) (omega arith) h6 in
      let last = at 6 (at 5 (at 4 (at 3 (at 2 (at 1 (at 0 d)))))) in
      (
        last,
        field_lem 0x81 _ _ t d (bcd c.second) e0
            ∙ field_lem 0x83 _ _ _ (at 0 d) (bcd c.minute) e1
            ∙ field_lem 0x85 _ _ _ (at 1 (at 0 d)) (bcd c.hour) e2
            ∙ field_lem 0x87 _ _ _ (at 2 (at 1 (at 0 d))) (bcd c.day) e3
            ∙ field_lem 0x89 _ _ _ (at 3 (at 2 (at 1 (at 0 d)))) (bcd c.month) e4
            ∙ field_lem 0x8B _ _ _ (at 4 (at 3 (at 2 (at 1 (at 0 d))))) c.weekday e5
            ∙ field_lem 0x8D _ _ _ (at 5 (at 4 (at 3 (at 2 (at 1 (at 0 d)))))) (bcd c.year) e6
            ∙ (λ i. (
              pos 0,
              record {
                tm_sec = read_table sec_of 60 c.second sec_table valid.second i;
                tm_min = read_table sec_of 60 c.minute sec_table valid.minute i;
                tm_hour = read_table hour_of 24 c.hour hour_table valid.hour i;
                tm_mday = read_table mday_of 32 c.day mday_table valid.day i;
                tm_mon = read_table mon_of 13 c.month mon_table valid.month i;
                tm_wday = wday_lem c.weekday valid.weekday i;
                tm_year = year_lem c.year valid.year i;
              },
              last,
            )),
      )
