-- ===== src/Rtc/Fields.antt =====
-- kernel/src/rtc.c: the fields of a date survive the clock's encodings.
use choco_os.Base.{
  fun_ext, zero, suc, ℕ, ◌+◌, ◌-◌, ◌*◌, ◌/◌, ◌%◌, ◌≤◌, ◌<◌, ◌≡◌, refl, ap, ◌∙◌, Bool, true, false,
  not, ◌||◌, ltb, ◌==◌, ==_iff, if◌then◌else◌, arith, bit_and, bit_or, holds_below, holds_below_at,
  some,
}
use choco_os.Rtc.{
  read_order, RtcTime, from_bcd, hour_from_bcd, full_hour, full_year, rtc_decode, wait_update,
  rtc_read,
}

-- Two decimal digits in a byte.
abbrev pub bcd : ℕ → ℕ
bcd v = v / 10 * 16 + v % 10

-- A two-digit number as the clock stores it, in binary or in BCD.
abbrev pub stored : Bool → ℕ → ℕ
stored binary v = if binary then v else bcd v

-- An hour: of 24, or of 12 with the PM flag.
abbrev pub stored_hour : (binary full : Bool) → ℕ → ℕ
stored_hour binary full h =
    if full
    then stored binary h
    else if ltb h 12
    then stored binary h
    else bit_or (stored binary (h - 12)) 0x80

abbrev pub status : (binary full : Bool) → ℕ
status binary full = (if binary then 4 else 0) + (if full then 2 else 0)

bcd_table : holds_below 100 (λ v. from_bcd (bcd v) == v) ≡ true
unfolding holds_below from_bcd
bcd_table = refl

from_bcd-bcd : (v : ℕ) → v < 100 → from_bcd (bcd v) ≡ v
from_bcd-bcd v h = (==_iff _ _).0 (holds_below_at 100 (λ v. from_bcd (bcd v) == v) v bcd_table h)

-- The hours that the code reads back: all of 24 in one encoding, and in the other all but midnight and
-- noon, which a clock of 12 hours shows as 12.
abbrev pub IsHour : Bool → ℕ → Type 0
IsHour true h = h < 24
IsHour false h = (h < 24) × (0 < h % 12)

abbrev hour_read : Bool → Bool → ℕ → ℕ
hour_read binary full h =
    let x = stored_hour binary full h in
    full_hour (status binary full) (if binary then x else hour_from_bcd x)

abbrev hour_test : Bool → Bool → ℕ → Bool
hour_test binary full h = not (full || not (h % 12 == 0)) || hour_read binary full h == h

hour_table : (binary full : Bool) → holds_below 24 (hour_test binary full) ≡ true
unfolding holds_below full_hour hour_from_bcd
hour_table true true = refl
hour_table true false = refl
hour_table false true = refl
hour_table false false = refl

hour_read-stored : (binary full : Bool) (h : ℕ) → IsHour full h → hour_read binary full h ≡ h
hour_read-stored binary true h i =
    let t = holds_below_at 24 (hour_test binary true) h (hour_table binary true) i in ground arith
hour_read-stored binary false h i =
    let t = holds_below_at 24 (hour_test binary false) h (hour_table binary false) i.0 in
    ground arith

-- The registers of a clock that shows the time `t`.
pub record Shows (binary full : Bool) (t : RtcTime) (cmos : ℕ → ℕ) : Type 0 where
  pub bcd_bit : (bit_and (cmos 0x0b) 0x04 == 0) ≡ not binary
  pub hour_bit : (bit_and (cmos 0x0b) 0x02 == 0) ≡ not full
  pub second : (t.second < 60) × (cmos 0x00 ≡ stored binary t.second)
  pub minute : (t.minute < 60) × (cmos 0x02 ≡ stored binary t.minute)
  pub hour : IsHour full t.hour × (cmos 0x04 ≡ stored_hour binary full t.hour)
  pub day : (t.day < 32) × (cmos 0x07 ≡ stored binary t.day)
  pub month : (t.month < 13) × (cmos 0x08 ≡ stored binary t.month)
  pub year :
      (100 ≤ t.year)
      × (t.year < 10000)
      × (cmos 0x09 ≡ stored binary (t.year % 100))
      × (cmos 0x32 ≡ stored binary (t.year / 100))

field-stored :
    (binary : Bool) (v : ℕ)
    → v < 100
    → (if not binary then from_bcd (stored binary v) else stored binary v) ≡ v
field-stored true v h = refl
field-stored false v h = from_bcd-bcd v h

full_hour_bits :
    (binary full : Bool) (status_b x : ℕ)
    → (bit_and status_b 0x02 == 0) ≡ not full
    → full_hour status_b x ≡ full_hour (status binary full) x
unfolding full_hour
full_hour_bits true true status_b x e = rw e refl
full_hour_bits true false status_b x e = rw e refl
full_hour_bits false true status_b x e = rw e refl
full_hour_bits false false status_b x e = rw e refl

hour-stored :
    (binary full : Bool) (h status_b : ℕ)
    → IsHour full h
    → (bit_and status_b 0x02 == 0) ≡ not full
    → full_hour status_b (
        if not binary then hour_from_bcd (stored_hour binary full h) else stored_hour binary full h)
      ≡ h
hour-stored true full h status_b i e =
    full_hour_bits true full status_b _ e ∙ hour_read-stored true full h i
hour-stored false full h status_b i e =
    full_hour_bits false full status_b _ e ∙ hour_read-stored false full h i

year-stored : (y : ℕ) → 100 ≤ y → y < 10000 → full_year (y / 100) (y % 100) ≡ y
unfolding full_year
year-stored y low high = ground arith

read_field : (cmos : ℕ → ℕ) → (reg : ℕ) → ℕ
read_field cmos reg = if bit_and (cmos 0x0b) 0x04 == 0 then from_bcd (cmos reg) else cmos reg

read_field-stored :
    (binary : Bool) (cmos : ℕ → ℕ) (reg v : ℕ)
    → (bit_and (cmos 0x0b) 0x04 == 0) ≡ not binary
    → v < 100
    → cmos reg ≡ stored binary v
    → read_field cmos reg ≡ v
unfolding read_field
read_field-stored binary cmos reg v b h e = rw (b, e) (field-stored binary v h)

rtc_decode-shown :
    (binary full : Bool) (t : RtcTime) (cmos : ℕ → ℕ)
    → Shows binary full t cmos
    → rtc_decode cmos ≡ t
unfolding rtc_decode read_field
rtc_decode-shown binary full t cmos s =
    let at = read_field-stored binary cmos in
    let b = s.bcd_bit in
    let y : read_field cmos 0x09 ≡ t.year % 100 =
      at 0x09 (t.year % 100) b (ground arith) s.year.2 in
    let c : read_field cmos 0x32 ≡ t.year / 100 =
      at 0x32 (t.year / 100) b (ground arith) s.year.3 in
    let h : full_hour (cmos 0x0b)
          (if bit_and (cmos 0x0b) 0x04 == 0 then hour_from_bcd (cmos 0x04) else cmos 0x04)
        ≡ t.hour =
      rw (b, s.hour.1) (hour-stored binary full t.hour (cmos 0x0b) s.hour.0 s.hour_bit) in
    let seconds = at 0x00 t.second b (ground arith) s.second.1 in
    let minutes = at 0x02 t.minute b (ground arith) s.minute.1 in
    let days = at 0x07 t.day b (ground arith) s.day.1 in
    let months = at 0x08 t.month b (ground arith) s.month.1 in
    let years : full_year (read_field cmos 0x32) (read_field cmos 0x09) ≡ t.year =
      rw (y, c) (year-stored t.year s.year.0 s.year.1) in
    λ i. record {
      year = years i;
      month = months i;
      day = days i;
      hour = h i;
      minute = minutes i;
      second = seconds i;
    }

-- The wait goes on while reads find an update, and ends at the first that finds none.
wait_update-ends :
    (fuel n time : ℕ) (cmos : ℕ → ℕ → ℕ)
    → ((i : ℕ) → i < n → (bit_and (cmos (time + i) 0x0a) 0x80 == 0) ≡ false)
    → (bit_and (cmos (time + n) 0x0a) 0x80 == 0) ≡ true
    → n < fuel
    → wait_update fuel cmos time ≡ some (time + n + 1)
unfolding wait_update
wait_update-ends zero n time cmos busy free room = absurd (omega arith)
wait_update-ends (suc fuel) zero time cmos busy free room =
    let z : time + 0 ≡ time = omega arith in rw (rw z at free, z) refl
wait_update-ends (suc fuel) (suc n) time cmos busy free room =
    let z : time + 0 ≡ time = omega arith in
    let next : (i : ℕ) → time + suc i ≡ time + 1 + i = λ i. omega arith in
    let ih =
      wait_update-ends fuel n (time + 1) cmos (λ i h. rw (next i) at (busy (suc i) (omega arith)))
        (rw (next n) at free) (omega arith) in
    rw (rw z at (busy 0 (omega arith)), next n) ih

read_order-lt : (reg : ℕ) → read_order reg < 8
read_order-lt reg = ground arith

-- `rtc_read` waits while its reads of register A find an update, the first `n` of them, and then reads back
-- the time that the clock shows in the eight reads that follow, in binary or in BCD, with hours of 24 or of
-- 12 with the PM flag, from the year 100 to 9999; with hours of 12, at every hour but midnight and noon.
-- Nothing is said of the registers at any other time.
pub rtc_read-shown :
    (binary full : Bool) (t : RtcTime) (fuel n : ℕ) (cmos : ℕ → ℕ → ℕ) (clock : ℕ → ℕ)
    → ((i : ℕ) → i < n → (bit_and (cmos i 0x0a) 0x80 == 0) ≡ false)
    → (bit_and (cmos n 0x0a) 0x80 == 0) ≡ true
    → ((i reg : ℕ) → n < i → i ≤ n + 8 → cmos i reg ≡ clock reg)
    → Shows binary full t clock
    → n < fuel
    → rtc_read fuel cmos ≡ some t
unfolding rtc_read
rtc_read-shown binary full t fuel n cmos clock busy free steady s room =
    let same : (λ reg. cmos (n + 1 + read_order reg) reg) ≡ clock = fun_ext (λ reg.
      let small = read_order-lt reg in
      steady (n + 1 + read_order reg) reg (omega arith) (omega arith)) in
    let zero_on : (i : ℕ) → 0 + i ≡ i = λ i. omega arith in
    let waited : wait_update fuel cmos 0 ≡ some (n + 1) =
      wait_update-ends fuel n 0 cmos (λ i h. rw (zero_on i) (busy i h)) (rw (zero_on n) free) room
      ∙ ap (λ m. some (m + 1)) (zero_on n) in
    rw (waited, rtc_read)
      (ap (λ (c : ℕ → ℕ). some (rtc_decode c)) same
        ∙ ap some (rtc_decode-shown binary full t clock s))
