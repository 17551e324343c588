-- ===== src/Rtc.antt =====
-- kernel/src/rtc.c: the real-time clock. What a register reads as depends on the number of the read, since
-- the clock changes its registers while the code waits and reads.
pub mod Fields
use choco_os.Base.{
  zero, suc, ℕ, ◌+◌, ◌*◌, ◌/◌, ◌%◌, Bool, true, false, not, ◌&&◌, ◌==◌, if◌then◌else◌, Option, none,
  some, List, [], ◌∷◌, bit_and, bit_or,
}

pub record RtcTime : Type 0 where
  pub year : ℕ
  pub month : ℕ
  pub day : ℕ
  pub hour : ℕ
  pub minute : ℕ
  pub second : ℕ

-- `while (update_in_progress());` from the read number `time`: the number of the read behind the one that
-- finds no update.
pub wait_update : (fuel : ℕ) → (cmos : ℕ → ℕ → ℕ) → (time : ℕ) → Option ℕ
wait_update zero cmos time = none
wait_update (suc fuel) cmos time =
    let later = wait_update fuel cmos (time + 1) in
    if bit_and (cmos time 0x0a) 0x80 == 0 then some (time + 1) else later

-- `(t & 0x0F) + ((t / 16) * 10)`, in a byte.
pub from_bcd : ℕ → ℕ
from_bcd t = (bit_and t 0x0f + t / 16 * 10) % 256

-- The hour keeps its PM flag.
unfoldable pub hour_from_bcd : ℕ → ℕ
hour_from_bcd t = bit_or (bit_and t 0x0f + bit_and t 0x70 / 16 * 10) (bit_and t 0x80) % 256

unfoldable pub full_hour : (status_b hour : ℕ) → ℕ
full_hour status_b hour =
    if bit_and status_b 0x02 == 0 && not (bit_and hour 0x80 == 0)
    then (bit_and hour 0x7f + 12) % 24
    else hour

pub full_year : (century year : ℕ) → ℕ
full_year century year = (if century == 0 then 2000 + year else century * 100 + year) % 65536

-- What the registers say once no update is in progress.
pub rtc_decode : (cmos : ℕ → ℕ) → RtcTime
rtc_decode cmos =
    let status_b = cmos 0x0b in
    let bcd = bit_and status_b 0x04 == 0 in
    let field = λ (reg : ℕ). if bcd then from_bcd (cmos reg) else cmos reg in
    record {
      year = full_year (field 0x32) (field 0x09);
      month = field 0x08;
      day = field 0x07;
      hour = full_hour status_b (if bcd then hour_from_bcd (cmos 0x04) else cmos 0x04);
      minute = field 0x02;
      second = field 0x00;
    }

-- The order in which the registers are read.
abbrev pub read_order : (reg : ℕ) → ℕ
read_order reg =
    if reg == 0x00
    then 0
    else if reg == 0x02
    then 1
    else if reg == 0x04
    then 2
    else if reg == 0x07
    then 3
    else if reg == 0x08
    then 4
    else if reg == 0x09
    then 5
    else if reg == 0x32
    then 6
    else 7

-- `cmos n reg` is what the read number `n` gives, when it is of the register `reg`.
pub rtc_read : (fuel : ℕ) → (cmos : ℕ → ℕ → ℕ) → Option RtcTime
rtc_read fuel cmos = elim (wait_update fuel cmos 0) [
  | none ↦ none
  | some time ↦ some (rtc_decode (λ reg. cmos (time + read_order reg) reg))
]
