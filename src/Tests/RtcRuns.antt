-- ===== src/Tests/RtcRuns.antt =====
-- kernel/src/rtc.c on concrete data.
use choco_os.Base.{ltb, true, ℕ, false, ◌≡◌, refl, ◌==◌, if◌then◌else◌, arith, some}
use choco_os.Rtc.{RtcTime, rtc_read, full_hour, hour_from_bcd}
use choco_os.Rtc.Fields.{Shows, rtc_read-shown}

-- 23:59:58 on 31 December 2026.
abbrev evening : RtcTime
evening = record { year = 2026; month = 12; day = 31; hour = 23; minute = 59; second = 58 }

-- The registers that show it, in BCD with hours of 12.
abbrev evening_cmos : ℕ → ℕ
evening_cmos reg =
    if reg == 0x00
    then 0x58
    else if reg == 0x02
    then 0x59
    else if reg == 0x04
    then 0x91
    else if reg == 0x07
    then 0x31
    else if reg == 0x08
    then 0x12
    else if reg == 0x09
    then 0x26
    else if reg == 0x32
    then 0x20
    else 0

evening-Shows : Shows false false evening evening_cmos
evening-Shows = record {
  bcd_bit = refl;
  hour_bit = refl;
  second = (omega arith, refl);
  minute = (omega arith, refl);
  hour = ((omega arith, omega arith), refl);
  day = (omega arith, refl);
  month = (omega arith, refl);
  year = (omega arith, omega arith, refl, refl);
}

-- Two reads find an update, with other registers; the third finds none.
abbrev evening_reads : ℕ → ℕ → ℕ
evening_reads i reg = if ltb i 2 then 0xa6 else if i == 2 then 0x26 else evening_cmos reg

rtc_read-shown_example : rtc_read 5 evening_reads ≡ some evening
rtc_read-shown_example =
    rtc_read-shown false false evening 5 2 evening_reads evening_cmos
      (λ i h. let small : ltb i 2 ≡ true = ground arith in rw small refl) refl
      (λ i reg low high.
        let late : ltb i 2 ≡ false = ground arith in
        let other : (i == 2) ≡ false = ground arith in rw (late, other) refl)
      evening-Shows (omega arith)

-- With hours of 12, noon reads as 0 and midnight as 12.
noon_run : full_hour 0 (hour_from_bcd 0x92) ≡ 0
unfolding full_hour hour_from_bcd
noon_run = refl

midnight_run : full_hour 0 (hour_from_bcd 0x12) ≡ 12
unfolding full_hour hour_from_bcd
midnight_run = refl
