-- ===== src/Core/Rtc/Modes.antt =====
-- Setting and reading the clock of kernel/src/core/drivers/rtc/rtc.c in both of its number modes.
use alephos.Prelude.{ℕ, ◌+◌, ◌%◌, ◌≤◌, ◌<◌, bit_and}
use alephos.Prelude.{◌≡◌, refl, inl, inr, Bool, true, false}
use alephos.Prelude.{arith}
use alephos.Prelude.{◌==◌, Bool-cases, ==→eq}
use alephos.Prelude.{u16}
use alephos.Bits.Flags.{has_flag}
use alephos.Core.Rtc.{
  Time, Registers, rtc_weekday, rtc_hours, rtc_status_b, rtc_24hr, rtc_dm_binary, bcd_to_binary,
  binary_to_bcd, read_time, write_time, raw_time, decoded, adjusted, put_time, write_rtc_reg,
}
use alephos.Core.Rtc.Calendar.{below-at}

abbrev bcd_agrees : ℕ → Bool
bcd_agrees b = bcd_to_binary (binary_to_bcd b) == b

-- A number of two digits survives its BCD code.
bcd_to_binary-binary_to_bcd : (b : ℕ) → b < 100 → bcd_to_binary (binary_to_bcd b) ≡ b
unfolding bcd_to_binary binary_to_bcd
bcd_to_binary-binary_to_bcd b h = ==→eq _ _ (below-at bcd_agrees 100 b refl h)

abbrev hour_agrees : ℕ → Bool
hour_agrees b = bcd_to_binary (bit_and (binary_to_bcd b) 127) == b

bcd_hour : (b : ℕ) → b < 24 → bcd_to_binary (bit_and (binary_to_bcd b) 127) ≡ b
unfolding bcd_to_binary binary_to_bcd
bcd_hour b h = ==→eq _ _ (below-at hour_agrees 24 b refl h)

-- A time that fits the clock: two digits each, in this century.
pub record IsTime (t : Time) : Type 0 where
  pub clock : (t.second < 60) × (t.minute < 60) × (t.hour < 24)
  pub date : (t.day < 32) × (t.month < 13)
  pub century : (2000 ≤ t.year) × (t.year < 2100)

-- A time of two digits each, in this century, that is set is read back, but for the weekday,
-- which is not set, in binary and in BCD mode alike, if the clock is in 24-hour mode.
pub read_time-write_time :
    (t : Time) (r : Registers)
    → IsTime t
    → has_flag (r rtc_status_b) rtc_24hr ≡ true
    → read_time (write_time t r) ≡ record t { weekday = r rtc_weekday }
unfolding read_time write_time raw_time decoded adjusted put_time write_rtc_reg
read_time-write_time t r v h =
    let year : u16 (t.year % 100 + 2000) ≡ t.year = omega (arith, v.century) in
    elim (Bool-cases (has_flag (r rtc_status_b) rtc_dm_binary)) [
      | inl e ↦ rw (e, h, year) refl
      | inr e ↦
          rw
            (
              e,
              h,
              bcd_to_binary-binary_to_bcd t.second (omega (arith, v.clock)),
              bcd_to_binary-binary_to_bcd t.minute (omega (arith, v.clock)),
              bcd_hour t.hour (omega (arith, v.clock)),
              bcd_to_binary-binary_to_bcd t.day (omega (arith, v.date)),
              bcd_to_binary-binary_to_bcd t.month (omega (arith, v.date)),
              bcd_to_binary-binary_to_bcd (t.year % 100) (omega arith),
              year,
            )
            refl
    ]

abbrev low_agrees : ℕ → Bool
low_agrees b = bit_and (b + 128) 127 == bit_and b 127

-- In BCD mode the hour that is read is the same whether its register says PM or not, also on a
-- 12-hour clock.
pub read_time-pm :
    (r : Registers)
    → r rtc_hours < 128
    → has_flag (r rtc_status_b) rtc_dm_binary ≡ false
    → (read_time (write_rtc_reg r rtc_hours (r rtc_hours + 128))).hour ≡ (read_time r).hour
unfolding read_time raw_time decoded adjusted write_rtc_reg
read_time-pm r h e =
    let low : bit_and (r rtc_hours + 128) 127 ≡ bit_and (r rtc_hours) 127 =
      ==→eq _ _ (below-at low_agrees 128 (r rtc_hours) refl h) in
    rw (e, low) refl
