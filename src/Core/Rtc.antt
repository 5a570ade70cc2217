-- ===== src/Core/Rtc.antt =====
-- kernel/src/core/drivers/rtc/rtc.c and rtc.h: the real-time clock. The registers are a function of their
-- index, as they read when no update is in progress; the code waits until then. Register C,
-- which a read clears, plays no part in the time.
pub mod Calendar
pub mod Modes
mod Tests
use alephos.Prelude.{
  ℕ, zero, suc, ◌+◌, ◌-◌, ◌*◌, ◌/◌, ◌%◌, ◌^◌, ◌≤◌, ◌<◌, min, max, bit_and, bit_or, bit_xor,
}
use alephos.Prelude.{
  ◌≡◌, refl, sym, ap, ap₂, ◌∙◌, subst, ◌≢◌, ◌↔◌, ◌⊎◌, inl, inr, Bool, true, false, not, ◌&&◌, ◌||◌,
}
use alephos.Prelude.{Option, none, some, List, [], ◌∷◌, ◌++◌, append-nil, append_assoc, arith}
use alephos.Prelude.{
  ltb, leb, ◌==◌, if◌then◌else◌, is_some, Bool-cases, Option-cases, if_both, ltb→lt, ltb→le, lt→ltb,
  ==→eq, ==→ne, eq→==, ne→==,
}
use alephos.Prelude.{
  length, get_elem?, get_or, set, take, drop, replicate, length-append, length-set,
  length-replicate, length-take, length-drop, take-append-drop, get_or-set_self, get_or-set_ne,
  get_or-replicate, set-get_or, set-set, take-ge, drop-ge, take-of_append, drop-of_append,
}
use alephos.Prelude.{u8, u16, u32, u64, sub32, sub64}
use mathlib.Core.Option
use alephos.Bits.{complement}
use alephos.Bits.Flags.{has_flag}

abbrev pub rtc_seconds : ℕ
rtc_seconds = 0

abbrev pub rtc_minutes : ℕ
rtc_minutes = 2

abbrev pub rtc_hours : ℕ
rtc_hours = 4

abbrev pub rtc_weekday : ℕ
rtc_weekday = 6

abbrev pub rtc_day : ℕ
rtc_day = 7

abbrev pub rtc_month : ℕ
rtc_month = 8

abbrev pub rtc_year : ℕ
rtc_year = 9

abbrev pub rtc_status_b : ℕ
rtc_status_b = 11

abbrev pub rtc_24hr : ℕ
rtc_24hr = 2

abbrev pub rtc_dm_binary : ℕ
rtc_dm_binary = 4

-- `rtc_time_t`
pub record Time : Type 0 where
  pub second : ℕ
  pub minute : ℕ
  pub hour : ℕ
  pub day : ℕ
  pub month : ℕ
  pub year : ℕ
  pub weekday : ℕ

pub bcd_to_binary : ℕ → ℕ
bcd_to_binary bcd = u8 (bit_and bcd 240 / 16 * 10 + bit_and bcd 15)

pub binary_to_bcd : ℕ → ℕ
binary_to_bcd binary = u8 (bit_or (binary / 10 * 16) (binary % 10))

abbrev pub Registers : Type 0
Registers = ℕ → ℕ

pub write_rtc_reg : Registers → ℕ → ℕ → Registers
write_rtc_reg r reg value a = if reg == a then value else r a

-- The registers as numbers.
raw_time : Registers → Time
raw_time r = record {
  second = r rtc_seconds;
  minute = r rtc_minutes;
  hour = r rtc_hours;
  day = r rtc_day;
  month = r rtc_month;
  year = r rtc_year;
  weekday = r rtc_weekday;
}

decoded : Time → Time
unfolding bcd_to_binary
decoded t = record t {
  second = bcd_to_binary t.second;
  minute = bcd_to_binary t.minute;
  hour = bcd_to_binary (bit_and t.hour 127);
  day = bcd_to_binary t.day;
  month = bcd_to_binary t.month;
  year = bcd_to_binary t.year;
}

-- The 12-hour clock, and the century
adjusted : ℕ → Time → Time
unfolding has_flag
adjusted status t = record t {
  hour =
      if not (has_flag status rtc_24hr) && not (bit_and t.hour 128 == 0)
      then (bit_and t.hour 127 + 12) % 24
      else t.hour;
  year = u16 (t.year + 2000);
}

pub read_time : Registers → Time
unfolding raw_time decoded adjusted has_flag
read_time r =
    let status = r rtc_status_b in
    adjusted status (if has_flag status rtc_dm_binary then raw_time r else decoded (raw_time r))

-- The six registers of the time, each value passed through `encode`.
put_time : (ℕ → ℕ) → Time → Registers → Registers
unfolding write_rtc_reg
put_time encode t r =
    let r1 = write_rtc_reg r rtc_seconds (encode t.second) in
    let r2 = write_rtc_reg r1 rtc_minutes (encode t.minute) in
    let r3 = write_rtc_reg r2 rtc_hours (encode t.hour) in
    let r4 = write_rtc_reg r3 rtc_day (encode t.day) in
    let r5 = write_rtc_reg r4 rtc_month (encode t.month) in
    write_rtc_reg r5 rtc_year (encode (t.year % 100))

pub write_time : Time → Registers → Registers
unfolding put_time write_rtc_reg binary_to_bcd has_flag
write_time t r =
    let status = r rtc_status_b in
    let r1 = write_rtc_reg r rtc_status_b (bit_and status (complement 8 112)) in
    let r2 = put_time (if has_flag status rtc_dm_binary then (λ b. b) else binary_to_bcd) t r1 in
    write_rtc_reg r2 rtc_status_b status

abbrev pub days_before_month : List ℕ
days_before_month = 0 ∷ 31 ∷ 59 ∷ 90 ∷ 120 ∷ 151 ∷ 181 ∷ 212 ∷ 243 ∷ 273 ∷ 304 ∷ 334 ∷ []

abbrev pub is_leap : ℕ → Bool
is_leap year = (year % 4 == 0) && not (year % 100 == 0) || (year % 400 == 0)

-- `years_since_1970 * 365 + leap_years`, for a year that is not before 1970; the years that
-- `rtc_read_time` gives begin with 2000.
pub days_to_year : ℕ → ℕ
days_to_year year =
    (year - 1970) * 365 + ((year - 1969) / 4 - (year - 1901) / 100 + (year - 1601) / 400)

-- The rest of `rtc_get_timestamp`, the days before the month given.
pub timestamp_of : Time → ℕ → ℕ
unfolding days_to_year
timestamp_of t before =
    let days = days_to_year t.year + before + t.day - 1 in
    let days' = if ltb 2 t.month && is_leap t.year then days + 1 else days in
    u32 (days' * 86400 + t.hour * 3600 + t.minute * 60 + t.second)

-- `none` where the month is no index of the table.
pub timestamp : Time → Option ℕ
unfolding timestamp_of
timestamp t =
    if t.month == 0
    then none
    else Option.map (timestamp_of t) (get_elem? days_before_month (t.month - 1))

pub get_timestamp : Registers → Option ℕ
unfolding read_time timestamp
get_timestamp r = timestamp (read_time r)

abbrev pub rtc_status_a : ℕ
rtc_status_a = 10

-- Register B after `rtc_init`
pub init : Registers → Registers
unfolding write_rtc_reg
init r = write_rtc_reg r rtc_status_b (bit_or (r rtc_status_b) (bit_or rtc_24hr rtc_dm_binary))

pub set_periodic_interrupt : Registers → ℕ → Registers
unfolding write_rtc_reg
set_periodic_interrupt r rate =
    write_rtc_reg r rtc_status_a (bit_or (bit_and (r rtc_status_a) 240) (bit_and rate 15))

pub enable_interrupt : Registers → ℕ → Registers
unfolding write_rtc_reg
enable_interrupt r mask = write_rtc_reg r rtc_status_b (bit_or (r rtc_status_b) mask)

pub disable_interrupt : Registers → ℕ → Registers
unfolding write_rtc_reg
disable_interrupt r mask =
    write_rtc_reg r rtc_status_b (bit_and (r rtc_status_b) (complement 8 mask))
