-- ===== src/Core/Rtc/Tests.antt =====
-- The clock on the first second of March 2024: kernel/src/core/drivers/rtc/rtc.c.
use alephos.Prelude.{◌+◌, ◌%◌, ◌^◌}
use alephos.Prelude.{◌≡◌, refl}
use alephos.Prelude.{some, arith}
use alephos.Prelude.{◌==◌, if◌then◌else◌}
use alephos.Bits.Flags.{has_flag}
use alephos.Core.Rtc.{Time, Registers, rtc_weekday, read_time, write_time, write_rtc_reg, timestamp}
use alephos.Core.Rtc.Calendar.{seconds_since_1970, timestamp-seconds}
use alephos.Core.Rtc.Modes.{read_time-write_time, read_time-pm}

abbrev march : Time
march = record { second = 1; minute = 0; hour = 0; day = 1; month = 3; year = 2024; weekday = 0 }

-- In BCD and 24-hour mode
abbrev clock : Registers
clock = λ a. if a == 11 then 2 else 0

march_stamp : timestamp march ≡ some 1709251201
unfolding timestamp
march_stamp = refl

timestamp-seconds_example : timestamp march ≡ some (seconds_since_1970 march % 2 ^ 32)
timestamp-seconds_example =
    timestamp-seconds march (omega arith) (omega arith) (omega arith) (omega arith)

read_time-write_time_example :
    read_time (write_time march clock) ≡ record march { weekday = clock rtc_weekday }
unfolding has_flag
read_time-write_time_example =
    read_time-write_time march clock
      (record {
        clock = (omega arith, omega arith, omega arith);
        date = (omega arith, omega arith);
        century = (omega arith, omega arith);
      })
      refl

-- Three o'clock in BCD, 12-hour mode
abbrev twelve_hours : Registers
twelve_hours = λ a. if a == 4 then 3 else 0

read_time_test :
    (read_time (write_rtc_reg twelve_hours 4 (3 + 128))).hour ≡ (read_time twelve_hours).hour
unfolding has_flag
read_time_test = read_time-pm twelve_hours (omega arith) refl
