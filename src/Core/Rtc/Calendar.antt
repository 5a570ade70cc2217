-- ===== src/Core/Rtc/Calendar.antt =====
-- The timestamps of kernel/src/core/drivers/rtc/rtc.c against a count of days year by year and
-- month by month.
use alephos.Prelude.{ℕ, zero, suc, ◌+◌, ◌-◌, ◌*◌, ◌%◌, ◌^◌, ◌≤◌, ◌<◌}
use alephos.Prelude.{◌≡◌, refl, sym, ap, ◌∙◌, inl, inr, Bool, true, false, ◌&&◌}
use alephos.Prelude.{some, List, [], ◌∷◌, arith}
use alephos.Prelude.{ltb, ◌==◌, if◌then◌else◌, Bool-cases, ==→eq}
use alephos.Prelude.{length, get_elem?, get_or}
use alephos.Core.Rtc.{Time, days_before_month, is_leap, days_to_year, timestamp_of, timestamp}

abbrev pub year_length : ℕ → ℕ
year_length year = if is_leap year then 366 else 365

abbrev pub month_length : Bool → ℕ → ℕ
month_length leap m =
    get_or (31 ∷ (if leap then 29 else 28) ∷ 31 ∷ 30 ∷ 31 ∷ 30 ∷ 31 ∷ 31 ∷ 30 ∷ 31 ∷ 30 ∷ 31 ∷ []) m
      0

-- The days of the `n` years from 1970 on.
pub days_of_years : ℕ → ℕ
days_of_years zero = 0
days_of_years (suc n) = days_of_years n + year_length (1970 + n)

-- The days of the first `m` months.
pub days_of_months : Bool → ℕ → ℕ
days_of_months leap zero = 0
days_of_months leap (suc m) = days_of_months leap m + month_length leap m

days_to_year-years : (n : ℕ) → days_to_year (1970 + n) ≡ days_of_years n
unfolding days_to_year days_of_years
days_to_year-years zero = refl
days_to_year-years (suc n) = ground (arith, days_to_year-years n)

-- Whether the test holds of every number below `n`.
abbrev pub below : (ℕ → Bool) → ℕ → Bool
below q zero = true
below q (suc n) = q n && below q n

pub below-at : (q : ℕ → Bool) (n k : ℕ) → below q n ≡ true → k < n → q k ≡ true
below-at q zero k b h = absurd (omega arith)
below-at q (suc n) k b h = elim (Bool-cases (q n)) [
  | inl e ↦ elim (Bool-cases (k == n)) [
    | inl same ↦ ap q (==→eq k n same) ∙ e
    | inr other ↦ below-at q n k (ap (λ x. x && below q n) (sym e) ∙ b) (ground arith)
  ]
  | inr e ↦ absurd (ground arith)
]

abbrev month_agrees : Bool → ℕ → Bool
month_agrees leap m =
    get_or days_before_month m 0 + (if ltb 1 m && leap then 1 else 0) == days_of_months leap m

months-before :
    (leap : Bool) (m : ℕ)
    → m < 12
    → get_or days_before_month m 0 + (if ltb 1 m && leap then 1 else 0) ≡ days_of_months leap m
unfolding days_of_months
months-before true m h = ==→eq _ _ (below-at (month_agrees true) 12 m refl h)
months-before false m h = ==→eq _ _ (below-at (month_agrees false) 12 m refl h)

get_elem?-get_or :
    {A : Type 0} (l : List A) (i : ℕ) (d : A) → i < length l → get_elem? l i ≡ some (get_or l i d)
get_elem?-get_or [] i d h = absurd (omega arith)
get_elem?-get_or (a ∷ l) zero d h = refl
get_elem?-get_or (a ∷ l) (suc i) d h = get_elem?-get_or l i d (omega arith)

-- The seconds from the start of 1970 to the time, for a real calendar.
pub seconds_since_1970 : Time → ℕ
unfolding days_of_years days_of_months
seconds_since_1970 t =
    (days_of_years (t.year - 1970) + days_of_months (is_leap t.year) (t.month - 1) + (t.day - 1))
      * 86400
    + t.hour * 3600
    + t.minute * 60
    + t.second

-- The timestamp of a time from 1970 on with a real month and day is the number of seconds since
-- the start of 1970, counted year by year and month by month, modulo 2 ^ 32.
pub timestamp-seconds :
    (t : Time)
    → 1970 ≤ t.year
    → 0 < t.month
    → t.month ≤ 12
    → 0 < t.day
    → timestamp t ≡ some (seconds_since_1970 t % 2 ^ 32)
unfolding timestamp timestamp_of seconds_since_1970
timestamp-seconds t hy hm hm' hd =
    let m : ℕ = t.month - 1 in
    let real : (t.month == 0) ≡ false = ground arith in
    let years : days_to_year t.year ≡ days_of_years (t.year - 1970) =
      ap days_to_year {x = t.year} {y = 1970 + (t.year - 1970)} (omega arith)
      ∙ days_to_year-years (t.year - 1970) in
    rw (real, get_elem?-get_or days_before_month m 0 (omega arith), years)
      (ap some (ground (arith, months-before (is_leap t.year) m (omega arith))))
