-- ===== src/Clock/Calendar.antt =====
-- rtc_read of kernel/src/cmos.c against the Gregorian calendar.
use stewieos.Prelude.{
  ℕ, zero, suc, ◌+◌, ◌-◌, ◌*◌, ◌/◌, ◌%◌, ◌^◌, ◌≤◌, ◌<◌, ◌≡◌, refl, ◌∙◌, ap, Bool, true, false, not,
  ◌&&◌, ◌||◌, List, [], ◌∷◌, arith, ltb, ◌==◌, if◌then◌else◌, get_or, inl, inr, Bool-cases, some,
}
use stewieos.Clock.{
  years, Reading, stable, mon_to_days, bit, to_binary, to_24, leap_day, to_time, rtc_read, bcd,
}

-- Leap years of the Gregorian calendar.
abbrev pub leap : ℕ → Bool
leap year = (year % 4 == 0) && (not (year % 100 == 0) || (year % 400 == 0))

-- The days of the `n` years from 1970 on.
pub days_of_years : ℕ → ℕ
days_of_years zero = 0
days_of_years (suc n) = days_of_years n + (if leap (1970 + n) then 366 else 365)

days_of_years-closed :
    (n : ℕ) → n < 130 → days_of_years n ≡ n * 365 + (n + 1) / 4 - (n + 69) / 100 + (n + 369) / 400
unfolding days_of_years
days_of_years-closed zero h = refl
days_of_years-closed (suc n) h = let ih = days_of_years-closed n (omega arith) in ground (arith, ih)

month_length : (leap_year : Bool) → ℕ → ℕ
month_length l zero = 31
month_length l (suc zero) = if l then 29 else 28
month_length l (suc (suc n)) = get_or (31 ∷ 30 ∷ 31 ∷ 30 ∷ 31 ∷ 31 ∷ 30 ∷ 31 ∷ 30 ∷ 31 ∷ []) n 0

-- The days of the first `n` months of a year.
pub days_of_months : (leap_year : Bool) → ℕ → ℕ
days_of_months l zero = 0
days_of_months l (suc n) = days_of_months l n + month_length l n

-- The table of the code, and its extra day from March on.
days_of_months_table :
    (l : Bool) (n : ℕ)
    → n < 12
    → (days_of_months l n ≡ get_or mon_to_days n 0 + (if ltb 1 n && l then 1 else 0))
      × (get_or mon_to_days n 0 ≤ 334)
unfolding days_of_months month_length
days_of_months_table true zero h = (refl, omega arith)
days_of_months_table true (suc zero) h = (refl, omega arith)
days_of_months_table true (suc (suc zero)) h = (refl, omega arith)
days_of_months_table true (suc (suc (suc zero))) h = (refl, omega arith)
days_of_months_table true (suc (suc (suc (suc zero)))) h = (refl, omega arith)
days_of_months_table true (suc (suc (suc (suc (suc zero))))) h = (refl, omega arith)
days_of_months_table true (suc (suc (suc (suc (suc (suc zero)))))) h = (refl, omega arith)
days_of_months_table true (suc (suc (suc (suc (suc (suc (suc zero))))))) h = (refl, omega arith)
days_of_months_table true (suc (suc (suc (suc (suc (suc (suc (suc zero)))))))) h =
    (refl, omega arith)
days_of_months_table true (suc (suc (suc (suc (suc (suc (suc (suc (suc zero))))))))) h =
    (refl, omega arith)
days_of_months_table true (suc (suc (suc (suc (suc (suc (suc (suc (suc (suc zero)))))))))) h =
    (refl, omega arith)
days_of_months_table true (suc (suc (suc (suc (suc (suc (suc (suc (suc (suc (suc zero))))))))))) h =
    (refl, omega arith)
days_of_months_table false zero h = (refl, omega arith)
days_of_months_table false (suc zero) h = (refl, omega arith)
days_of_months_table false (suc (suc zero)) h = (refl, omega arith)
days_of_months_table false (suc (suc (suc zero))) h = (refl, omega arith)
days_of_months_table false (suc (suc (suc (suc zero)))) h = (refl, omega arith)
days_of_months_table false (suc (suc (suc (suc (suc zero))))) h = (refl, omega arith)
days_of_months_table false (suc (suc (suc (suc (suc (suc zero)))))) h = (refl, omega arith)
days_of_months_table false (suc (suc (suc (suc (suc (suc (suc zero))))))) h = (refl, omega arith)
days_of_months_table false (suc (suc (suc (suc (suc (suc (suc (suc zero)))))))) h =
    (refl, omega arith)
days_of_months_table false (suc (suc (suc (suc (suc (suc (suc (suc (suc zero))))))))) h =
    (refl, omega arith)
days_of_months_table false (suc (suc (suc (suc (suc (suc (suc (suc (suc (suc zero)))))))))) h =
    (refl, omega arith)
days_of_months_table false (suc (suc (suc (suc (suc (suc (suc (suc (suc (suc (suc zero)))))))))))
      h =
    (refl, omega arith)
days_of_months_table true (suc (suc (suc (suc (suc (suc (suc (suc (suc (suc (suc (suc n))))))))))))
      h =
    absurd (omega arith)
days_of_months_table false (suc (suc (suc (suc (suc (suc (suc (suc (suc (suc (suc (suc n))))))))))))
      h =
    absurd (omega arith)

-- A date in the 21st century, `year` years after 2000, and a time of the day.
pub record Date : Type 0 where
  pub year : ℕ
  pub month : ℕ
  pub day : ℕ
  pub hour : ℕ
  pub minute : ℕ
  pub second : ℕ

pub record IsDate (t : Date) : Type 0 where
  pub year_in : t.year < 38
  pub month_in : (1 ≤ t.month) × (t.month ≤ 12)
  pub day_in : (1 ≤ t.day) × (t.day ≤ 31)
  pub time_in : (t.hour < 24) × (t.minute < 60) × (t.second < 60)

-- Seconds since 1970.
abbrev pub unix_time : Date → ℕ
unix_time t =
    (days_of_years (30 + t.year)
        + days_of_months (leap (2000 + t.year)) (t.month - 1)
        + (t.day - 1))
      * 86400
    + t.hour * 3600
    + t.minute * 60
    + t.second

abbrev pub to_bcd : ℕ → ℕ
to_bcd v = v / 10 * 16 + v % 10

abbrev pub encoded : Date → Reading
encoded t = record {
  s = to_bcd t.second;
  m = to_bcd t.minute;
  h = to_bcd t.hour;
  d = to_bcd t.day;
  mo = to_bcd t.month;
  y = to_bcd t.year;
}

decoded : Date → Reading
decoded t = record {
  s = t.second;
  m = t.minute;
  h = t.hour;
  d = t.day;
  mo = t.month;
  y = t.year + 100;
}

to_binary-encoded :
    (t : Date) (stb : ℕ) → IsDate t → bit stb 2 ≡ false → to_binary stb (encoded t) ≡ decoded t
unfolding to_binary decoded
to_binary-encoded t stb v b = simp b (λ i. record {
  s = bcd_lem t.second (omega (arith, v.time_in)) i;
  m = bcd_lem t.minute (omega (arith, v.time_in)) i;
  h = hour_lem i;
  d = bcd_lem t.day (omega (arith, v.day_in)) i;
  mo = bcd_lem t.month (omega (arith, v.month_in)) i;
  y = bcd_lem t.year (omega (arith, v.year_in)) i + 100;
})
  where
    bcd_lem : (n : ℕ) → n < 100 → bcd (to_bcd n) ≡ n
    bcd_lem n h = omega arith

    hour_lem :
        (to_bcd t.hour % 16 + (to_bcd t.hour / 16 % 8 * 10 + to_bcd t.hour / 128 * 128)) % 256
        ≡ t.hour
    hour_lem = omega (arith, v.time_in)

-- The sum of the code, whose terms for the day and the century are taken from 2 ^ 32.
sum_lem :
    (s m h d m' a b c e : ℕ)
    → s < 60
    → m < 60
    → h < 24
    → 1 ≤ d
    → d ≤ 32
    → m' ≤ 334
    → a ≤ 67
    → b ≤ 17
    → c ≤ b
    → e ≤ 1
    → (s
          + m * 60
          + h * 3600
          + (d + (2 ^ 32 - 1) + m') * 86400
          + a * 31536000
          + b * 86400
          + (2 ^ 32 - c) * 86400
          + e * 86400)
        % 2 ^ 32
      ≡ (a * 365 + b - c + e + m' + (d - 1)) * 86400 + h * 3600 + m * 60 + s
sum_lem s m h d m' a b c e p q r i j k l n o u = omega arith

to_time-decoded : (t : Date) → IsDate t → to_time (leap_day (decoded t)) ≡ unix_time t
unfolding to_time leap_day decoded
to_time-decoded t v =
    let l : Bool = leap (2000 + t.year) in
    let same_leap : ((t.year + 100 + 1900) % 4 == 0) ≡ l = ground (arith, v.year_in) in
    let past : ltb 2 t.month ≡ ltb 1 (t.month - 1) = ground (arith, v.month_in) in
    let (table, small) = days_of_months_table l (t.month - 1) (omega (arith, v.month_in)) in
    let closed = days_of_years-closed (30 + t.year) (omega (arith, v.year_in)) in
    let ya : years (t.year + 100) 70 1 ≡ 30 + t.year = ground (arith, v.year_in) in
    let yb : years (t.year + 100) 69 4 ≡ (30 + t.year + 1) / 4 = ground (arith, v.year_in) in
    let yc : years (t.year + 100) 1 100 ≡ (30 + t.year + 69) / 100 = ground (arith, v.year_in) in
    let sum_at = λ (d : ℕ) (p : 1 ≤ d) (q : d ≤ 32).
      sum_lem t.second t.minute t.hour d (get_or mon_to_days (t.month - 1) 0)
        (years (t.year + 100) 70 1) (years (t.year + 100) 69 4) (years (t.year + 100) 1 100)
        ((t.year + 100 + 299) / 400) v.time_in.2 v.time_in.1 v.time_in.0 p q small
        (omega (arith, ya, v.year_in)) (omega (arith, yb, v.year_in))
        (omega (arith, yb, yc, v.year_in)) (omega (arith, v.year_in)) in
    elim (Bool-cases (ltb 1 (t.month - 1) && l)) [
      | inl e ↦
          let days : days_of_months l (t.month - 1) ≡ get_or mon_to_days (t.month - 1) 0 + 1 =
            table ∙ simp e refl in
          rw (same_leap, past, e)
            (sum_at ((t.day + 1) % 256) (ground (arith, v.day_in)) (ground (arith, v.day_in))
              ∙ ap (λ k. k * 86400 + t.hour * 3600 + t.minute * 60 + t.second)
                  (omega (arith, days, closed, ya, yb, yc, v.day_in)))
      | inr e ↦
          let days : days_of_months l (t.month - 1) ≡ get_or mon_to_days (t.month - 1) 0 + 0 =
            table ∙ simp e refl in
          rw (same_leap, past, e)
            (sum_at t.day (ground (arith, v.day_in)) (ground (arith, v.day_in))
              ∙ ap (λ k. k * 86400 + t.hour * 3600 + t.minute * 60 + t.second)
                  (omega (arith, days, closed, ya, yb, yc, v.day_in)))
    ]

to_24-same : (stb : ℕ) (r : Reading) → bit stb 1 ≡ true → to_24 stb r ≡ r
unfolding to_24
to_24-same stb r c = simp c refl

-- For a clock that counts in BCD and 24 hours, once two readings agree on a date from 2000 to 2037,
-- rtc_read gives the seconds from 1970 to that date and time in the Gregorian calendar.
pub rtc_read-unix_time :
    (t : Date) (first : Reading) (more : List Reading) (stb : ℕ)
    → IsDate t
    → bit stb 2 ≡ false
    → bit stb 1 ≡ true
    → stable first more ≡ some (encoded t)
    → rtc_read first more stb ≡ some (unix_time t)
unfolding rtc_read
rtc_read-unix_time t first more stb v b c e =
    rw (e, rtc_read)
      (ap some (
        ap (λ r. to_time (leap_day (to_24 stb r))) (to_binary-encoded t stb v b)
        ∙ ap (λ r. to_time (leap_day r)) (to_24-same stb (decoded t) c)
        ∙ to_time-decoded t v))
