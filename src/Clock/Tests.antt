-- ===== src/Clock/Tests.antt =====
-- Small runs of kernel/src/cmos.c.
use stewieos.Prelude.{◌≡◌, refl, [], ◌∷◌, arith, some}
use stewieos.Clock.{Reading, rtc_read, stable, same, to_binary, to_24, leap_day, to_time}
use stewieos.Clock.Calendar.{Date, IsDate, unix_time, encoded, rtc_read-unix_time}

-- 29 February 2016, 23:59:58
abbrev leap_date : Date
leap_date = record { year = 16; month = 2; day = 29; hour = 23; minute = 59; second = 58 }

-- the second before
abbrev before : Reading
before = record (encoded leap_date) { s = 0x57 }

leap_date-IsDate : IsDate leap_date
leap_date-IsDate = record {
  year_in = omega arith;
  month_in = omega arith;
  day_in = omega arith;
  time_in = omega arith;
}

settles : stable before (encoded leap_date ∷ encoded leap_date ∷ []) ≡ some (encoded leap_date)
unfolding stable same
settles = refl

reads_leap_date : rtc_read before (encoded leap_date ∷ encoded leap_date ∷ []) 2 ≡ some 1456790398
unfolding rtc_read stable same to_binary to_24 leap_day to_time
reads_leap_date = refl

rtc_read-unix_time_example :
    rtc_read before (encoded leap_date ∷ encoded leap_date ∷ []) 2 ≡ some (unix_time leap_date)
rtc_read-unix_time_example =
    rtc_read-unix_time leap_date before (encoded leap_date ∷ encoded leap_date ∷ []) 2
      leap_date-IsDate refl refl settles
