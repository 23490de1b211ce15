-- ===== src/Clock.antt =====
-- rtc_read of kernel/src/cmos.c: the registers of the real time clock as a time. What the ports give is
-- an argument, and `time_t` and the sums of the code have 32 bits.
pub mod Calendar
mod Tests
use stewieos.Prelude.{
  ℕ, zero, suc, ◌+◌, ◌-◌, ◌*◌, ◌/◌, ◌%◌, ◌^◌, Bool, true, false, not, ◌&&◌, Option, none, some,
  List, [], ◌∷◌, leb, ltb, ◌==◌, if◌then◌else◌, get_or,
}

-- One reading of the six registers.
pub record Reading : Type 0 where
  pub s : ℕ
  pub m : ℕ
  pub h : ℕ
  pub d : ℕ
  pub mo : ℕ
  pub y : ℕ

pub same : Reading → Reading → Bool
same a b =
    (a.s == b.s) && (a.m == b.m) && (a.h == b.h) && (a.d == b.d) && (a.mo == b.mo) && (a.y == b.y)

-- The loop reads until two readings agree; `none` if those given never do.
pub stable : Reading → List Reading → Option Reading
stable last [] = none
stable last (r ∷ rs) = let rest = stable r rs in if same last r then some r else rest

abbrev pub mon_to_days : List ℕ
mon_to_days = 0 ∷ 31 ∷ 59 ∷ 90 ∷ 120 ∷ 151 ∷ 181 ∷ 212 ∷ 243 ∷ 273 ∷ 304 ∷ 334 ∷ 365 ∷ []

-- `(v & 0x0F) + ((v >> 4) * 10)` in 8 bits
abbrev pub bcd : ℕ → ℕ
bcd v = (v % 16 + v / 16 * 10) % 256

-- The bit of register B that `2 ^ k` masks.
abbrev pub bit : (stb k : ℕ) → Bool
bit stb k = (stb / 2 ^ k) % 2 == 1

-- From BCD to binary, unless bit 2 says that the registers are binary. Bit 7 of the hour stays.
pub to_binary : (stb : ℕ) → Reading → Reading
to_binary stb r = if bit stb 2 then r else record {
  s = bcd r.s;
  m = bcd r.m;
  h = (r.h % 16 + (r.h / 16 % 8 * 10 + r.h / 128 * 128)) % 256;
  d = bcd r.d;
  mo = bcd r.mo;
  y = bcd r.y + 100;
}

-- From 12 hours to 24, unless bit 1 says that there are 24.
pub to_24 : (stb : ℕ) → Reading → Reading
to_24 stb r = if not (bit stb 1) && bit r.h 3 then record r { h = (r.h % 128 + 12) % 24 } else r

pub leap_day : Reading → Reading
leap_day r = if ltb 2 r.mo && ((r.y + 1900) % 4 == 0) then record r { d = (r.d + 1) % 256 } else r

-- `(y - k) / n` as a 32-bit number: division rounds towards 0.
abbrev pub years : (y k n : ℕ) → ℕ
years y k n = if leb k y then (y - k) / n else (2 ^ 32 - (k - y) / n) % 2 ^ 32

-- The array has a value for the months 1 to 13.
pub to_time : Reading → ℕ
to_time r =
    (r.s
      + r.m * 60
      + r.h * 3600
      + (r.d + (2 ^ 32 - 1) + get_or mon_to_days (r.mo - 1) 0) * 86400
      + years r.y 70 1 * 31536000
      + years r.y 69 4 * 86400
      + (2 ^ 32 - years r.y 1 100) * 86400
      + (r.y + 299) / 400 * 86400)
    % 2 ^ 32

pub rtc_read : (first : Reading) (more : List Reading) (stb : ℕ) → Option ℕ
unfolding stable to_binary to_24 leap_day to_time
rtc_read first more stb = elim (stable first more) [
  | none ↦ none
  | some r ↦ some (to_time (leap_day (to_24 stb (to_binary stb r))))
]
