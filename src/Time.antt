-- ===== src/Time.antt =====
-- Timestamps: milliseconds since 1970, and `Date.prototype.toISOString`.
use parimit.Common.{
  ℕ, zero, suc, ◌+◌, ◌-◌, ◌*◌, ◌/◌, ◌%◌, ◌^◌, ◌≡◌, refl, [], ◌∷◌, ◌++◌, ltb, leb, if◌then◌else◌,
  Option, none, some,
}
use parimit.Text.{Text, lit, text_eq}

-- `setUTCHours(0, 0, 0, 0)`.
unfoldable pub start_of_day : ℕ → ℕ
start_of_day ms = ms - ms % 86400000

-- The last `w` decimal digits of `n`.
padded : ℕ → ℕ → Text
padded zero n = []
padded (suc w) n = padded w (n / 10) ++ (b'0' + n % 10) ∷ []

-- The proleptic Gregorian date of a day counted from 1970-01-01, in years that begin in March.
date_text : ℕ → Text
unfolding padded
date_text days =
    let z = days + 719468 in
    let doe = z % 146097 in
    let yoe = (doe - doe / 1460 + doe / 36524 - doe / 146096) / 365 in
    let doy = doe - (365 * yoe + yoe / 4 - yoe / 100) in
    let mp = (5 * doy + 2) / 153 in
    let day = doy - (153 * mp + 2) / 5 + 1 in
    let month = (if ltb mp 10 then mp + 3 else mp - 9) in
    let year = yoe + z / 146097 * 400 + (if leb month 2 then 1 else 0) in
    padded 4 year ++ b'-' ∷ padded 2 month ++ b'-' ∷ padded 2 day

-- `toISOString` for the years 1970 to 9999.
unfoldable pub to_iso_string : ℕ → Text
unfolding date_text
to_iso_string ms =
    date_text (ms / 86400000)
    ++ b'T' ∷ padded 2 (ms / 3600000 % 24)
    ++ b':' ∷ padded 2 (ms / 60000 % 60)
    ++ b':' ∷ padded 2 (ms / 1000 % 60)
    ++ b'.' ∷ padded 3 (ms % 1000)
    ++ b'Z' ∷ []

-- The number that `s` has from place `at` on, `w` digits long.
digits_at : ℕ → ℕ → Text → ℕ
digits_at zero zero s = 0
digits_at zero (suc w) [] = 0
digits_at zero (suc w) (c ∷ s) = (c - b'0') * 10 ^ w + digits_at zero w s
digits_at (suc at) w [] = 0
digits_at (suc at) w (c ∷ s) = digits_at at w s

-- The day counted from 1970-01-01 of a date in the proleptic Gregorian calendar.
day_of : ℕ → ℕ → ℕ → ℕ
day_of year month day =
    let y = (if leb month 2 then year - 1 else year) in
    let mp = (if leb month 2 then month + 9 else month - 3) in
    let yoe = y % 400 in
    let doy = (153 * mp + 2) / 5 + day - 1 in
    y / 400 * 146097 + yoe * 365 + yoe / 4 - yoe / 100 + doy - 719468

-- The time that a text of the format of `toISOString` stands for.
time_of : Text → ℕ
unfolding digits_at day_of
time_of s =
    day_of (digits_at 0 4 s) (digits_at 5 2 s) (digits_at 8 2 s) * 86400000
    + digits_at 11 2 s * 3600000
    + digits_at 14 2 s * 60000
    + digits_at 17 2 s * 1000
    + digits_at 20 3 s

-- `isCanonicalTimestamp`, with the time: the text must be what `toISOString` prints.
unfoldable pub canonical_time : Text → Option ℕ
unfolding time_of
canonical_time s = if text_eq (to_iso_string (time_of s)) s then some (time_of s) else none

canonical_time_leap_day : canonical_time (lit "2024-02-29T12:30:45.067Z") ≡ some 1709209845067
unfolding canonical_time to_iso_string text_eq lit
canonical_time_leap_day = refl

canonical_time_no_day : canonical_time (lit "2023-02-29T12:30:45.067Z") ≡ none
unfolding canonical_time to_iso_string text_eq lit
canonical_time_no_day = refl

to_iso_string_leap_day : to_iso_string 1709209845067 ≡ lit "2024-02-29T12:30:45.067Z"
unfolding to_iso_string lit
to_iso_string_leap_day = refl
