-- ===== src/Rfc3339.antt =====
-- `time.Time` as encoding/json writes and reads it: RFC 3339 with the fraction of the second. An
-- instant is a number of nanoseconds since 1970. Texts are written in UTC, for the years 0 to 9999.
-- (The leniencies of `time.Parse`, an hour of one digit or a comma before the fraction, are not
-- read.)
use lockping_agent.Prelude.{
  ℕ, zero, suc, ◌+◌, ◌-◌, ◌*◌, ◌/◌, ◌%◌, Bool, not, ◌&&◌, ◌||◌, [], ◌∷◌, ◌++◌, Option, none, some,
  ◌≡◌, refl, Bytes, codes, ltb, leb, ◌==◌, if◌then◌else◌,
}
use lockping_agent.Prelude.Int.{ℤ, pos, negsuc, pos_part, sub_ℕ, ◌+ℤ◌, ◌-ℤ◌, scale}
use lockping_agent.Utf8.{in_range}

abbrev second : ℕ
second = 1000000000

abbrev day : ℕ
day = 86400 * second

-- From the first of March of the year 0 to 1970.
abbrev epoch : ℕ
epoch = 719468

infixl 5 ◌>>=◌
abbrev ◌>>=◌ : {A B : Type 0} → Option A → (A → Option B) → Option B
none >>= f = none
some a >>= f = f a

-- `time.Time{}`: the beginning of the year 1.
abbrev pub zero_time : ℤ
zero_time = negsuc 62135596799999999999

abbrev Civil : Type 0
Civil = ℕ × (ℕ × ℕ)

-- The year, month and day so many days after the first of March of the year 0; a year is taken
-- from March on, in an era of 400 years.
civil : ℕ → Civil
civil z =
    let of_era = z % 146097 in
    let year = (of_era - of_era / 1460 + of_era / 36524 - of_era / 146096) / 365 in
    let of_year = of_era - (365 * year + year / 4 - year / 100) in
    let month = (5 * of_year + 2) / 153 in
    let y = year + z / 146097 * 400 in
    let d = of_year - (153 * month + 2) / 5 + 1 in
    if ltb month 10 then (y, (month + 3, d)) else (y + 1, (month - 9, d))

days_before : ℕ → ℕ → ℕ → ℕ
days_before y month d = 365 * y + y / 4 - y / 100 + y / 400 + (153 * month + 2) / 5 + (d - 1)

-- The other way, from the year 0 on; an era earlier for the two months before that March.
days_of : Civil → ℤ
days_of (y, (m, d)) =
    if leb m 2
    then sub_ℕ (days_before (y + 399) (m + 9) d) 146097
    else pos (days_before y (m - 3) d)

is_leap : ℕ → Bool
is_leap y = y % 4 == 0 && (not (y % 100 == 0) || y % 400 == 0)

days_in : ℕ → ℕ → ℕ
days_in y m =
    if m == 2
    then (if is_leap y then 29 else 28)
    else if m == 4 || m == 6 || m == 9 || m == 11
    then 30
    else 31

pad : ℕ → ℕ → Bytes
pad zero n = []
pad (suc w) n = pad w (n / 10) ++ (b'0' + n % 10) ∷ []

-- At most `w` digits of the fraction, without the zeros at its end.
fraction : ℕ → ℕ → Bytes
fraction zero n = []
fraction (suc w) n =
    let shorter = fraction w (n / 10) in if n % 10 == 0 then shorter else b'.' ∷ pad (suc w) n

clock : ℕ → Bytes
clock secs = pad 2 (secs / 3600) ++ (b':' ∷ pad 2 (secs / 60 % 60) ++ (b':' ∷ pad 2 (secs % 60)))

date_text : Civil → Bytes
date_text (y, (m, d)) = pad 4 y ++ (b'-' ∷ pad 2 m ++ (b'-' ∷ pad 2 d))

-- `MarshalJSON`, without the quotes.
unfoldable pub format_time : ℤ → Bytes
unfolding civil pad fraction clock date_text ◌+ℤ◌
format_time t =
    let n = pos_part (t +ℤ pos (epoch * day)) in
    let rest = n % day in
    date_text (civil (n / day))
    ++ (b'T' ∷ clock (rest / second) ++ (fraction 9 (rest % second) ++ b'Z' ∷ []))

is_digit : ℕ → Bool
is_digit c = in_range b'0' b'9' c

-- A number of `w` digits, behind `n`.
number : ℕ → ℕ → Bytes → Option (ℕ × Bytes)
number zero n s = some (n, s)
number (suc w) n [] = none
number (suc w) n (c ∷ s) =
    let rest = number w (n * 10 + (c - b'0')) s in if is_digit c then rest else none

expect : ℕ → Bytes → Option Bytes
expect b [] = none
expect b (c ∷ s) = if c == b then some s else none

-- A number of two digits, from `lo` to `hi`, behind the byte `b`.
part : ℕ → ℕ → ℕ → Bytes → Option (ℕ × Bytes)
part b lo hi s = do
  s' ← expect b s
  (n, rest) ← number 2 0 s'
  if in_range lo hi n then some (n, rest) else none

date_of : Bytes → Option (Civil × Bytes)
date_of s = do
  (y, s1) ← number 4 0 s
  (m, s2) ← part b'-' 1 12 s1
  (d, s3) ← part b'-' 1 (days_in y m) s2
  some ((y, (m, d)), s3)

clock_of : Bytes → Option (ℕ × Bytes)
clock_of s = do
  (h, s1) ← part b'T' 0 23 s
  (m, s2) ← part b':' 0 59 s1
  (sec, s3) ← part b':' 0 59 s2
  some (h * 3600 + m * 60 + sec, s3)

-- The digits of a fraction: nine count, and the others are passed over.
fraction_digits : ℕ → ℕ → Bytes → ℕ × Bytes
fraction_digits unit n [] = (n, [])
fraction_digits unit n (c ∷ s) =
    let rest = fraction_digits (unit / 10) (n + unit * (c - b'0')) s in
    if is_digit c then rest else (n, c ∷ s)

fraction_of : Bytes → ℕ × Bytes
fraction_of (point ∷ c ∷ s) =
    if point == b'.' && is_digit c then fraction_digits 100000000 0 (c ∷ s) else (0, point ∷ c ∷ s)
fraction_of s = (0, s)

-- The zone at the end, in seconds east of UTC.
zone_of : Bytes → Option ℤ
zone_of [] = none
zone_of (c ∷ []) = if c == b'Z' then some (pos 0) else none
zone_of (c ∷ s) = do
  (h, s1) ← part c 0 24 (c ∷ s)
  (m, s2) ← part b':' 0 60 s1
  if c == b'+'
      then ended s2 (pos ((h * 60 + m) * 60))
      else if c == b'-'
      then ended s2 (sub_ℕ 0 ((h * 60 + m) * 60))
      else none
  where
    ended : Bytes → ℤ → Option ℤ
    ended [] z = some z
    ended (_ ∷ _) z = none

-- `UnmarshalJSON`, without the quotes.
unfoldable pub parse_time : Bytes → Option ℤ
unfolding date_of clock_of fraction_of zone_of days_of number part expect days_in is_leap
    days_before fraction_digits is_digit ◌+ℤ◌ ◌-ℤ◌ scale
parse_time s = do
  (date, s1) ← date_of s
  (secs, s2) ← clock_of s1
  let (nanos, s3) = fraction_of s2
  zone ← zone_of s3
  some (scale second (scale 86400 (days_of date -ℤ pos epoch) +ℤ (pos secs -ℤ zone)) +ℤ pos nanos)

zero_text : format_time zero_time ≡ codes "0001-01-01T00:00:00Z"
unfolding format_time
zero_text = refl

zero_read : parse_time (codes "0001-01-01T00:00:00Z") ≡ some zero_time
unfolding parse_time
zero_read = refl

leap_day : format_time (pos 1709210096000500000) ≡ codes "2024-02-29T12:34:56.0005Z"
unfolding format_time
leap_day = refl

zone_read : parse_time (codes "2024-02-29T14:34:56.0005+02:00") ≡ some (pos 1709210096000500000)
unfolding parse_time
zone_read = refl

no_such_day : parse_time (codes "2023-02-29T12:34:56Z") ≡ none
unfolding parse_time
no_such_day = refl
