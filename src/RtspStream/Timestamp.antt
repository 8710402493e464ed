-- ===== src/RtspStream/Timestamp.antt =====
-- `generate_timestamp` of src/rtsp_stream.c.
use uav_mission_server.Prelude.{
  ℕ, zero, suc, ◌+◌, ◌-◌, ◌/◌, ◌%◌, ◌≤◌, ◌<◌, ◌≡◌, ◌∙◌, arith, List, [], ◌∷◌, ◌++◌, Option, none,
  some, length, length-append, length-replicate, replicate, ltb, lt→ltb, Bool-cases, inl, inr,
  if◌then◌else◌,
}
use uav_mission_server.Prelude.Libc.{digits}

-- `struct tm`, as `localtime` fills it.
pub record Tm : Type 0 where
  pub tm_year : ℕ
  pub tm_mon : ℕ
  pub tm_mday : ℕ
  pub tm_hour : ℕ
  pub tm_min : ℕ
  pub tm_sec : ℕ

-- `%0wd`: an `int` has ten digits at most.
abbrev pub padded : ℕ → ℕ → List ℕ
padded w n = replicate (w - length (digits 9 n)) b'0' ++ digits 9 n

-- `sprintf` into `timestamp`, which has 15 bytes; `none` is a write behind it.
unfoldable pub generate_timestamp : Tm → Option (List ℕ)
generate_timestamp now =
    let text : List ℕ =
      padded 4 (1900 + now.tm_year)
      ++ padded 2 (1 + now.tm_mon)
      ++ padded 2 now.tm_mday
      ++ padded 2 now.tm_hour
      ++ padded 2 now.tm_min
      ++ padded 2 now.tm_sec in
    if ltb (length text) 15 then some text else none

-- The ranges that the C library documents, and a year of four digits.
pub record IsTime (now : Tm) : Type 0 where
  pub year : 1900 + now.tm_year ≤ 9999
  pub mon : now.tm_mon ≤ 11
  pub mday : now.tm_mday ≤ 31
  pub hour : now.tm_hour ≤ 23
  pub min : now.tm_min ≤ 59
  pub sec : now.tm_sec ≤ 60

-- At most k + 1 digits.
unfoldable pub Fits : ℕ → ℕ → Type 0
Fits zero n = n < 10
Fits (suc k) n = Fits k (n / 10)

pub length-digits : (fuel k n : ℕ) → Fits k n → length (digits fuel n) ≤ suc k
unfolding digits Fits
length-digits zero k n h = omega arith
length-digits (suc fuel) zero n h = rw (lt→ltb n 10 h) (omega arith)
length-digits (suc fuel) (suc k) n h = elim (Bool-cases (ltb n 10)) [
  | inl small ↦ rw small (omega arith)
  | inr large ↦ rw large (
      omega (
        arith,
        length-digits fuel k (n / 10) h,
        length-append (digits fuel (n / 10)) ((b'0' + n % 10) ∷ []),
      ))
]

pub length-padded : (w k n : ℕ) → Fits k n → suc k ≤ w → length (padded w n) ≡ w
length-padded w k n h le = omega (
  arith,
  length-digits 9 k n h,
  length-append (replicate (w - length (digits 9 n)) b'0') (digits 9 n),
  length-replicate {A = ℕ} (w - length (digits 9 n)) b'0',
)

abbrev text_of : Tm → List ℕ
text_of now =
    padded 4 (1900 + now.tm_year)
    ++ padded 2 (1 + now.tm_mon)
    ++ padded 2 now.tm_mday
    ++ padded 2 now.tm_hour
    ++ padded 2 now.tm_min
    ++ padded 2 now.tm_sec

length-joined :
    (a b c d e f : List ℕ)
    → length (a ++ b ++ c ++ d ++ e ++ f)
      ≡ length a + (length b + (length c + (length d + (length e + length f))))
length-joined a b c d e f = omega (
  arith,
  length-append a b,
  length-append (a ++ b) c,
  length-append (a ++ b ++ c) d,
  length-append (a ++ b ++ c ++ d) e,
  length-append (a ++ b ++ c ++ d ++ e) f,
)

length-text : (now : Tm) → IsTime now → length (text_of now) ≡ 14
unfolding Fits
length-text now h =
    let y = length-padded 4 3 (1900 + now.tm_year) (omega (arith, h.year)) (omega arith) in
    let mo = length-padded 2 1 (1 + now.tm_mon) (omega (arith, h.mon)) (omega arith) in
    let d = length-padded 2 1 now.tm_mday (omega (arith, h.mday)) (omega arith) in
    let ho = length-padded 2 1 now.tm_hour (omega (arith, h.hour)) (omega arith) in
    let mi = length-padded 2 1 now.tm_min (omega (arith, h.min)) (omega arith) in
    let se = length-padded 2 1 now.tm_sec (omega (arith, h.sec)) (omega arith) in
    length-joined (padded 4 (1900 + now.tm_year)) (padded 2 (1 + now.tm_mon)) (padded 2 now.tm_mday)
      (padded 2 now.tm_hour) (padded 2 now.tm_min) (padded 2 now.tm_sec)
    ∙ omega (arith, y, mo, d, ho, mi, se)

-- Up to the year 9999 the timestamp has the 14 characters that the buffer is made for, and the NUL
-- fits behind them.
pub generate_timestamp_fits :
    (now : Tm)
    → IsTime now
    → (text : List ℕ) × (generate_timestamp now ≡ some text) × (length text ≡ 14)
unfolding generate_timestamp
generate_timestamp_fits now h = (text_of now, ground (arith, length-text now h), length-text now h)
