-- ===== src/UartServer/Text/Times.antt =====
-- The text of a time.
use uav_mission_server.Prelude.{
  ℕ, ◌+◌, ◌≤◌, ◌≡◌, arith, List, ◌∷◌, ◌++◌, some, length, length-append,
}
use uav_mission_server.Prelude.Libc.{digits}
use uav_mission_server.RtspStream.Timestamp.{Tm, padded, IsTime, Fits, length-digits, length-padded}
use uav_mission_server.UartServer.Text.{
  time_size, time_text, strftime, checked_time, current_timestamp_as_string,
}

length-time_text : (sm : Tm) → IsTime sm → length (time_text sm) ≤ 19
unfolding Fits
length-time_text sm h =
    let mday = padded 2 sm.tm_mday in
    let mon = padded 2 (1 + sm.tm_mon) in
    let year = digits 9 (1900 + sm.tm_year) in
    let hour = padded 2 sm.tm_hour in
    let min = padded 2 sm.tm_min in
    let sec = padded 2 sm.tm_sec in
    omega (
      arith,
      length-padded 2 1 sm.tm_mday (omega (arith, h.mday)) (omega arith),
      length-padded 2 1 (1 + sm.tm_mon) (omega (arith, h.mon)) (omega arith),
      length-digits 9 3 (1900 + sm.tm_year) (omega (arith, h.year)),
      length-padded 2 1 sm.tm_hour (omega (arith, h.hour)) (omega arith),
      length-padded 2 1 sm.tm_min (omega (arith, h.min)) (omega arith),
      length-padded 2 1 sm.tm_sec (omega (arith, h.sec)) (omega arith),
      length-append mday
          (b'/' ∷ (mon ++ b'/' ∷ (year ++ b' ' ∷ (hour ++ b':' ∷ (min ++ b':' ∷ sec))))),
      length-append mon (b'/' ∷ (year ++ b' ' ∷ (hour ++ b':' ∷ (min ++ b':' ∷ sec)))),
      length-append year (b' ' ∷ (hour ++ b':' ∷ (min ++ b':' ∷ sec))),
      length-append hour (b':' ∷ (min ++ b':' ∷ sec)),
      length-append min (b':' ∷ sec),
    )

-- Up to the year 9999 the text is written whole, and it is what is given back.
current_timestamp_as_string_whole :
    (sm : Tm) (anything : List ℕ)
    → IsTime sm
    → current_timestamp_as_string (some sm) anything ≡ time_text sm
unfolding current_timestamp_as_string
current_timestamp_as_string_whole sm anything h = go (time_text sm) (length-time_text sm h)
  where
    go : (text : List ℕ) → length text ≤ 19 → checked_time (strftime time_size text anything) ≡ text
    go text le = ground arith

-- The check behind `strftime` never finds a text that did not fit.
current_timestamp_as_string_unchecked :
    (sm : Tm) (anything : List ℕ)
    → current_timestamp_as_string (some sm) anything
      ≡ (strftime time_size (time_text sm) anything).1
unfolding current_timestamp_as_string
current_timestamp_as_string_unchecked sm anything = go (time_text sm)
  where
    go :
        (text : List ℕ)
        → checked_time (strftime time_size text anything) ≡ (strftime time_size text anything).1
    go text = ground arith
