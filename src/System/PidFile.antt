-- ===== src/System/PidFile.antt =====
-- From the start of a server to its end.
use uav_mission_server.Prelude.{
  ℕ, zero, suc, ◌+◌, ◌-◌, ◌^◌, ◌/◌, ◌%◌, ◌≤◌, ◌<◌, ◌≡◌, ◌≢◌, refl, sym, ap, ◌∙◌, inl, inr, arith,
  Bool-cases, true, false, List, [], ◌∷◌, none, some, length, length-append, ltb, ◌==◌,
}
use uav_mission_server.Prelude.Int.{ℤ, pos, negsuc, ◌≤ℤ◌}
use uav_mission_server.Prelude.Libc.{digits, show_int, atoi}
use uav_mission_server.Prelude.Libc.Decimal.{AllDigits, digits-AllDigits, atoi-show_int}
use uav_mission_server.Prelude.Outcomes.{ok, exited, ◌>>=◌, ok_injective}
use uav_mission_server.System.{
  File, create_pidfile, fgets, parse_line, read_pidfile, delete_pidfile, send_signal, Signal,
  sigint, sigabrt, sigterm, other_signal, ends, sig_handler,
}

-- No end of a line.
abbrev OneLine : List ℕ → Type 0
OneLine [] = Unit {0}
OneLine (c ∷ s) = (11 ≤ c) × OneLine s

digits-OneLine : (s : List ℕ) → AllDigits s → OneLine s
digits-OneLine [] h = tt
digits-OneLine (c ∷ s) (low, high, h) = (omega arith, digits-OneLine s h)

fgets_whole : (n : ℕ) (s : List ℕ) → length s ≤ n → OneLine s → fgets n s ≡ s
unfolding fgets
fgets_whole zero [] h one = refl
fgets_whole zero (c ∷ s) h one = absurd (omega arith)
fgets_whole (suc n) [] h one = refl
fgets_whole (suc n) (c ∷ s) h (above, one) =
    rw (no_end c above) (ap (λ l. c ∷ l) (fgets_whole n s (omega arith) one))
  where
    no_end : (d : ℕ) → 11 ≤ d → (d == 10) ≡ false
    no_end d k = ground arith

length-digits : (fuel n : ℕ) → length (digits fuel n) ≤ fuel + 1
unfolding digits
length-digits zero n = omega arith
length-digits (suc fuel) n = elim (Bool-cases (ltb n 10)) [
  | inl small ↦ rw small (omega arith)
  | inr large ↦ rw large (
      omega (
        arith,
        length-digits fuel (n / 10),
        length-append (digits fuel (n / 10)) ((b'0' + n % 10) ∷ []),
      ))
]

show_int-line : (z : ℤ) → (length (show_int z) ≤ 30) × OneLine (show_int z)
unfolding show_int
show_int-line (pos n) =
    (omega (arith, length-digits 9 n), digits-OneLine (digits 9 n) (digits-AllDigits 9 n))
show_int-line (negsuc n) = (
  omega (arith, length-digits 9 (n + 1)),
  (omega arith, digits-OneLine (digits 9 (n + 1)) (digits-AllDigits 9 (n + 1))),
)

parse_atoi : (s : List ℕ) → length s ≢ 0 → parse_line s ≡ ok (atoi s)
parse_atoi [] h = absurd (h refl)
parse_atoi (c ∷ s) h = refl

length-digits_pos : (fuel n : ℕ) → 0 < length (digits fuel n)
unfolding digits
length-digits_pos zero n = omega arith
length-digits_pos (suc fuel) n = elim (Bool-cases (ltb n 10)) [
  | inl small ↦ rw small (omega arith)
  | inr large ↦
      rw large (omega (arith, length-append (digits fuel (n / 10)) ((b'0' + n % 10) ∷ [])))
]

shown : (z : ℤ) → length (show_int z) ≢ 0
unfolding show_int
shown (pos n) e = omega (arith, length-digits_pos 9 n)
shown (negsuc n) e = omega arith

read-create :
    (pid : ℤ)
    → negsuc (2 ^ 31 - 1) ≤ℤ pid
    → pid ≤ℤ pos (2 ^ 31 - 1)
    → read_pidfile (some (show_int pid)) ≡ ok pid
unfolding read_pidfile
read-create pid lo hi =
    let (short, one) = show_int-line pid in
    ap parse_line (fgets_whole 30 (show_int pid) short one)
    ∙ parse_atoi (show_int pid) (shown pid)
    ∙ ap ok (atoi-show_int pid lo hi)

-- The signals that end the server.
abbrev pub Fatal : Signal → Type 0
Fatal s = s ≢ other_signal

Fatal-sig_handler :
    (s : Signal) (pipe : List ℕ) (file : File)
    → Fatal s
    → sig_handler s pipe file ≡ ends (0 ∷ pipe) none
unfolding sig_handler delete_pidfile
Fatal-sig_handler sigint pipe none h = refl
Fatal-sig_handler sigint pipe (some t) h = refl
Fatal-sig_handler sigabrt pipe none h = refl
Fatal-sig_handler sigabrt pipe (some t) h = refl
Fatal-sig_handler sigterm pipe none h = refl
Fatal-sig_handler sigterm pipe (some t) h = refl
Fatal-sig_handler other_signal pipe file h = absurd (h refl)

-- For every process number that is an `int`, and whatever file was there before: once a server has
-- written its file, a signal is sent to exactly that process, and the file is read back as its
-- number; and the handler of a signal that ends the server writes a byte to the pipe of the shutdown,
-- takes the file away and ends the process. Behind that nothing is read from the file any more.
pub create_pidfile-send_signal :
    (pid signo : ℤ) (s : Signal) (pipe : List ℕ) (before file : File)
    → negsuc (2 ^ 31 - 1) ≤ℤ pid
    → pid ≤ℤ pos (2 ^ 31 - 1)
    → Fatal s
    → create_pidfile true pid before ≡ ok file
    → (read_pidfile file ≡ ok pid)
      × (send_signal signo file ≡ ok (pid, signo))
      × (sig_handler s pipe file ≡ ends (0 ∷ pipe) none)
      × (read_pidfile (delete_pidfile file) ≡ exited)
unfolding create_pidfile send_signal
create_pidfile-send_signal pid signo s pipe before file lo hi fatal e =
    let is : some (show_int pid) ≡ file = ok_injective e in
    let read : read_pidfile file ≡ ok pid = ap read_pidfile (sym is) ∙ read-create pid lo hi in
    (read, ap (λ m. m >>= λ p. ok (p, signo)) read, Fatal-sig_handler s pipe file fatal, gone file)
  where
    gone : (f : File) → read_pidfile (delete_pidfile f) ≡ exited
    gone none = unfold read_pidfile delete_pidfile in refl
    gone (some t) = unfold read_pidfile delete_pidfile in refl
