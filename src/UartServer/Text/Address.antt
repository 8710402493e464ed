-- ===== src/UartServer/Text/Address.antt =====
-- Addresses in the log.
use uav_mission_server.Prelude.{
  ℕ, ◌+◌, ◌-◌, ◌*◌, ◌/◌, ◌^◌, ◌≤◌, ◌<◌, ◌≡◌, refl, sym, ap, ◌∙◌, arith, inl, inr, Bool-cases, false,
  List, [], ◌∷◌, ◌++◌, length, length-append, leb, ltb, ◌==◌, if◌then◌else◌,
}
use mathlib.Core.List.{append-nil}
use uav_mission_server.Prelude.Libc.{digits}
use uav_mission_server.Prelude.Libc.Decimal.{AllDigits, value, digits-AllDigits, value-digits}
use uav_mission_server.UartServer.Text.{byte_of, dotted, ip_size, ipaddr_to_string}

-- Reads an address: `done` are the bytes behind, `current` the number that is being read.
abbrev pub read_dotted : ℕ → ℕ → List ℕ → ℕ
read_dotted done current [] = done * 256 + current
read_dotted done current (c ∷ s) =
    read_dotted (if c == b'.' then done * 256 + current else done)
      (if c == b'.' then 0 else current * 10 + (c - b'0')) s

read-digits :
    (done current : ℕ) (a rest : List ℕ)
    → AllDigits a
    → read_dotted done current (a ++ rest) ≡ read_dotted done (value current a) rest
read-digits done current [] rest h = refl
read-digits done current (c ∷ a) rest (low, high, h) =
    ap
      (λ b.
        read_dotted (if b then done * 256 + current else done)
          (if b then 0 else current * 10 + (c - b'0')) (a ++ rest))
      (no_dot c low)
    ∙ read-digits done (current * 10 + (c - b'0')) a rest h
  where
    no_dot : (d : ℕ) → b'0' ≤ d → (d == b'.') ≡ false
    no_dot d k = ground arith

read_part :
    (done n : ℕ) (rest : List ℕ)
    → n < 256
    → read_dotted done 0 (digits 9 n ++ b'.' ∷ rest) ≡ read_dotted (done * 256 + n) 0 rest
read_part done n rest h =
    read-digits done 0 (digits 9 n) (b'.' ∷ rest) (digits-AllDigits 9 n)
    ∙ ap (λ v. read_dotted (done * 256 + v) 0 rest) (value-digits 9 n (omega arith))

read_last : (done n : ℕ) → n < 256 → read_dotted done 0 (digits 9 n) ≡ done * 256 + n
read_last done n h =
    ap (read_dotted done 0) (sym (append-nil (digits 9 n)))
    ∙ read-digits done 0 (digits 9 n) [] (digits-AllDigits 9 n)
    ∙ ap (λ v. done * 256 + v) (value-digits 9 n (omega arith))

length-byte : (n : ℕ) → n < 256 → length (digits 9 n) ≤ 3
unfolding digits
length-byte n h = elim (Bool-cases (ltb n 10)) [
  | inl one ↦ rw one (omega arith)
  | inr more ↦ rw more (elim (Bool-cases (ltb (n / 10) 10)) [
    | inl two ↦ rw two (omega arith)
    | inr three ↦ rw three (ground arith)
  ])
]

byte-lt : (addr k : ℕ) → byte_of addr k < 256
byte-lt addr k = omega arith

length-dotted : (addr : ℕ) → length (dotted addr) ≤ 15
length-dotted addr =
    let a = digits 9 (byte_of addr 3) in
    let b = digits 9 (byte_of addr 2) in
    let c = digits 9 (byte_of addr 1) in
    let d = digits 9 (byte_of addr 0) in
    omega (
      arith,
      length-byte (byte_of addr 3) (byte-lt addr 3),
      length-byte (byte_of addr 2) (byte-lt addr 2),
      length-byte (byte_of addr 1) (byte-lt addr 1),
      length-byte (byte_of addr 0) (byte-lt addr 0),
      length-append a (b'.' ∷ (b ++ b'.' ∷ (c ++ b'.' ∷ d))),
      length-append b (b'.' ∷ (c ++ b'.' ∷ d)),
      length-append c (b'.' ∷ d),
    )

read-dotted : (addr : ℕ) → addr < 2 ^ 32 → read_dotted 0 0 (dotted addr) ≡ addr
read-dotted addr h =
    read_part 0 (byte_of addr 3) _ (byte-lt addr 3)
    ∙ read_part (0 * 256 + byte_of addr 3) (byte_of addr 2) _ (byte-lt addr 2)
    ∙ read_part ((0 * 256 + byte_of addr 3) * 256 + byte_of addr 2) (byte_of addr 1) _
        (byte-lt addr 1)
    ∙ read_last (((0 * 256 + byte_of addr 3) * 256 + byte_of addr 2) * 256 + byte_of addr 1)
        (byte_of addr 0) (byte-lt addr 0)
    ∙ omega arith

-- Every IPv4 address is printed in its buffer, with at most fifteen characters and never as unknown,
-- and the address is read back from the text, so that no two clients' addresses look the same.
pub ipaddr_to_string-read_dotted :
    (addr : ℕ)
    → addr < 2 ^ 32
    → (length (ipaddr_to_string addr) < ip_size) × (read_dotted 0 0 (ipaddr_to_string addr) ≡ addr)
unfolding ipaddr_to_string
ipaddr_to_string-read_dotted addr h =
    rw (fits (length (dotted addr)) (length-dotted addr))
      (omega (arith, length-dotted addr), read-dotted addr h)
  where
    fits : (n : ℕ) → n ≤ 15 → leb ip_size n ≡ false
    fits n k = ground arith
