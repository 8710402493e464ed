-- ===== src/SiyiCamera/Receiver.antt =====
-- The other end of the SIYI protocol: a receiver that checks the start mark, the length and the CRC
-- of a frame, as the manual of the camera describes. It is the specification that the message
-- functions are held to.
use uav_mission_server.Prelude.{
  ℕ, ◌+◌, ◌-◌, ◌*◌, ◌/◌, ◌%◌, ◌^◌, ◌≡◌, refl, ap, ◌∙◌, arith, Bool, true, ◌&&◌, List, [], ◌∷◌, ◌++◌,
  Option, none, some, length, length-append, get_or, take, drop, leb, ◌==◌, ==_iff, if◌then◌else◌,
}
use uav_mission_server.Crc16.Reference.{crc_reference}
use uav_mission_server.SiyiCamera.Frame.{little_endian, body, frame}

pub record Command : Type 0 where
  pub cmd_id : ℕ
  pub payload : List ℕ

-- A number from two bytes, low byte first.
abbrev pub from_bytes : List ℕ → ℕ
from_bytes bytes = get_or bytes 0 0 + 2 ^ 8 * get_or bytes 1 0

abbrev crc_part : List ℕ → ℕ
crc_part f = length f - 2

pub crc_matches : List ℕ → Bool
crc_matches f = crc_reference 0 (take (crc_part f) f) == from_bytes (drop (crc_part f) f)

pub well_formed : List ℕ → Bool
well_formed f =
    leb 10 (length f)
    && get_or f 0 0 == 0x55
    && get_or f 1 0 == 0x66
    && from_bytes (drop 3 f) + 10 == length f

unfoldable pub receive : List ℕ → Option Command
receive f =
    if well_formed f && crc_matches f
    then some (record { cmd_id = get_or f 7 0; payload = drop 8 (take (crc_part f) f) })
    else none

take-append : {A : Type 0} (xs ys : List A) → take (length xs) (xs ++ ys) ≡ xs
take-append [] ys = refl
take-append (x ∷ xs) ys = ap (◌∷◌ x) (take-append xs ys)

drop-append : {A : Type 0} (xs ys : List A) → drop (length xs) (xs ++ ys) ≡ ys
drop-append [] ys = refl
drop-append (x ∷ xs) ys = drop-append xs ys

crc_part-append : (b : List ℕ) (t u : ℕ) → crc_part (b ++ t ∷ u ∷ []) ≡ length b
crc_part-append b t u = omega (arith, length-append {0} b (t ∷ u ∷ []))

pub crc_matches-append :
    (b : List ℕ) (t u : ℕ) → crc_matches (b ++ t ∷ u ∷ []) ≡ (crc_reference 0 b == t + 2 ^ 8 * u)
unfolding crc_matches
crc_matches-append b t u =
    rw (crc_part-append b t u, take-append b (t ∷ u ∷ []), drop-append b (t ∷ u ∷ []))

pub crc_matches-frame : (cmd_id : ℕ) (payload : List ℕ) → crc_matches (frame cmd_id payload) ≡ true
crc_matches-frame cmd_id payload =
    let c : ℕ = crc_reference 0 (body cmd_id payload) in
    crc_matches-append (body cmd_id payload) (c % 2 ^ 8) (c / 2 ^ 8) ∙ (==_iff _ _).1 (omega arith)

well_formed-frame : (cmd_id : ℕ) (payload : List ℕ) → well_formed (frame cmd_id payload) ≡ true
unfolding well_formed
well_formed-frame cmd_id payload =
    ground
      (arith, length-append {0} payload (little_endian (crc_reference 0 (body cmd_id payload))))

payload_of : List ℕ → List ℕ
payload_of f = drop 8 (take (crc_part f) f)

payload_of-frame : (cmd_id : ℕ) (payload : List ℕ) → payload_of (frame cmd_id payload) ≡ payload
unfolding payload_of
payload_of-frame cmd_id payload =
    let c : ℕ = crc_reference 0 (body cmd_id payload) in
    ap (λ n. drop 8 (take n (frame cmd_id payload)))
      (crc_part-append (body cmd_id payload) (c % 2 ^ 8) (c / 2 ^ 8))
    ∙ ap (drop 8) (take-append (body cmd_id payload) (little_endian c))

-- The receiver takes a frame apart into what it was made of.
pub receive-frame :
    (cmd_id : ℕ) (payload : List ℕ)
    → receive (frame cmd_id payload) ≡ some (record { cmd_id = cmd_id; payload = payload })
unfolding receive payload_of
receive-frame cmd_id payload =
    rw (well_formed-frame cmd_id payload, crc_matches-frame cmd_id payload)
      (ap (λ p. some (record { cmd_id = cmd_id; payload = p })) (payload_of-frame cmd_id payload))
