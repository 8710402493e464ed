-- ===== src/SiyiCamera/Delivery.antt =====
-- What the messages of siyi_camera.c are to the receiver at the camera.
use mathlib.Core.Path.{subst}
use uav_mission_server.Prelude.{
  ℕ, ◌+◌, ◌-◌, ◌*◌, ◌^◌, ◌<◌, ◌≡◌, ◌≢◌, refl, sym, ap, ◌∙◌, arith, true, false, List, [], ◌∷◌, ◌++◌,
  Option, none, some, some_injective, length, drop, ltb, ==_iff, Bool-cases, inl, inr,
  if◌then◌else◌,
}
use uav_mission_server.Prelude.Int.{word-lt, ℤ, pos, negsuc, ◌≤ℤ◌, word}
use uav_mission_server.Crc16.Reference.{crc_reference}
use uav_mission_server.Crc16.Correct.{IsBytes}
use uav_mission_server.Crc16.Detects.{crc_reference-lt, crc_reference_detects}
use uav_mission_server.SiyiCamera.{
  siyi_cam_manual_zoom, siyi_cam_gimbal_rotate_speed, siyi_cam_gimbal_rotate,
  siyi_cam_gimbal_centering,
}
use uav_mission_server.SiyiCamera.Frame.{little_endian, body, frame}
use uav_mission_server.SiyiCamera.Layout.{
  siyi_cam_manual_zoom-frame, siyi_cam_gimbal_rotate_speed-frame, siyi_cam_gimbal_rotate-frame,
  siyi_cam_gimbal_centering-frame,
}
use uav_mission_server.SiyiCamera.Receiver.{
  Command, from_bytes, receive, crc_matches, crc_matches-append, crc_matches-frame, receive-frame,
}

-- What was sent is accepted as the given command with the given data.
unfoldable pub Delivers : Option (List ℕ) → ℕ → List ℕ → Type 0
Delivers sent cmd_id payload =
    (f : List ℕ) × (sent ≡ some f)
    × (receive f ≡ some (record { cmd_id = cmd_id; payload = payload }))

-- The angle in two bytes, as an `int16_t`.
abbrev pub signed16 : ℕ → ℤ
signed16 w = if ltb w (2 ^ 15) then pos w else negsuc (2 ^ 16 - w - 1)

pub signed16-word :
    (z : ℤ) → negsuc (2 ^ 15 - 1) ≤ℤ z → z ≤ℤ pos (2 ^ 15 - 1) → signed16 (word 16 z) ≡ z
signed16-word (pos n) lo hi = ground arith
signed16-word (negsuc n) lo hi = ground arith

-- Every pair of angles that fits `int16_t` reaches the camera: the message for it is sent without
-- an access outside its buffer, the receiver accepts it as command 0x0e, and reads back from its
-- four data bytes the same yaw and pitch.
pub siyi_cam_gimbal_rotate-receive :
    (yaw pitch : ℤ)
    → negsuc (2 ^ 15 - 1) ≤ℤ yaw
    → yaw ≤ℤ pos (2 ^ 15 - 1)
    → negsuc (2 ^ 15 - 1) ≤ℤ pitch
    → pitch ≤ℤ pos (2 ^ 15 - 1)
    → (f : List ℕ) × (c : Command) × (siyi_cam_gimbal_rotate yaw pitch ≡ some f)
      × (receive f ≡ some c)
      × (c.cmd_id ≡ 0x0e)
      × (length c.payload ≡ 4)
      × (signed16 (from_bytes c.payload) ≡ yaw)
      × (signed16 (from_bytes (drop 2 c.payload)) ≡ pitch)
siyi_cam_gimbal_rotate-receive yaw pitch yl yh pl ph =
    let p : List ℕ = little_endian (word 16 yaw) ++ little_endian (word 16 pitch) in
    (
      frame 0x0e p,
      record { cmd_id = 0x0e; payload = p },
      siyi_cam_gimbal_rotate-frame yaw pitch,
      receive-frame 0x0e p,
      refl,
      refl,
      ap signed16 (omega arith) ∙ signed16-word yaw yl yh,
      ap signed16 (omega arith) ∙ signed16-word pitch pl ph,
    )

accepted_matches : (f : List ℕ) (c : Command) → receive f ≡ some c → crc_matches f ≡ true
unfolding receive
accepted_matches f c h = ground arith

-- A sent body with one byte replaced no longer matches the CRC behind it.
altered_body :
    (front : List ℕ) (a b : ℕ) (back : List ℕ) (t u : ℕ)
    → IsBytes front
    → a < 2 ^ 8
    → b < 2 ^ 8
    → IsBytes back
    → a ≢ b
    → crc_matches ((front ++ a ∷ back) ++ t ∷ u ∷ []) ≡ true
    → crc_matches ((front ++ b ∷ back) ++ t ∷ u ∷ []) ≡ false
altered_body front a b back t u hf ha hb hr ne h =
    elim (Bool-cases (crc_matches ((front ++ b ∷ back) ++ t ∷ u ∷ []))) [
      | inl matches ↦ absurd (
          ne (
            crc_reference_detects 0 front a b back (omega arith) hf ha hb hr
              (value a h ∙ sym (value b matches))))
      | inr differs ↦ differs
    ]
  where
    value :
        (x : ℕ)
        → crc_matches ((front ++ x ∷ back) ++ t ∷ u ∷ []) ≡ true
        → crc_reference 0 (front ++ x ∷ back) ≡ t + 2 ^ 8 * u
    value x e = (==_iff _ _).0 (sym (crc_matches-append (front ++ x ∷ back) t u) ∙ e)

IsBytes-append : (xs ys : List ℕ) → IsBytes xs → IsBytes ys → IsBytes (xs ++ ys)
IsBytes-append [] ys hx hy = hy
IsBytes-append (x ∷ xs) ys hx hy = (hx.0, IsBytes-append xs ys hx.1 hy)

IsBytes-split : (xs ys : List ℕ) → IsBytes (xs ++ ys) → IsBytes xs × IsBytes ys
IsBytes-split [] ys h = (tt, h)
IsBytes-split (x ∷ xs) ys h = let (l, r) = IsBytes-split xs ys h.1 in ((h.0, l), r)

IsBytes-frame :
    (cmd_id : ℕ) (payload : List ℕ) → IsBytes (body cmd_id payload) → IsBytes (frame cmd_id payload)
IsBytes-frame cmd_id payload h =
    IsBytes-append (body cmd_id payload) (little_endian (crc_reference 0 (body cmd_id payload))) h
      (omega (arith, crc_reference-lt 0 (body cmd_id payload) (omega arith) h))

frame_tampered :
    (cmd_id : ℕ) (payload front : List ℕ) (a b : ℕ) (back : List ℕ) (t u : ℕ)
    → IsBytes (body cmd_id payload)
    → b < 2 ^ 8
    → a ≢ b
    → frame cmd_id payload ≡ (front ++ a ∷ back) ++ t ∷ u ∷ []
    → receive ((front ++ b ∷ back) ++ t ∷ u ∷ []) ≡ none
unfolding receive
frame_tampered cmd_id payload front a b back t u h hb ne e =
    let sent : IsBytes ((front ++ a ∷ back) ++ t ∷ u ∷ []) =
      subst IsBytes e (IsBytes-frame cmd_id payload h) in
    let (hf, ha) = IsBytes-split front (a ∷ back) (IsBytes-split (front ++ a ∷ back) _ sent).0 in
    let matches : crc_matches ((front ++ a ∷ back) ++ t ∷ u ∷ []) ≡ true =
      sym (ap crc_matches e) ∙ crc_matches-frame cmd_id payload in
    ground (arith, altered_body front a b back t u hf ha.0 hb ha.1 ne matches)

-- If the message for a pair of angles reaches the camera with one byte before the CRC replaced by
-- another byte, the receiver rejects it.
siyi_cam_gimbal_rotate_tampered :
    (yaw pitch : ℤ) (front : List ℕ) (a b : ℕ) (back : List ℕ) (t u : ℕ)
    → siyi_cam_gimbal_rotate yaw pitch ≡ some ((front ++ a ∷ back) ++ t ∷ u ∷ [])
    → b < 2 ^ 8
    → a ≢ b
    → receive ((front ++ b ∷ back) ++ t ∷ u ∷ []) ≡ none
siyi_cam_gimbal_rotate_tampered yaw pitch front a b back t u sent hb ne =
    let p : List ℕ = little_endian (word 16 yaw) ++ little_endian (word 16 pitch) in
    frame_tampered 0x0e p front a b back t u
      (omega (arith, word-lt 16 yaw (omega arith), word-lt 16 pitch (omega arith))) hb ne
      (some_injective (sym (siyi_cam_gimbal_rotate-frame yaw pitch) ∙ sent))

-- The receiver accepts every zoom request for the ratio that was asked for, every rotation speed
-- as the two bytes of its arguments, and the centering message as the request to centre.
pub messages-receive :
    (zoom_integer zoom_decimal : ℕ) (yaw pitch : ℤ)
    → zoom_integer < 2 ^ 8
    → zoom_decimal < 2 ^ 8
    → Delivers
        (siyi_cam_manual_zoom zoom_integer zoom_decimal)
        0x0f
        (zoom_integer ∷ zoom_decimal ∷ [])
      × Delivers (siyi_cam_gimbal_rotate_speed yaw pitch) 0x07 (word 8 yaw ∷ word 8 pitch ∷ [])
      × Delivers siyi_cam_gimbal_centering 0x08 (1 ∷ [])
unfolding Delivers
messages-receive zi zd yaw pitch hi hd = (
  (frame 0x0f (zi ∷ zd ∷ []), siyi_cam_manual_zoom-frame zi zd hi hd, receive-frame 0x0f _),
  (
    frame 0x07 (word 8 yaw ∷ word 8 pitch ∷ []),
    siyi_cam_gimbal_rotate_speed-frame yaw pitch,
    receive-frame 0x07 _,
  ),
  (frame 0x08 (1 ∷ []), siyi_cam_gimbal_centering-frame, receive-frame 0x08 _),
)
