-- ===== src/MavlinkReceiver/Angles.antt =====
-- The angles that the sticks turn the gimbal to, and buttons that are read for the first time.
use uav_mission_server.Prelude.{
  ℕ, ◌≡◌, refl, ap, ◌∙◌, arith, true, false, ◌==◌, Bool-cases, inl, inr,
}
use uav_mission_server.Prelude.Int.{ℤ, pos, negsuc, ltb_ℤ, ◌≤ℤ◌}
use uav_mission_server.Prelude.Outcomes.{ok}
use uav_mission_server.SiyiCamera.Operations.{World}
use uav_mission_server.Config.Rc.{ConfigRc}
use uav_mission_server.MavlinkReceiver.{RcChannels, Fcu}
use uav_mission_server.MavlinkReceiver.Rc.{
  Floats, Sticks, at_rest, or_now, bound_float, initialized, steer, snapshot, record_button,
}

-- The whole numbers that `float` holds exactly, as far as they are used.
abbrev pub Exact : ℤ → Type 0
Exact a = (negsuc 1023 ≤ℤ a) × (a ≤ℤ pos 1024)

-- What is used of `float`: these numbers are ordered as they are.
pub record Ordered (F : Floats) : Type 0 where
  pub lt_of_int : (a b : ℤ) → Exact a → Exact b → F.lt (F.of_int a) (F.of_int b) ≡ ltb_ℤ a b

-- Neither below the one nor above the other.
abbrev pub Within : (F : Floats) → ℤ → ℤ → F.Number → Type 0
Within F low high x = (F.lt x (F.of_int low) ≡ false) × (F.lt (F.of_int high) x ≡ false)

module _ (F : Floats) (laws : Ordered F) where
  bound_float-Within :
      (x : F.Number) (low high : ℤ)
      → Exact low
      → Exact high
      → ltb_ℤ high low ≡ false
      → ltb_ℤ low low ≡ false
      → ltb_ℤ high high ≡ false
      → Within F low high (bound_float F x (F.of_int high) (F.of_int low))
  bound_float-Within x low high el eh order l h = elim (Bool-cases (F.lt (F.of_int high) x)) [
    | inl above ↦
        rw above (laws.lt_of_int high low eh el ∙ order, laws.lt_of_int high high eh eh ∙ h)
    | inr fine ↦ elim (Bool-cases (F.lt x (F.of_int low))) [
      | inl below ↦
          rw (fine, below) (laws.lt_of_int low low el el ∙ l, laws.lt_of_int high low eh el ∙ order)
      | inr fine' ↦ rw (fine, fine') (fine', fine)
    ]
  ]

  -- However the sticks, the button and the configuration are, and wherever the angles were: the yaw
  -- is kept between -135 and 135 degrees, and the pitch between -90 and 25.
  pub steer-Within :
      (yaw pitch : ConfigRc) (rc : RcChannels) (s : Sticks F)
      → Within F (negsuc 134) (pos 135) (steer F yaw pitch rc s).cam_yaw
        × Within F (negsuc 89) (pos 25) (steer F yaw pitch rc s).cam_pitch
  unfolding steer
  steer-Within yaw pitch rc s =
      elim (Bool-cases (rc.chan5_raw == (initialized F rc s).button_a_last)) [
        | inl same ↦ rw same (
          bound_float-Within _ (negsuc 134) (pos 135) (omega arith, omega arith)
              (omega arith, omega arith) refl refl refl,
          bound_float-Within _ (negsuc 89) (pos 25) (omega arith, omega arith)
              (omega arith, omega arith) refl refl refl,
        )
        | inr clicked ↦ rw clicked (
          (
            laws.lt_of_int (pos 0) (negsuc 134) (omega arith, omega arith)
                (omega arith, omega arith),
            laws.lt_of_int (pos 135) (pos 0) (omega arith, omega arith) (omega arith, omega arith),
          ),
          (
            laws.lt_of_int (pos 0) (negsuc 89) (omega arith, omega arith)
                (omega arith, omega arith),
            laws.lt_of_int (pos 25) (pos 0) (omega arith, omega arith) (omega arith, omega arith),
          ),
        )
      ]

first_value : (now : ℕ) → (now == or_now 0 now) ≡ true
first_value now = ground arith

steer-buttons :
    (F : Floats) (yaw pitch : ConfigRc) (rc : RcChannels) (s : Sticks F)
    → ((steer F yaw pitch rc s).button_snapshot_last ≡ or_now s.button_snapshot_last rc.chan13_raw)
      × ((steer F yaw pitch rc s).record_last ≡ or_now s.record_last rc.chan14_raw)
unfolding steer
steer-buttons F yaw pitch rc s =
    elim (Bool-cases (rc.chan5_raw == (initialized F rc s).button_a_last)) [
      | inl same ↦ rw same (refl, refl)
      | inr clicked ↦ rw clicked (refl, refl)
    ]

module _ (F : Floats) (w : World) where
  snapshot_same :
      (rc : RcChannels) (s : Sticks F) (fcu : Fcu)
      → (rc.chan13_raw == s.button_snapshot_last) ≡ true
      → snapshot F w rc (s, fcu) ≡ ok (s, fcu)
  unfolding snapshot
  snapshot_same rc s fcu h = rw h refl

  record_button_same :
      (rc : RcChannels) (s : Sticks F) (fcu : Fcu)
      → (rc.chan14_raw == s.record_last) ≡ true
      → record_button F w rc (s, fcu) ≡ ok (s, fcu)
  unfolding record_button
  record_button_same rc s fcu h = rw h refl

  -- The first message after the start neither saves an image nor changes the recording, wherever the
  -- two buttons stand.
  steer-first :
      (yaw pitch : ConfigRc) (rc : RcChannels) (fcu : Fcu)
      → let s = steer F yaw pitch rc (at_rest F) in
        (snapshot F w rc (s, fcu) ≡ ok (s, fcu)) × (record_button F w rc (s, fcu) ≡ ok (s, fcu))
  steer-first yaw pitch rc fcu =
      let (shot, recorded) = steer-buttons F yaw pitch rc (at_rest F) in
      (
        snapshot_same rc (steer F yaw pitch rc (at_rest F)) fcu
            (ap (λ b. rc.chan13_raw == b) shot ∙ first_value rc.chan13_raw),
        record_button_same rc (steer F yaw pitch rc (at_rest F)) fcu
            (ap (λ b. rc.chan14_raw == b) recorded ∙ first_value rc.chan14_raw),
      )
