-- ===== src/MavlinkReceiver/Messages/Buttons.antt =====
-- The buttons leave the angles of the gimbal alone.
use uav_mission_server.Prelude.{
  ◌/◌, ◌%◌, ◌≡◌, refl, sym, ap, ◌∙◌, ◌⊎◌, inl, inr, Bool, true, false, ◌==◌, if◌then◌else◌,
}
use uav_mission_server.Prelude.Int.{pos}
use uav_mission_server.Prelude.Outcomes.{Outcome, ok, ◌>>=◌, >>=-eq-ok, ok_injective}
use uav_mission_server.Device.{camera_save_image, camera_change_record_state, camera_zoom}
use uav_mission_server.SiyiCamera.Operations.{World}
use uav_mission_server.MavlinkReceiver.{RcChannels, Fcu, on_cameras}
use uav_mission_server.MavlinkReceiver.Rc.{
  Floats, Sticks, Zoom, zoomed, toggle_status, snapshot, record_button,
}

-- Both angles.
abbrev pub angles_of : (F : Floats) → Sticks F → F.Number × F.Number
angles_of F s = (s.cam_yaw, s.cam_pitch)

-- The sticks behind a call of a camera, and behind one that a button asks for.
module _ {A : Type 0} (x : A) (g : Fcu → Fcu) where
  abbrev and_then : Fcu → Outcome (A × Fcu)
  and_then f = ok (x, g f)

  called_sticks : (m : Outcome Fcu) (a : A) (fcu : Fcu) → (m >>= and_then) ≡ ok (a, fcu) → a ≡ x
  called_sticks m a fcu e =
      let (f, called, is) = >>=-eq-ok m and_then (a, fcu) e in sym (ap (λ p. p.0) (ok_injective is))

  abbrev unless : Bool → A × Fcu → Outcome Fcu → Outcome (A × Fcu)
  unless b before m = if b then ok before else m >>= and_then

  unless_sticks :
      (b : Bool) (y : A) (before : Fcu) (m : Outcome Fcu) (a : A) (fcu : Fcu)
      → unless b (y, before) m ≡ ok (a, fcu)
      → (a ≡ y) ⊎ (a ≡ x)
  unless_sticks true y before m a fcu e = inl (sym (ap (λ p. p.0) (ok_injective e)))
  unless_sticks false y before m a fcu e = inr (called_sticks m a fcu e)

either_angles :
    (F : Floats) (s y x : Sticks F)
    → angles_of F x ≡ angles_of F y
    → (s ≡ y) ⊎ (s ≡ x)
    → angles_of F s ≡ angles_of F y
either_angles F s y x h (inl e) = ap (angles_of F) e
either_angles F s y x h (inr e) = ap (angles_of F) e ∙ h

-- The buttons leave the angles alone.
module _ (F : Floats) (w : World) where
  pub snapshot_angles :
      (rc : RcChannels) (s s' : Sticks F) (fcu fcu' : Fcu)
      → snapshot F w rc (s, fcu) ≡ ok (s', fcu')
      → angles_of F s' ≡ angles_of F s
  unfolding snapshot
  snapshot_angles rc s s' fcu fcu' e =
      either_angles F s' s (record s { button_snapshot_last = rc.chan13_raw }) refl
        (unless_sticks (record s { button_snapshot_last = rc.chan13_raw }) (λ f. f)
          (rc.chan13_raw == s.button_snapshot_last) s fcu
          (on_cameras (camera_save_image w (pos 0)) fcu) s' fcu' e)

  pub zoomed_angles :
      (z : Zoom) (asks : Bool) (s s' : Sticks F) (fcu fcu' : Fcu)
      → zoomed F w z asks (s, fcu) ≡ ok (s', fcu')
      → angles_of F s' ≡ angles_of F s
  zoomed_angles z false s s' fcu fcu' e = ap (λ p. angles_of F p.0) (sym (ok_injective e))
  zoomed_angles z true s s' fcu fcu' e = ap (angles_of F) (
      called_sticks (record s { zooming = z }) (λ f. f)
        (on_cameras (camera_zoom w (pos 0) (z.zoom_ratio / 10) (z.zoom_ratio % 10)) fcu) s' fcu' e)

  pub record_button_angles :
      (rc : RcChannels) (s s' : Sticks F) (fcu fcu' : Fcu)
      → record_button F w rc (s, fcu) ≡ ok (s', fcu')
      → angles_of F s' ≡ angles_of F s
  unfolding record_button
  record_button_angles rc s s' fcu fcu' e =
      either_angles F s' s (record s { record_last = rc.chan14_raw }) refl
        (unless_sticks (record s { record_last = rc.chan14_raw }) (toggle_status F w)
          (rc.chan14_raw == s.record_last) s fcu
          (on_cameras (camera_change_record_state w (pos 0)) fcu) s' fcu' e)
