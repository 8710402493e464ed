-- ===== src/MavlinkReceiver/Messages/Radio.antt =====
-- The radio channels are handled to their end while the camera is open.
use uav_mission_server.Prelude.{
  get_elem?_lt, ℕ, ◌-◌, ◌/◌, ◌%◌, ◌≤◌, ◌≡◌, refl, sym, ap, ◌∙◌, inl, inr, arith, Bool-cases, Bool,
  true, false, List, ◌==◌, length, if◌then◌else◌,
}
use mathlib.Core.Path.{subst}
use uav_mission_server.Prelude.Int.{ℤ, pos}
use uav_mission_server.Prelude.Outcomes.{Outcome, ok, ◌>>=◌}
use uav_mission_server.RtspStream.Timestamp.{IsTime}
use uav_mission_server.Device.{
  camera_save_image, camera_change_record_state, camera_zoom, gimbal_rotate,
}
use uav_mission_server.Config.Rc.{
  ConfigRc, get_rc_config, get_rc_config_min, get_rc_config_mid, get_rc_config_max,
  get_rc_config_reverse,
}
use uav_mission_server.Config.Rc.Channels.{get_inside}
use uav_mission_server.SiyiCamera.Operations.{World, Cameras}
use uav_mission_server.MavlinkPublisher.{get_video_status}
use uav_mission_server.MavlinkReceiver.{RcChannels, Fcu, on_cameras}
use uav_mission_server.MavlinkReceiver.Rc.{
  Floats, Sticks, Zoom, initialized, steer, zoom_button, zoomed, axis, toggle_status, snapshot,
  scroll, record_button, send_angles, tenths, mav_fcu_rc_channels,
}
use uav_mission_server.MavlinkReceiver.Zoom.{Bounded, zoom_button-Bounded}
use uav_mission_server.MavlinkReceiver.Messages.Open.{
  Open, Stays, camera_save_image-Stays, camera_change_record_state-Stays, camera_zoom-Stays,
  gimbal_rotate-Stays,
}
use uav_mission_server.MavlinkReceiver.Messages.Commands.{on_cameras-Stays}
use uav_mission_server.MavlinkReceiver.Messages.Buttons.{
  angles_of, snapshot_angles, zoomed_angles, record_button_angles,
}

-- The zoom ratio in its bounds, and the camera open.
abbrev pub Serving : (F : Floats) → Sticks F × Fcu → Type 0
Serving F (s, fcu) = Bounded s.zooming × Open fcu.cameras

abbrev pub BothStay : (F : Floats) → Outcome (Sticks F × Fcu) → Type 0
BothStay F outcome = (both : Sticks F × Fcu) × (outcome ≡ ok both) × Serving F both

module _ (F : Floats) (w : World) where
  steer_zooming :
      (yaw pitch : ConfigRc) (rc : RcChannels) (s : Sticks F)
      → (steer F yaw pitch rc s).zooming ≡ s.zooming
  unfolding steer
  steer_zooming yaw pitch rc s =
      elim (Bool-cases (rc.chan5_raw == (initialized F rc s).button_a_last)) [
        | inl same ↦ rw same refl
        | inr clicked ↦ rw clicked refl
      ]

  -- A call of a camera with the sticks set behind it.
  with_sticks :
      (call : Cameras → Outcome Cameras) (fcu : Fcu) (s : Sticks F) (g : Fcu → Fcu)
      → ((f : Fcu) → Open f.cameras → Open (g f).cameras)
      → Bounded s.zooming
      → Stays (call fcu.cameras)
      → BothStay F (on_cameras call fcu >>= λ f. ok (s, g f))
  with_sticks call fcu s g keep bounded stays =
      let (f, called, o) = on_cameras-Stays call fcu stays in
      ((s, g f), ap (λ m. m >>= λ f. and_set f) called, (bounded, keep f o))
    where
      and_set : Fcu → Outcome (Sticks F × Fcu)
      and_set f = ok (s, g f)

  pub test_both :
      (b : Bool) (x y : Outcome (Sticks F × Fcu))
      → BothStay F x
      → BothStay F y
      → BothStay F (if b then x else y)
  test_both true x y h k = h
  test_both false x y h k = k

  pub chain :
      {A : Type 0} (m : Outcome A) (a : A) (k : A → Outcome (Sticks F × Fcu))
      → m ≡ ok a
      → BothStay F (k a)
      → BothStay F (m >>= k)
  chain m a k e (both, returned, serving) = (both, ap (λ x. x >>= k) e ∙ returned, serving)

  zoomed-Stays :
      (z : Zoom) (asks : Bool) (s : Sticks F) (fcu : Fcu)
      → Bounded z
      → Open fcu.cameras
      → BothStay F (zoomed F w z asks (s, fcu))
  zoomed-Stays z false s fcu b o = ((record s { zooming = z }, fcu), refl, (b, o))
  zoomed-Stays z true s fcu b o =
      with_sticks (camera_zoom w (pos 0) (z.zoom_ratio / 10) (z.zoom_ratio % 10)) fcu
        (record s { zooming = z }) (λ f. f) (λ f h. h) b
        (camera_zoom-Stays w fcu.cameras o (z.zoom_ratio / 10) (z.zoom_ratio % 10) (omega arith)
          (omega arith))

  toggle-Open : (f : Fcu) → Open f.cameras → Open (toggle_status F w f).cameras
  toggle-Open f o = elim (Bool-cases (get_video_status f.link)) [
    | inl on ↦ rw on o
    | inr off ↦ rw off o
  ]

  axis_read :
      (channels : List ConfigRc) (n : ℕ)
      → length channels ≡ 18
      → 1 ≤ n
      → n ≤ 18
      → (c : ConfigRc) × (axis F w (pos n) channels ≡ ok c)
        × (get_rc_config_min (pos n) channels ≡ ok c.min)
        × (get_rc_config_max (pos n) channels ≡ ok c.max)
  unfolding get_rc_config_min get_rc_config_mid get_rc_config_max get_rc_config_reverse
  axis_read channels n size low high =
      let (c, at) = get_elem?_lt channels (n - 1) (omega arith) in
      let got : get_rc_config (pos n) channels ≡ ok c = get_inside channels n c low high at in
      (c, rw got refl, rw got refl, rw got refl)

  module _ (time : IsTime w.now) (rc : RcChannels) where
    snapshot-Stays :
        (s : Sticks F) (fcu : Fcu) → Serving F (s, fcu) → BothStay F (snapshot F w rc (s, fcu))
    unfolding snapshot
    snapshot-Stays s fcu (b, o) =
        test_both (rc.chan13_raw == s.button_snapshot_last) _ _ ((s, fcu), refl, (b, o))
          (with_sticks (camera_save_image w (pos 0)) fcu
            (record s { button_snapshot_last = rc.chan13_raw }) (λ f. f) (λ f h. h) b
            (camera_save_image-Stays w fcu.cameras o))

    record_button-Stays :
        (s : Sticks F) (fcu : Fcu) → Serving F (s, fcu) → BothStay F (record_button F w rc (s, fcu))
    unfolding record_button
    record_button-Stays s fcu (b, o) =
        test_both (rc.chan14_raw == s.record_last) _ _ ((s, fcu), refl, (b, o))
          (with_sticks (camera_change_record_state w (pos 0)) fcu
            (record s { record_last = rc.chan14_raw }) (toggle_status F w) toggle-Open b
            (camera_change_record_state-Stays w fcu.cameras o time))

    send_angles-Stays :
        (s : Sticks F) (fcu : Fcu) → Serving F (s, fcu) → BothStay F (send_angles F w (s, fcu))
    unfolding send_angles
    send_angles-Stays s fcu (b, o) =
        with_sticks (gimbal_rotate w (pos 0) (tenths F w s.cam_yaw) (tenths F w s.cam_pitch)) fcu s
          (λ f. f) (λ f h. h) b
          (gimbal_rotate-Stays w fcu.cameras o (tenths F w s.cam_yaw) (tenths F w s.cam_pitch))

    reaches :
        (channels : List ConfigRc) (s : Sticks F) (fcu : Fcu) (yaw pitch : ConfigRc) (low high : ℤ)
        (shot scrolled recorded : Sticks F × Fcu)
        → axis F w (pos 1) channels ≡ ok yaw
        → axis F w (pos 2) channels ≡ ok pitch
        → get_rc_config_min (pos 9) channels ≡ ok low
        → get_rc_config_max (pos 9) channels ≡ ok high
        → snapshot F w rc (steer F yaw pitch rc s, fcu) ≡ ok shot
        → scroll F w low high rc shot ≡ ok scrolled
        → record_button F w rc scrolled ≡ ok recorded
        → mav_fcu_rc_channels F w channels rc (s, fcu) ≡ send_angles F w recorded
    unfolding mav_fcu_rc_channels
    reaches channels s fcu yaw pitch low high shot scrolled recorded y p l h e1 e2 e3 =
        rw (y, p, l, h, e1, e2, e3) refl

    -- The handler comes to `send_angles`, with the angles of `steer`.
    pub mav_fcu_rc_channels-send_angles :
        (channels : List ConfigRc) (s : Sticks F) (fcu : Fcu)
        → length channels ≡ 18
        → Serving F (s, fcu)
        → (yaw : ConfigRc) × (pitch : ConfigRc) × (recorded : Sticks F × Fcu) × (mav_fcu_rc_channels
              F w channels rc
              (s, fcu)
            ≡ send_angles F w recorded)
          × Serving F recorded
          × (angles_of F recorded.0 ≡ angles_of F (steer F yaw pitch rc s))
    unfolding scroll
    mav_fcu_rc_channels-send_angles channels s fcu size (b, o) =
        let (yaw, y, y1, y2) = axis_read channels 1 size (omega arith) (omega arith) in
        let (pitch, p, p1, p2) = axis_read channels 2 size (omega arith) (omega arith) in
        let (wheel, wh, low, high) = axis_read channels 9 size (omega arith) (omega arith) in
        let t = steer F yaw pitch rc s in
        let steered : Bounded t.zooming = subst Bounded (sym (steer_zooming yaw pitch rc s)) b in
        let (shot, e1, (b1, o1)) = snapshot-Stays t fcu (steered, o) in
        let button = zoom_button rc.chan9_raw wheel.min wheel.max shot.0.zooming in
        let (scrolled, e2, (b2, o2)) =
          zoomed-Stays button.0 button.1 shot.0 shot.1
            (zoom_button-Bounded rc.chan9_raw wheel.min wheel.max shot.0.zooming b1) o1 in
        let (recorded, e3, stays) = record_button-Stays scrolled.0 scrolled.1 (b2, o2) in
        (
          yaw,
          pitch,
          recorded,
          reaches channels s fcu yaw pitch wheel.min wheel.max shot scrolled recorded y p low high
              e1 e2 e3,
          stays,
          record_button_angles F w rc scrolled.0 recorded.0 scrolled.1 recorded.1 e3
              ∙ zoomed_angles F w button.0 button.1 shot.0 scrolled.0 shot.1 scrolled.1 e2
              ∙ snapshot_angles F w rc t shot.0 fcu shot.1 e1,
        )

    pub mav_fcu_rc_channels-Stays :
        (channels : List ConfigRc) (s : Sticks F) (fcu : Fcu)
        → length channels ≡ 18
        → Serving F (s, fcu)
        → BothStay F (mav_fcu_rc_channels F w channels rc (s, fcu))
    mav_fcu_rc_channels-Stays channels s fcu size h =
        let (yaw, pitch, recorded, comes, h', angles) =
          mav_fcu_rc_channels-send_angles channels s fcu size h in
        let (both, sent', serving) = send_angles-Stays recorded.0 recorded.1 h' in
        (both, comes ∙ sent', serving)
