-- ===== src/MavlinkReceiver/Messages/Kept.antt =====
-- The connection is changed by no handler but the one of the autopilot version.
use uav_mission_server.Prelude.{
  ℕ, ◌/◌, ◌%◌, if◌then◌else◌, ◌≡◌, refl, sym, ap, ◌∙◌, inl, inr, Bool, true, false, not, ◌==◌,
  Bool-cases, List,
}
use uav_mission_server.Prelude.Int.{pos}
use uav_mission_server.Prelude.Outcomes.{Outcome, ok, ◌>>=◌, >>=-eq-ok, ok_injective}
use uav_mission_server.Device.{
  camera_save_image, camera_change_record_state, camera_zoom, gimbal_rotate,
}
use uav_mission_server.Config.Rc.{ConfigRc, get_rc_config_min, get_rc_config_max}
use uav_mission_server.SiyiCamera.Operations.{World, Cameras}
use uav_mission_server.MavlinkPublisher.{
  Numbers, Link, mavlink_send_msg, mavlink_send_ack, mavlink_send_camera_info,
  mavlink_send_camera_settings, mavlink_send_storage_information,
  mavlink_send_camera_capture_status, get_video_status, set_video_status, reset_video_status,
}
use uav_mission_server.MavlinkReceiver.{
  RcChannels, MavlinkMessage, Fcu, on_cameras, on_link, accept, change_if, start_image, start_video,
  stop_video, mav_command_long,
}
use uav_mission_server.MavlinkReceiver.Rc.{
  Floats, Sticks, Zoom, steer, zoom_button, zoomed, axis, toggle_status, snapshot, scroll,
  record_button, send_angles, tenths, mav_fcu_rc_channels,
}

-- The connection is as before.
pub record Keeps (fcu fcu' : Fcu) : Type 0 where
  pub ready : fcu'.serial_is_ready ≡ fcu.serial_is_ready
  pub sysid : fcu'.link.fcu_sysid ≡ fcu.link.fcu_sysid

pub Keeps-refl : (fcu : Fcu) → Keeps fcu fcu
Keeps-refl fcu = record { ready = refl; sysid = refl }

pub Keeps-trans : {a b c : Fcu} → Keeps a b → Keeps b c → Keeps a c
Keeps-trans h k = record { ready = k.ready ∙ h.ready; sysid = k.sysid ∙ h.sysid }

pub Keeps-eq : {a b : Fcu} → a ≡ b → Keeps a b
Keeps-eq e = record {
  ready = ap (λ f. f.serial_is_ready) (sym e);
  sysid = ap (λ f. f.link.fcu_sysid) (sym e);
}

on_cameras-Keeps :
    (call : Cameras → Outcome Cameras) (fcu fcu' : Fcu)
    → on_cameras call fcu ≡ ok fcu'
    → Keeps fcu fcu'
on_cameras-Keeps call fcu fcu' e =
    let (cameras', called, is) =
      >>=-eq-ok (call fcu.cameras) (λ c. ok (record fcu { cameras = c })) fcu' e in
    Keeps-trans {b = record fcu { cameras = cameras' }} (record { ready = refl; sysid = refl })
      (Keeps-eq (ok_injective is))

-- A part of a handler: a call of a camera, and then a value with the state that `g` gives.
module _ {A : Type 0} (call : Cameras → Outcome Cameras) (x : A) (g : Fcu → Fcu)
    (keep : (f : Fcu) → Keeps f (g f)) where
  abbrev and_then : Fcu → Outcome (A × Fcu)
  and_then f = ok (x, g f)

  called_Keeps :
      (fcu fcu' : Fcu) (a : A) → (on_cameras call fcu >>= and_then) ≡ ok (a, fcu') → Keeps fcu fcu'
  called_Keeps fcu fcu' a e =
      let (f, called, rest) = >>=-eq-ok (on_cameras call fcu) and_then (a, fcu') e in
      Keeps-trans (on_cameras-Keeps call fcu f called)
        (Keeps-trans (keep f) (Keeps-eq (ap (λ p. p.1) (ok_injective rest))))

  -- The same if a button was not pressed.
  unless_Keeps :
      (b : Bool) (y : A) (fcu fcu' : Fcu) (a : A)
      → (if b then ok (y, fcu) else on_cameras call fcu >>= and_then) ≡ ok (a, fcu')
      → Keeps fcu fcu'
  unless_Keeps true y fcu fcu' a e = Keeps-eq (ap (λ p. p.1) (ok_injective e))
  unless_Keeps false y fcu fcu' a e = called_Keeps fcu fcu' a e

module _ (F : Floats) (w : World) where
  snapshot-Keeps :
      (rc : RcChannels) (s s' : Sticks F) (fcu fcu' : Fcu)
      → snapshot F w rc (s, fcu) ≡ ok (s', fcu')
      → Keeps fcu fcu'
  unfolding snapshot
  snapshot-Keeps rc s s' fcu fcu' e =
      unless_Keeps (camera_save_image w (pos 0)) (record s { button_snapshot_last = rc.chan13_raw })
        (λ f. f) Keeps-refl (rc.chan13_raw == s.button_snapshot_last) s fcu fcu' s' e

  zoomed-Keeps :
      (z : Zoom) (asks : Bool) (s s' : Sticks F) (fcu fcu' : Fcu)
      → zoomed F w z asks (s, fcu) ≡ ok (s', fcu')
      → Keeps fcu fcu'
  zoomed-Keeps z false s s' fcu fcu' e = Keeps-eq (ap (λ p. p.1) (ok_injective e))
  zoomed-Keeps z true s s' fcu fcu' e =
      called_Keeps (camera_zoom w (pos 0) (z.zoom_ratio / 10) (z.zoom_ratio % 10))
        (record s { zooming = z }) (λ f. f) Keeps-refl fcu fcu' s' e

  toggle-Keeps : (f : Fcu) → Keeps f (toggle_status F w f)
  unfolding set_video_status reset_video_status get_video_status
  toggle-Keeps f = elim (Bool-cases f.link.video_status) [
    | inl on ↦ rw on (record { ready = refl; sysid = refl })
    | inr off ↦ rw off (record { ready = refl; sysid = refl })
  ]

  record_button-Keeps :
      (rc : RcChannels) (s s' : Sticks F) (fcu fcu' : Fcu)
      → record_button F w rc (s, fcu) ≡ ok (s', fcu')
      → Keeps fcu fcu'
  unfolding record_button
  record_button-Keeps rc s s' fcu fcu' e =
      unless_Keeps (camera_change_record_state w (pos 0)) (record s { record_last = rc.chan14_raw })
        (toggle_status F w) toggle-Keeps (rc.chan14_raw == s.record_last) s fcu fcu' s' e

  send_angles-Keeps :
      (s s' : Sticks F) (fcu fcu' : Fcu) → send_angles F w (s, fcu) ≡ ok (s', fcu') → Keeps fcu fcu'
  unfolding send_angles
  send_angles-Keeps s s' fcu fcu' e =
      called_Keeps (gimbal_rotate w (pos 0) (tenths F w s.cam_yaw) (tenths F w s.cam_pitch)) s
        (λ f. f) Keeps-refl fcu fcu' s' e

  pub mav_fcu_rc_channels-Keeps :
      (channels : List ConfigRc) (rc : RcChannels) (s s' : Sticks F) (fcu fcu' : Fcu)
      → mav_fcu_rc_channels F w channels rc (s, fcu) ≡ ok (s', fcu')
      → Keeps fcu fcu'
  unfolding mav_fcu_rc_channels scroll
  mav_fcu_rc_channels-Keeps channels rc s s' fcu fcu' e =
      let (yaw, y, e1) = >>=-eq-ok (axis F w (pos 1) channels) _ (s', fcu') e in
      let (pitch, p, e2) = >>=-eq-ok (axis F w (pos 2) channels) _ (s', fcu') e1 in
      let (low, l, e3) = >>=-eq-ok (get_rc_config_min (pos 9) channels) _ (s', fcu') e2 in
      let (high, h, e4) = >>=-eq-ok (get_rc_config_max (pos 9) channels) _ (s', fcu') e3 in
      let (shot, first, e5) =
        >>=-eq-ok (snapshot F w rc (steer F yaw pitch rc s, fcu)) _ (s', fcu') e4 in
      let (scrolled, second, e6) = >>=-eq-ok (scroll F w low high rc shot) _ (s', fcu') e5 in
      let (recorded, third, fourth) = >>=-eq-ok (record_button F w rc scrolled) _ (s', fcu') e6 in
      let button = zoom_button rc.chan9_raw low high shot.0.zooming in
      Keeps-trans (snapshot-Keeps rc (steer F yaw pitch rc s) shot.0 fcu shot.1 first) (
        Keeps-trans (zoomed-Keeps button.0 button.1 shot.0 scrolled.0 shot.1 scrolled.1 second) (
          Keeps-trans (record_button-Keeps rc scrolled.0 recorded.0 scrolled.1 recorded.1 third)
            (send_angles-Keeps recorded.0 s' recorded.1 fcu' fourth)))

module _ (mav : Numbers) (w : World) where
  accept-Keeps :
      (command : ℕ) (msg : MavlinkMessage) (fcu : Fcu) → Keeps fcu (accept mav w command msg fcu)
  unfolding mavlink_send_ack mavlink_send_msg
  accept-Keeps command msg fcu = record { ready = refl; sysid = refl }

  change_if-Keeps : (b : Bool) (fcu fcu' : Fcu) → change_if mav w b fcu ≡ ok fcu' → Keeps fcu fcu'
  change_if-Keeps true fcu fcu' e =
      on_cameras-Keeps (camera_change_record_state w (pos 0)) fcu fcu' e
  change_if-Keeps false fcu fcu' e = Keeps-eq (ok_injective e)

  start_image-Keeps :
      (msg : MavlinkMessage) (fcu fcu' : Fcu) → start_image mav w msg fcu ≡ ok fcu' → Keeps fcu fcu'
  start_image-Keeps msg fcu fcu' e =
      let (f, saved, is) =
        >>=-eq-ok (on_cameras (camera_save_image w (pos 0)) fcu) (λ f. ok (accept mav w 2000 msg f))
          fcu' e in
      Keeps-trans (on_cameras-Keeps (camera_save_image w (pos 0)) fcu f saved)
        (Keeps-trans (accept-Keeps 2000 msg f) (Keeps-eq (ok_injective is)))

  -- An accepted command, a change of the recording, and the new status.
  video-Keeps :
      (command : ℕ) (b : Bool) (msg : MavlinkMessage) (g : Link → Link) (fcu fcu' : Fcu)
      → ((f : Fcu) → Keeps f (on_link g f))
      → (change_if mav w b (accept mav w command msg fcu) >>= λ f. ok (on_link g f)) ≡ ok fcu'
      → Keeps fcu fcu'
  video-Keeps command b msg g fcu fcu' keep e =
      let a = accept mav w command msg fcu in
      let (f, changed, is) = >>=-eq-ok (change_if mav w b a) (λ f. ok (on_link g f)) fcu' e in
      Keeps-trans (accept-Keeps command msg fcu) (
        Keeps-trans (change_if-Keeps b a f changed)
          (Keeps-trans (keep f) (Keeps-eq (ok_injective is))))

  start_video-Keeps :
      (msg : MavlinkMessage) (fcu fcu' : Fcu) → start_video mav w msg fcu ≡ ok fcu' → Keeps fcu fcu'
  unfolding set_video_status
  start_video-Keeps msg fcu fcu' e =
      video-Keeps 2500 (not (get_video_status fcu.link)) msg set_video_status fcu fcu'
        (λ f. record { ready = refl; sysid = refl }) e

  stop_video-Keeps :
      (msg : MavlinkMessage) (fcu fcu' : Fcu) → stop_video mav w msg fcu ≡ ok fcu' → Keeps fcu fcu'
  unfolding reset_video_status
  stop_video-Keeps msg fcu fcu' e =
      video-Keeps 2501 (get_video_status fcu.link) msg reset_video_status fcu fcu'
        (λ f. record { ready = refl; sysid = refl }) e

  only_sends :
      (send : Link → Link) (fcu fcu' : Fcu)
      → (send fcu.link).fcu_sysid ≡ fcu.link.fcu_sysid
      → ok (on_link send fcu) ≡ ok fcu'
      → Keeps fcu fcu'
  only_sends send fcu fcu' same e =
      Keeps-trans {b = on_link send fcu} (record { ready = refl; sysid = same })
        (Keeps-eq (ok_injective e))

  -- The first test of a chain, and what is behind it.
  test-Keeps :
      (b : Bool) (x y : Outcome Fcu) (fcu fcu' : Fcu)
      → (x ≡ ok fcu' → Keeps fcu fcu')
      → (y ≡ ok fcu' → Keeps fcu fcu')
      → (if b then x else y) ≡ ok fcu'
      → Keeps fcu fcu'
  test-Keeps true x y fcu fcu' h k e = h e
  test-Keeps false x y fcu fcu' h k e = k e

  pub mav_command_long-Keeps :
      (msg : MavlinkMessage) (fcu fcu' : Fcu)
      → mav_command_long mav w msg fcu ≡ ok fcu'
      → Keeps fcu fcu'
  unfolding mav_command_long mavlink_send_camera_info mavlink_send_camera_settings
      mavlink_send_storage_information mavlink_send_camera_capture_status mavlink_send_msg
      mavlink_send_ack
  mav_command_long-Keeps msg fcu fcu' =
      test-Keeps (msg.command == 203) _ _ fcu fcu' (λ e. Keeps-eq (ok_injective e))
        (test-Keeps (msg.command == 521) _ _ fcu fcu'
          (only_sends (mavlink_send_camera_info mav msg.sysid msg.compid) fcu fcu' refl)
          (test-Keeps (msg.command == 522) _ _ fcu fcu'
            (only_sends (mavlink_send_camera_settings mav msg.sysid msg.compid) fcu fcu' refl)
            (test-Keeps (msg.command == 525) _ _ fcu fcu'
              (only_sends (mavlink_send_storage_information mav msg.sysid msg.compid) fcu fcu' refl)
              (test-Keeps (msg.command == 527) _ _ fcu fcu'
                (only_sends (mavlink_send_camera_capture_status mav msg.sysid msg.compid) fcu fcu'
                  refl)
                (test-Keeps (msg.command == 530) _ _ fcu fcu'
                  (λ e. Keeps-trans (accept-Keeps 530 msg fcu) (
                    only_sends (mavlink_send_camera_capture_status mav msg.sysid msg.compid)
                      (accept mav w 530 msg fcu) fcu' refl e))
                  (test-Keeps (msg.command == 2000) _ _ fcu fcu' (start_image-Keeps msg fcu fcu') (
                    test-Keeps (msg.command == 2001) _ _ fcu fcu'
                      (λ e. Keeps-trans (accept-Keeps 2001 msg fcu) (Keeps-eq (ok_injective e)))
                      (test-Keeps (msg.command == 2500) _ _ fcu fcu'
                        (start_video-Keeps msg fcu fcu')
                        (test-Keeps (msg.command == 2501) _ _ fcu fcu'
                          (stop_video-Keeps msg fcu fcu') (λ e. Keeps-eq (ok_injective e)))))))))))
