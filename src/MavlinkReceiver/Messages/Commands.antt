-- ===== src/MavlinkReceiver/Messages/Commands.antt =====
-- The commands of the ground station are handled to their end while the camera is open.
use uav_mission_server.Prelude.{◌≡◌, refl, ap, Bool, true, false, not, ◌==◌, if◌then◌else◌}
use uav_mission_server.Prelude.Int.{pos}
use uav_mission_server.Prelude.Outcomes.{Outcome, ok, ◌>>=◌}
use uav_mission_server.RtspStream.Timestamp.{IsTime}
use uav_mission_server.Device.{camera_save_image, camera_change_record_state}
use uav_mission_server.SiyiCamera.Operations.{World, Cameras}
use uav_mission_server.MavlinkPublisher.{
  Numbers, set_video_status, reset_video_status, get_video_status,
}
use uav_mission_server.MavlinkReceiver.{
  MavlinkMessage, Fcu, on_cameras, on_link, accept, change_if, start_image, start_video, stop_video,
  mav_command_long,
}
use uav_mission_server.MavlinkReceiver.Messages.Open.{
  Open, Stays, camera_save_image-Stays, camera_change_record_state-Stays,
}

-- A handler that returns, with the camera still open.
abbrev pub FcuStays : Outcome Fcu → Type 0
FcuStays outcome = (fcu' : Fcu) × (outcome ≡ ok fcu') × Open fcu'.cameras

pub on_cameras-Stays :
    (call : Cameras → Outcome Cameras) (fcu : Fcu)
    → Stays (call fcu.cameras)
    → FcuStays (on_cameras call fcu)
on_cameras-Stays call fcu (cameras', called, o) = (
  record fcu { cameras = cameras' },
  ap (λ m. m >>= λ c. ok (record fcu { cameras = c })) called,
  o,
)

-- Behind a call, something that leaves the cameras alone.
then_Stays :
    (outcome : Outcome Fcu) (g : Fcu → Fcu)
    → ((f : Fcu) → Open f.cameras → Open (g f).cameras)
    → FcuStays outcome
    → FcuStays (outcome >>= λ f. ok (g f))
then_Stays outcome g keep (f, e, o) = (g f, ap (λ m. m >>= λ f. ok (g f)) e, keep f o)

module _ (mav : Numbers) (w : World) (time : IsTime w.now) where
  change_if-Stays : (b : Bool) (fcu : Fcu) → Open fcu.cameras → FcuStays (change_if mav w b fcu)
  change_if-Stays true fcu o =
      on_cameras-Stays (camera_change_record_state w (pos 0)) fcu
        (camera_change_record_state-Stays w fcu.cameras o time)
  change_if-Stays false fcu o = (fcu, refl, o)

  test-Stays :
      (b : Bool) (x y : Outcome Fcu) → FcuStays x → FcuStays y → FcuStays (if b then x else y)
  test-Stays true x y h k = h
  test-Stays false x y h k = k

  pub mav_command_long-Stays :
      (msg : MavlinkMessage) (fcu : Fcu)
      → Open fcu.cameras
      → FcuStays (mav_command_long mav w msg fcu)
  unfolding mav_command_long
  mav_command_long-Stays msg fcu o =
      test-Stays (msg.command == 203) _ _ (fcu, refl, o)
        (test-Stays (msg.command == 521) _ _ (_, refl, o)
          (test-Stays (msg.command == 522) _ _ (_, refl, o)
            (test-Stays (msg.command == 525) _ _ (_, refl, o)
              (test-Stays (msg.command == 527) _ _ (_, refl, o)
                (test-Stays (msg.command == 530) _ _ (_, refl, o)
                  (test-Stays (msg.command == 2000) _ _ image (
                    test-Stays (msg.command == 2001) _ _ (_, refl, o)
                      (test-Stays (msg.command == 2500) _ _ started
                        (test-Stays (msg.command == 2501) _ _ stopped (fcu, refl, o))))))))))
    where
      image : FcuStays (start_image mav w msg fcu)
      image =
          then_Stays (on_cameras (camera_save_image w (pos 0)) fcu) (accept mav w 2000 msg)
            (λ f h. h)
            (on_cameras-Stays (camera_save_image w (pos 0)) fcu
              (camera_save_image-Stays w fcu.cameras o))

      started : FcuStays (start_video mav w msg fcu)
      started =
          then_Stays (change_if mav w (not (get_video_status fcu.link)) (accept mav w 2500 msg fcu))
            (on_link set_video_status) (λ f h. h)
            (change_if-Stays (not (get_video_status fcu.link)) (accept mav w 2500 msg fcu) o)

      stopped : FcuStays (stop_video mav w msg fcu)
      stopped =
          then_Stays (change_if mav w (get_video_status fcu.link) (accept mav w 2501 msg fcu))
            (on_link reset_video_status) (λ f h. h)
            (change_if-Stays (get_video_status fcu.link) (accept mav w 2501 msg fcu) o)
