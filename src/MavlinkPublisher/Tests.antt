-- ===== src/MavlinkPublisher/Tests.antt =====
-- Tunes at known inputs.
use uav_mission_server.Prelude.{◌≡◌, refl, arith, false, [], some, codes, replicate}
use uav_mission_server.Prelude.Int.{ℤ, pos, negsuc}
use uav_mission_server.Prelude.Libc.{atoi}
use uav_mission_server.UartServer.Command.{run_commander, read_user_cmd}
use uav_mission_server.MavlinkPublisher.{Numbers, Link, mavlink_send_play_tune}
use uav_mission_server.MavlinkPublisher.Tune.{Plays, run_commander-mavlink_send_play_tune}

abbrev numbers : Numbers
numbers = record {
  mav_comp_id_all = 0;
  mav_comp_id_camera = 100;
  mav_comp_id_onboard_computer = 191;
  mav_type_camera = 30;
  mav_autopilot_invalid = 8;
  mav_state_standby = 3;
  mav_result_accepted = 0;
  mav_cmd_request_autopilot_capabilities = 520;
  camera_mode_image = 0;
  camera_cap_flags = 0x4f;
}

abbrev link : Link
link = record { fcu_sysid = 1; video_status = false; outbox = [] }

-- A negative number is large as a `size_t`.
negative : mavlink_send_play_tune numbers (negsuc 0) link ≡ some link
unfolding mavlink_send_play_tune
negative = refl

run_commander-mavlink_send_play_tune_example :
    (n : ℤ) × (read_user_cmd
        (replicate 20 0xaa)
        (some (run_commander (replicate 12 0) (codes "11")))
        (pos 0)
      ≡ some (pos 0, some n))
    × (n ≡ atoi (codes "11"))
    × Plays numbers link n
unfolding atoi
run_commander-mavlink_send_play_tune_example =
    run_commander-mavlink_send_play_tune numbers link (replicate 20 0xaa) (replicate 12 0)
      (codes "11") refl refl (omega arith) (omega arith)
