-- ===== src/MavlinkReceiver/Messages/Returns.antt =====
-- Every message is handled to its end while the camera is open.
use uav_mission_server.Prelude.{◌≡◌, refl, ap, ◌∙◌, List, [], ◌∷◌, ◌==◌, length, Option, none, some}
use uav_mission_server.Prelude.Outcomes.{ok, ◌>>=◌}
use uav_mission_server.RtspStream.Timestamp.{IsTime}
use uav_mission_server.Config.Rc.{ConfigRc}
use uav_mission_server.SiyiCamera.Operations.{World}
use uav_mission_server.MavlinkPublisher.{Numbers}
use uav_mission_server.MavlinkReceiver.{
  MavlinkMessage, Fcu, mav_command_long, mav_fcu_autopilot_version,
}
use uav_mission_server.MavlinkReceiver.Rc.{Floats, Sticks}
use uav_mission_server.MavlinkReceiver.Messages.{
  Parser, Byte, fcu_cmds, parse_mavlink_msg, handle_parsed, on_command_long, read_mavlink_msg,
}
use uav_mission_server.MavlinkReceiver.Messages.Commands.{mav_command_long-Stays}
use uav_mission_server.MavlinkReceiver.Messages.Radio.{
  Serving, BothStay, test_both, chain, mav_fcu_rc_channels-Stays,
}

-- The clock is at most in the year 9999 while the bytes are handled.
abbrev pub Times : List Byte → Type 0
Times [] = Unit {0}
Times (b ∷ buf) = IsTime b.world.now × Times buf

module _ (mav : Numbers) (F : Floats) (channels : List ConfigRc) (size : length channels ≡ 18) where
  on_command_long-Stays :
      (w : World) (msg : MavlinkMessage) (s : Sticks F) (fcu : Fcu)
      → IsTime w.now
      → Serving F (s, fcu)
      → BothStay F (on_command_long mav F channels w msg (s, fcu))
  on_command_long-Stays w msg s fcu time (b, o) =
      let (f, done, o') = mav_command_long-Stays mav w time msg fcu o in
      chain F w (mav_command_long mav w msg fcu) f _ done ((s, f), refl, (b, o'))

  parse-Stays :
      (w : World) (msg : MavlinkMessage) (s : Sticks F) (fcu : Fcu)
      → IsTime w.now
      → Serving F (s, fcu)
      → BothStay F (parse_mavlink_msg mav F channels (fcu_cmds mav F channels) w msg (s, fcu))
  unfolding parse_mavlink_msg mav_fcu_autopilot_version
  parse-Stays w msg s fcu time h =
      test_both F w (msg.msgid == 4) _ _ ((s, fcu), refl, h)
        (test_both F w (msg.msgid == 24) _ _ ((s, fcu), refl, h)
          (test_both F w (msg.msgid == 65) _ _
            (mav_fcu_rc_channels-Stays F w time msg.rc_channels channels s fcu size h)
            (test_both F w (msg.msgid == 76) _ _ (on_command_long-Stays w msg s fcu time h) (
              test_both F w (msg.msgid == 148) _ _ ((s, mav_fcu_autopilot_version msg fcu), refl, h)
                ((s, fcu), refl, h)))))

  handle_parsed-Stays :
      (parsed : Option MavlinkMessage) (w : World) (s : Sticks F) (fcu : Fcu)
      → IsTime w.now
      → Serving F (s, fcu)
      → BothStay F (handle_parsed mav F channels parsed w (s, fcu))
  handle_parsed-Stays none w s fcu time h = ((s, fcu), refl, h)
  handle_parsed-Stays (some msg) w s fcu time h = parse-Stays w msg s fcu time h

  module _ (P : Parser) where
    -- While the first camera is a SIYI camera that is open with its gimbal, with a path that leaves
    -- room for the names of files, a zoom ratio in its bounds, eighteen radio channels loaded and a
    -- year of four digits, the bytes of a read are handled to their end, whatever messages they
    -- hold: no handler ends the process, uses a bad pointer or writes out of bounds; and the camera
    -- is still open behind them.
    pub read_mavlink_msg_returns :
        (buf : List Byte) (p : P.State) (s : Sticks F) (fcu : Fcu)
        → Times buf
        → Serving F (s, fcu)
        → (p' : P.State) × (both : Sticks F × Fcu) × (read_mavlink_msg mav F channels P buf
              (p, (s, fcu))
            ≡ ok (p', both))
          × Serving F both
    unfolding read_mavlink_msg
    read_mavlink_msg_returns [] p s fcu times h = (p, (s, fcu), refl, h)
    read_mavlink_msg_returns (b ∷ buf) p s fcu times h =
        let (q, parsed) = P.mavlink_parse_char b.value p in
        let (r, handled, h') = handle_parsed-Stays parsed b.world s fcu times.0 h in
        let (p', both, rest, h'') = read_mavlink_msg_returns buf q r.0 r.1 times.1 h' in
        (
          p',
          both,
          ap (λ m. m >>= λ x. read_mavlink_msg mav F channels P buf (q, x)) handled ∙ rest,
          h'',
        )
