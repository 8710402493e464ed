-- ===== src/MavlinkReceiver/Messages.antt =====
-- The bytes of the flight controller: `read_mavlink_msg` and `parse_mavlink_msg` of
-- src/mavlink_receiver.c, and the wait for the connection in `run_uart_server` of src/uart_server.c.
-- The parser is generated code, a parameter.
pub mod Kept
pub mod Connection
pub mod Open
pub mod Commands
pub mod Buttons
pub mod Radio
pub mod Turned
pub mod Returns
pub mod Wait
pub mod Tests
use uav_mission_server.Prelude.{
  ℕ, Bool, true, false, List, [], ◌∷◌, Option, none, some, ◌==◌, if◌then◌else◌,
}
use uav_mission_server.Prelude.Outcomes.{Outcome, ok, ◌>>=◌}
use uav_mission_server.Config.Rc.{ConfigRc}
use uav_mission_server.SiyiCamera.Operations.{World}
use uav_mission_server.MavlinkPublisher.{Numbers, mavlink_send_request_autopilot_capabilities}
use uav_mission_server.MavlinkReceiver.{
  MavlinkMessage, Fcu, on_link, mav_command_long, mav_fcu_autopilot_version,
}
use uav_mission_server.MavlinkReceiver.Rc.{Floats, Sticks, mav_fcu_rc_channels}

-- `mavlink_parse_char`: the state of the channel after a byte, and the message that it completes.
pub record Parser : Type 1 where
  pub State : Type 0
  pub mavlink_parse_char : ℕ → State → State × Option MavlinkMessage

-- A byte, with what the system gives while a message that it completes is handled.
pub record Byte : Type 0 where
  pub value : ℕ
  pub world : World

module _ (mav : Numbers) (F : Floats) (channels : List ConfigRc) where
  -- The state of the handlers: the static variables for the radio, and what the handlers share.
  abbrev pub Receiver : Type 0
  Receiver = Sticks F × Fcu

  abbrev pub Handler : Type 0
  Handler = World → MavlinkMessage → Receiver → Outcome Receiver

  -- The two handlers that only print, or do nothing at all.
  abbrev pub mav_fcu_ping : Handler
  mav_fcu_ping w msg s = ok s

  abbrev pub mav_fcu_gps_raw_int : Handler
  mav_fcu_gps_raw_int w msg s = ok s

  abbrev pub on_rc_channels : Handler
  on_rc_channels w msg s = mav_fcu_rc_channels F w channels msg.rc_channels s

  abbrev pub on_command_long : Handler
  on_command_long w msg (sticks, fcu) = mav_command_long mav w msg fcu >>= λ fcu'. ok (sticks, fcu')

  abbrev pub on_autopilot_version : Handler
  on_autopilot_version w msg (sticks, fcu) = ok (sticks, mav_fcu_autopilot_version msg fcu)

  -- `fcu_cmds`
  abbrev pub fcu_cmds : List (ℕ × Handler)
  fcu_cmds =
      (4, mav_fcu_ping)
      ∷ (24, mav_fcu_gps_raw_int)
      ∷ (65, on_rc_channels)
      ∷ (76, on_command_long)
      ∷ (148, on_autopilot_version)
      ∷ []

  -- The loop over the table: the first entry of the number handles the message.
  unfoldable pub parse_mavlink_msg : List (ℕ × Handler) → Handler
  parse_mavlink_msg [] w msg s = ok s
  parse_mavlink_msg ((msg_id, handler) ∷ cmd_list) w msg s =
      if msg.msgid == msg_id then handler w msg s else parse_mavlink_msg cmd_list w msg s

  abbrev pub handle_parsed : Option MavlinkMessage → World → Receiver → Outcome Receiver
  handle_parsed none w s = ok s
  handle_parsed (some msg) w s = parse_mavlink_msg fcu_cmds w msg s

  module _ (P : Parser) where
    -- The parser with the state of the handlers.
    abbrev pub Channel : Type 0
    Channel = P.State × Receiver

    unfoldable pub read_mavlink_msg : List Byte → Channel → Outcome Channel
    read_mavlink_msg [] c = ok c
    read_mavlink_msg (b ∷ buf) (p, s) =
        let (p', parsed) = P.mavlink_parse_char b.value p in
        handle_parsed parsed b.world s >>= λ s'. read_mavlink_msg buf (p', s')

    abbrev pub flight_controller_connected : Channel → Bool
    flight_controller_connected (p, (sticks, fcu)) = fcu.serial_is_ready

    abbrev pub request_capabilities : Channel → Channel
    request_capabilities (p, (sticks, fcu)) =
        (p, (sticks, on_link (mavlink_send_request_autopilot_capabilities mav) fcu))

    -- A round of the wait: `serial_read` gives bytes, or nothing or an error (`[]`).
    abbrev pub wait_round : List Byte → Channel → Outcome Channel
    wait_round rbytes c = read_mavlink_msg rbytes (request_capabilities c)

    -- The test of the loop, over what its body comes to.
    abbrev pub unless_connected :
        Bool → Channel → Outcome (Bool × Channel) → Outcome (Bool × Channel)
    unless_connected true c body = ok (true, c)
    unless_connected false c body = body

    -- The wait over what its calls of `serial_read` give; past them the flag says whether the loop
    -- would end.
    unfoldable pub wait_for_connection : List (List Byte) → Channel → Outcome (Bool × Channel)
    wait_for_connection [] c = ok (flight_controller_connected c, c)
    wait_for_connection (rbytes ∷ reads) c =
        let body = wait_round rbytes c >>= wait_for_connection reads in
        unless_connected (flight_controller_connected c) c body
