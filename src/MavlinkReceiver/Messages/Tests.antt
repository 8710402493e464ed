-- ===== src/MavlinkReceiver/Messages/Tests.antt =====
-- Messages of a small parser: a byte is a whole message of that number.
use uav_mission_server.Prelude.{
  codes, none, ltb, if◌then◌else◌, ℕ, ◌≡◌, refl, arith, true, false, List, [], ◌∷◌, some,
}
use uav_mission_server.Prelude.Int.{ℤ, pos, negsuc, ◌≤ℤ◌}
use uav_mission_server.Prelude.Outcomes.{ok}
use uav_mission_server.RtspStream.Timestamp.{IsTime}
use uav_mission_server.Device.{live}
use uav_mission_server.Config.Rc.{no_channels}
use uav_mission_server.SiyiCamera.Operations.{siyi_cam_ops}
use uav_mission_server.SiyiCamera.Operations.Closing.{Entry}
use uav_mission_server.MavlinkReceiver.{Fcu}
use uav_mission_server.MavlinkReceiver.Rc.{Floats, Sticks, at_rest, tenths, mav_fcu_rc_channels}
use uav_mission_server.MavlinkReceiver.Tests.{whole, channels, camera, world, numbers}
use uav_mission_server.MavlinkReceiver.Messages.{
  Parser, Byte, read_mavlink_msg, wait_for_connection,
}
use uav_mission_server.MavlinkReceiver.Messages.Radio.{Serving}
use uav_mission_server.MavlinkReceiver.Messages.Returns.{read_mavlink_msg_returns}
use uav_mission_server.MavlinkReceiver.Angles.{Within}
use uav_mission_server.MavlinkReceiver.Messages.Turned.{Told, mav_fcu_rc_channels-Told}
use uav_mission_server.MavlinkReceiver.Messages.Wait.{wait_for_connection-learn_all}

abbrev pub toy : Parser
toy = record {
  State = ℕ;
  mavlink_parse_char = λ b p. (
    b,
    some (record { msgid = b; sysid = 9; compid = 1; rc_channels = channels; command = 2000 }),
  );
}

abbrev camera_entry : Entry
camera_entry = record {
  device = record {
    id = pos 0;
    camera_priv = live camera;
    gimbal_priv = live (record { fd = 7; peer = record { ip = none; port = pos 0 }; sent = [] });
  };
  camera_ops = some siyi_cam_ops;
}

abbrev pub fcu : Fcu
fcu = record {
  serial_is_ready = false;
  link = record { fcu_sysid = 0; video_status = false; outbox = [] };
  cameras = camera_entry ∷ [];
}

pub serving : (F : Floats) → Serving F (at_rest F, fcu)
serving F = (
  (omega arith, omega arith),
  record {
    entry = camera_entry;
    data' = camera;
    siyi = record { fd = 7; peer = record { ip = none; port = pos 0 }; sent = [] };
    driven = record { here = refl; driver = refl };
    camera = refl;
    gimbal = refl;
    room = (codes "/tmp", refl, omega arith);
  },
)

pub time : IsTime world.now
time = record {
  year = omega arith;
  mon = omega arith;
  mday = omega arith;
  hour = omega arith;
  min = omega arith;
  sec = omega arith;
}

abbrev pub bytes : List ℕ → List Byte
bytes [] = []
bytes (b ∷ bs) = record { value = b; world = world } ∷ bytes bs

-- A ping, the radio, and the version.
abbrev pub buf : List Byte
buf = bytes (4 ∷ 65 ∷ 148 ∷ [])

read_mavlink_msg_returns_example :
    (p' : ℕ) × (both : Sticks whole × Fcu) × (read_mavlink_msg numbers whole no_channels toy buf
        (0, (at_rest whole, fcu))
      ≡ ok (p', both))
    × Serving whole both
read_mavlink_msg_returns_example =
    read_mavlink_msg_returns numbers whole no_channels refl toy buf 0 (at_rest whole) fcu
      (time, (time, (time, tt))) (serving whole)

wait_for_connection-learn_all_example :
    (p' : ℕ) × (both : Sticks whole × Fcu) × (wait_for_connection numbers whole no_channels toy
        ([] ∷ bytes (65 ∷ []) ∷ bytes (148 ∷ 76 ∷ []) ∷ [])
        (0, (at_rest whole, fcu))
      ≡ ok (true, (p', both)))
    × (both.1.serial_is_ready ≡ true)
    × Serving whole both
wait_for_connection-learn_all_example =
    wait_for_connection-learn_all toy numbers whole no_channels refl
      ([] ∷ bytes (65 ∷ []) ∷ bytes (148 ∷ 76 ∷ []) ∷ []) 0 (at_rest whole) fcu
      (tt, ((time, tt), ((time, (time, tt)), tt))) (serving whole)

-- Numbers with a conversion that stays within its type.
abbrev to_int16 : ℤ → ℤ
to_int16 (pos n) = if ltb 32767 n then pos 32767 else pos n
to_int16 (negsuc n) = if ltb 32767 n then negsuc 32767 else negsuc n

abbrev clamped : Floats
clamped = record whole { to_int16 = to_int16 }

to_int16-low : (a : ℤ) → negsuc 32767 ≤ℤ to_int16 a
to_int16-low (pos n) = ground arith
to_int16-low (negsuc n) = ground arith

to_int16-high : (a : ℤ) → to_int16 a ≤ℤ pos 32767
to_int16-high (pos n) = ground arith
to_int16-high (negsuc n) = ground arith

mav_fcu_rc_channels-Told_example :
    (s' : Sticks clamped) × (fcu' : Fcu) × (mav_fcu_rc_channels clamped world no_channels channels
        (at_rest clamped, fcu)
      ≡ ok (s', fcu'))
    × Told fcu'.cameras (tenths clamped world s'.cam_yaw) (tenths clamped world s'.cam_pitch)
    × Within clamped (negsuc 134) (pos 135) s'.cam_yaw
    × Within clamped (negsuc 89) (pos 25) s'.cam_pitch
mav_fcu_rc_channels-Told_example =
    mav_fcu_rc_channels-Told clamped (record { low = to_int16-low; high = to_int16-high }) world
      (record { lt_of_int = λ a b e e'. refl }) no_channels channels (at_rest clamped) fcu refl time
      (serving clamped)
