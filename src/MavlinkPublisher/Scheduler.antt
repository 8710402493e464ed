-- ===== src/MavlinkPublisher/Scheduler.antt =====
-- `mavlink_tx_thread` of src/mavlink_publisher.c with `MSG_SCHEDULER_INIT` and `MSG_SEND_HZ`: the
-- thread of the heartbeats, interleaved with what the thread of the server does.
pub mod Spaced
pub mod Tests
use uav_mission_server.Prelude.{ℕ, Bool, true, false, List, [], ◌∷◌, if◌then◌else◌}
use uav_mission_server.MavlinkPublisher.{Numbers, mavlink_send_camera_hearbeart}
use uav_mission_server.MavlinkReceiver.{Fcu, on_link}

-- `double`, as far as it is used: `second` is the period of 1 Hz.
pub record Doubles : Type 1 where
  pub Number : Type 0
  pub sub : Number → Number → Number
  pub le : Number → Number → Bool
  pub second : Number

module _ (mav : Numbers) (D : Doubles) where
  -- A turn of the thread: what the other threads did since its last turn, and the time that
  -- `get_time_sec` gives.
  pub record Turn : Type 0 where
    pub others : Fcu → Fcu
    pub now : D.Number

  -- Asleep until the connection is made, or in the loop with `timer_1`.
  pub data Phase : Type 0 where
    asleep : Phase
    running : D.Number → Phase

  -- The thread with the state that it shares.
  pub record Publisher : Type 0 where
    pub phase : Phase
    pub fcu : Fcu

  abbrev pub beat : D.Number → Fcu → Publisher
  beat now fcu = record {
    phase = running now;
    fcu = on_link (mavlink_send_camera_hearbeart mav) fcu;
  }

  -- `while (!flight_controller_connected()) sleep(1);` and `MSG_SCHEDULER_INIT`, or the body of the
  -- loop, at the state that the others left.
  abbrev pub at_phase : Phase → D.Number → Fcu → Publisher
  at_phase asleep now fcu = record {
    phase = if fcu.serial_is_ready then running now else asleep;
    fcu = fcu;
  }
  at_phase (running timer) now fcu =
      if D.le D.second (D.sub now timer)
      then beat now fcu
      else record { phase = running timer; fcu = fcu }

  unfoldable pub turn : Turn → Publisher → Publisher
  turn t s = at_phase s.phase t.now (t.others s.fcu)

  -- What can be seen of a turn: its time, and the shared state that it finds and that it leaves.
  pub record Seen : Type 0 where
    pub now : D.Number
    pub found : Fcu
    pub left : Fcu

  abbrev pub see : Turn → Publisher → Seen
  see t s = record { now = t.now; found = t.others s.fcu; left = (turn t s).fcu }

  -- The thread never returns: this is what it is seen to do in as many turns.
  unfoldable pub mavlink_tx_thread : List Turn → Publisher → List Seen
  unfolding turn
  mavlink_tx_thread [] s = []
  mavlink_tx_thread (t ∷ turns) s = see t s ∷ mavlink_tx_thread turns (turn t s)
