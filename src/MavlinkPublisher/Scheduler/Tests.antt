-- ===== src/MavlinkPublisher/Scheduler/Tests.antt =====
-- Heartbeats with a clock of whole tenths of a second.
use uav_mission_server.Prelude.{ℕ, ◌-◌, ◌≡◌, refl, true, false, List, [], ◌∷◌, leb, length, map}
use uav_mission_server.MavlinkPublisher.{mavlink_send_msg, mavlink_send_camera_hearbeart}
use uav_mission_server.MavlinkReceiver.Tests.{numbers, fcu_of, camera}
use uav_mission_server.MavlinkPublisher.Scheduler.{
  Doubles, Turn, asleep, Publisher, turn, mavlink_tx_thread,
}
use uav_mission_server.MavlinkPublisher.Scheduler.Spaced.{Scheduled, mavlink_tx_thread-Scheduled}

abbrev tenths : Doubles
tenths = record { Number = ℕ; sub = ◌-◌; le = leb; second = 10 }

abbrev at : ℕ → Turn numbers tenths
at now = record { others = λ fcu. fcu; now = now }

-- The server has made the connection since the last turn.
abbrev connected_at : ℕ → Turn numbers tenths
connected_at now = record { others = λ fcu. record fcu { serial_is_ready = true }; now = now }

abbrev sleeper : Publisher numbers tenths
sleeper = record { phase = asleep; fcu = record (fcu_of camera false) { serial_is_ready = false } }

abbrev turns : List (Turn numbers tenths)
turns = at 80 ∷ connected_at 100 ∷ at 105 ∷ at 111 ∷ at 120 ∷ at 135 ∷ []

-- How many messages each turn leaves.
outbox_of :
    map (λ o. length o.left.link.outbox) (mavlink_tx_thread numbers tenths turns sleeper)
    ≡ 0 ∷ 0 ∷ 0 ∷ 1 ∷ 1 ∷ 2 ∷ []
unfolding mavlink_tx_thread turn mavlink_send_camera_hearbeart mavlink_send_msg
outbox_of = refl

mavlink_tx_thread-Scheduled_example :
    Scheduled numbers tenths (mavlink_tx_thread numbers tenths turns sleeper)
mavlink_tx_thread-Scheduled_example = mavlink_tx_thread-Scheduled numbers tenths turns sleeper refl
