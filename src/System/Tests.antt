-- ===== src/System/Tests.antt =====
-- One server.
use uav_mission_server.Prelude.{◌≡◌, refl, arith, true, [], ◌∷◌, none, some, codes}
use uav_mission_server.Prelude.Int.{pos}
use uav_mission_server.Prelude.Libc.{show_int}
use uav_mission_server.Prelude.Outcomes.{ok, exited}
use uav_mission_server.System.{
  create_pidfile, read_pidfile, delete_pidfile, send_signal, sigterm, other_signal, ends,
  sig_handler,
}
use uav_mission_server.System.PidFile.{create_pidfile-send_signal}

writes : create_pidfile true (pos 4711) none ≡ ok (some (codes "4711"))
unfolding create_pidfile show_int
writes = refl

create_pidfile-send_signal_example :
    (read_pidfile (some (codes "4711")) ≡ ok (pos 4711))
    × (send_signal (pos 15) (some (codes "4711")) ≡ ok (pos 4711, pos 15))
    × (sig_handler sigterm [] (some (codes "4711")) ≡ ends (0 ∷ []) none)
    × (read_pidfile (delete_pidfile (some (codes "4711"))) ≡ exited)
create_pidfile-send_signal_example =
    create_pidfile-send_signal (pos 4711) (pos 15) sigterm [] none (some (codes "4711"))
      (omega arith) (omega arith) (λ e. differ e) writes
  where
    differ : sigterm ≡ other_signal → ⊥
    differ e = cc
