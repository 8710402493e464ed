-- ===== src/UartServer/Command/Tests.antt =====
-- Commands at known inputs.
use uav_mission_server.Prelude.{ℕ, ◌≡◌, refl, List, replicate, codes}
use uav_mission_server.Prelude.Int.{negsuc}
use uav_mission_server.Prelude.Libc.{atoi}
use uav_mission_server.UartServer.Command.{sizeof_cmd}

minus_seven : atoi (codes "  -7x") ≡ negsuc 6
unfolding atoi
minus_seven = refl

abbrev memory : List ℕ
memory = replicate sizeof_cmd 0xaa

abbrev unset : List ℕ
unset = replicate 12 0
