-- ===== src/UartServer/Port/Tests.antt =====
-- Ports and numbers at known inputs.
use uav_mission_server.Prelude.{◌≡◌, refl, ◌↔◌, true, false, none, some, codes}
use uav_mission_server.UartServer.Port.{get_unsigned, digits_loop, server_port, check_port}
use uav_mission_server.UartServer.Port.Exact.{SpellsPort, server_port_iff}

leading_zeros : server_port (some (codes "0008278")) ≡ some 8278
unfolding server_port get_unsigned digits_loop check_port
leading_zeros = refl

out_of_range : server_port (some (codes "65536")) ≡ none
unfolding server_port get_unsigned digits_loop check_port
out_of_range = refl

-- The overflow check catches 2 ^ 32 + 1, and lets 5000000000 wrap to 705032704.
caught : (get_unsigned (some (codes "4294967297")) 10 0).0 ≡ false
unfolding get_unsigned digits_loop
caught = refl

not_caught : get_unsigned (some (codes "5000000000")) 10 0 ≡ (true, 705032704)
unfolding get_unsigned digits_loop
not_caught = refl

server_port_iff_example :
    (server_port (some (codes "0080")) ≡ some 80) ↔ SpellsPort (codes "0080") 80
server_port_iff_example = server_port_iff (codes "0080") 80
