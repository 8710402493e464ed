-- ===== src/UartServer/Text/Tests.antt =====
-- One address.
use uav_mission_server.Prelude.{◌<◌, ◌≡◌, refl, arith, codes, length}
use uav_mission_server.Prelude.Libc.{digits}
use uav_mission_server.UartServer.Text.{ip_size, ipaddr_to_string}
use uav_mission_server.UartServer.Text.Address.{read_dotted, ipaddr_to_string-read_dotted}

home : ipaddr_to_string 0xc0a83219 ≡ codes "192.168.50.25"
unfolding ipaddr_to_string digits
home = refl

ipaddr_to_string-read_dotted_example :
    (length (ipaddr_to_string 0xc0a83219) < ip_size)
    × (read_dotted 0 0 (ipaddr_to_string 0xc0a83219) ≡ 0xc0a83219)
ipaddr_to_string-read_dotted_example = ipaddr_to_string-read_dotted 0xc0a83219 (omega arith)
