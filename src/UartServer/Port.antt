-- ===== src/UartServer/Port.antt =====
-- src/uart_server.c: the TCP port of the command line, `get_unsigned` and the range check of
-- `run_uart_server`. A C string is the list of its characters, without the final NUL.
pub mod Exact
pub mod Tests
use uav_mission_server.Prelude.{
  ℕ, zero, suc, ◌+◌, ◌-◌, ◌*◌, ◌%◌, ◌^◌, Bool, true, false, not, ◌&&◌, ◌||◌, List, [], ◌∷◌, Option,
  none, some, length, ltb, leb, ◌==◌, if◌then◌else◌,
}

abbrev pub isdigit : ℕ → Bool
isdigit c = leb b'0' c && leb c b'9'

-- `*o_result *= 10; *o_result += *s++ - '0'`, each in `unsigned`.
abbrev pub push_digit : ℕ → ℕ → ℕ
push_digit result c = (result * 10 % 2 ^ 32 + (c - b'0')) % 2 ^ 32

-- The `do … while (--len)` loop with `len` rounds left. The result is the returned flag and what
-- `*o_result` holds then. At the end of the list the loop reads the NUL, which is no digit.
pub digits_loop : ℕ → List ℕ → ℕ → Bool × ℕ
digits_loop zero s result = (true, result)
digits_loop (suc len) [] result = (false, result)
digits_loop (suc len) (c ∷ s) result =
    let next = push_digit result c in
    let rest = digits_loop len s next in
    if isdigit c then (if ltb next result then (false, next) else rest) else (false, result)

-- `s` may be NULL; `o_result` is what `*o_result` holds before the call.
pub get_unsigned : Option (List ℕ) → ℕ → ℕ → Bool × ℕ
get_unsigned none len o_result = (false, o_result)
get_unsigned (some s) len o_result = if len == 0 then (false, o_result) else digits_loop len s 0

abbrev pub default_port : ℕ
default_port = 8278

-- The condition of `run_uart_server` on what `get_unsigned` returned and stored.
unfoldable pub check_port : Bool × ℕ → Option ℕ
check_port (parsed, port) = if not parsed || port == 0 || ltb 0xffff port then none else some port

-- The port that `run_uart_server` binds to; `none` is the exit with the usage text.
unfoldable pub server_port : Option (List ℕ) → Option ℕ
server_port none = some default_port
server_port (some net_port) =
    check_port (get_unsigned (some net_port) (length net_port) default_port)
