-- ===== src/UartServer/Command.antt =====
-- The commands of other processes: `run_commander` of src/main.c writes one into the FIFO, and
-- `read_user_cmd` of src/uart_server.c reads it. A `mavlink_cmd` in memory is 20 bytes, five
-- `int` of a little-endian host.
pub mod Laws
pub mod Tests
use uav_mission_server.Prelude.{
  ℕ, ◌+◌, ◌-◌, ◌*◌, ◌/◌, ◌%◌, ◌^◌, Bool, true, false, List, [], ◌∷◌, ◌++◌, Option, none, some,
  length, take, drop, get_or, ltb, leb, ◌==◌, if◌then◌else◌,
}
use uav_mission_server.Prelude.Int.{ℤ, pos, negsuc, ◌+ℤ◌, eq_ℤ, word}
use uav_mission_server.Prelude.Libc.{atoi}

abbrev pub sizeof_cmd : ℕ
sizeof_cmd = 20

abbrev pub play_tune_cmd : ℕ
play_tune_cmd = 0

-- The bytes of a 32-bit word in memory, and back.
abbrev pub int_bytes : ℕ → List ℕ
int_bytes w = (w % 2 ^ 8) ∷ (w / 2 ^ 8 % 2 ^ 8) ∷ (w / 2 ^ 16 % 2 ^ 8) ∷ (w / 2 ^ 24) ∷ []

abbrev pub word_at : ℕ → List ℕ → ℕ
word_at i bytes =
    get_or bytes i 0
    + 2 ^ 8 * get_or bytes (i + 1) 0
    + 2 ^ 16 * get_or bytes (i + 2) 0
    + 2 ^ 24 * get_or bytes (i + 3) 0

abbrev pub signed32 : ℕ → ℤ
signed32 w = if ltb w (2 ^ 31) then pos w else negsuc (2 ^ 32 - w - 1)

-- What `run_commander` writes: the type, `atoi` of the argument, and three words of the structure
-- that are never set, `unset`.
pub run_commander : List ℕ → List ℕ → List ℕ
run_commander unset command = int_bytes play_tune_cmd ++ int_bytes (word 32 (atoi command)) ++ unset

-- The `switch` over the type: the argument for `mavlink_send_play_tune`, if it is called.
abbrev pub select_action : List ℕ → Option ℤ
select_action cmd = if word_at 0 cmd == play_tune_cmd then some (signed32 (word_at 4 cmd)) else none

-- What `read` does to the memory of `user_cmd`, from offset `received` on. `none` is a write outside
-- of it.
abbrev pub fill : List ℕ → ℤ → List ℕ → Option (List ℕ)
fill user_cmd (pos n) bytes =
    if leb (n + length bytes) sizeof_cmd
    then some (take n user_cmd ++ bytes ++ drop (n + length bytes) user_cmd)
    else none
fill user_cmd (negsuc n) [] = some user_cmd
fill user_cmd (negsuc n) (b ∷ bytes) = none

-- Behind `received += rsize`.
abbrev pub finish : ℤ → List ℕ → ℤ × Option ℤ
finish received user_cmd =
    if eq_ℤ received (pos sizeof_cmd) then (pos 0, select_action user_cmd) else (received, none)

abbrev finish_read : ℤ → Option (List ℕ) → Option (ℤ × Option ℤ)
finish_read received none = none
finish_read received (some user_cmd) = some (finish received user_cmd)

-- `user_cmd` is what the fresh local variable holds, `result` what `read` stored, `none` for -1; the
-- last argument is the static `received`. The result is the new `received` and the tune asked for.
pub read_user_cmd : List ℕ → Option (List ℕ) → ℤ → Option (ℤ × Option ℤ)
unfolding ◌+ℤ◌
read_user_cmd user_cmd none received = some (finish (received +ℤ negsuc 0) user_cmd)
read_user_cmd user_cmd (some bytes) received =
    finish_read (received +ℤ pos (length bytes)) (fill user_cmd received bytes)
