-- ===== src/System.antt =====
-- src/system.c: the file with the number of the server's process; and those who use it, `send_signal`
-- and `sig_handler` of src/uart_server.c. Whether the file can be opened for writing is an argument.
pub mod PidFile
pub mod Tests
use uav_mission_server.Prelude.{
  ℕ, zero, suc, Bool, true, false, List, [], ◌∷◌, Option, none, some, ◌==◌, if◌then◌else◌,
}
use uav_mission_server.Prelude.Int.{ℤ}
use uav_mission_server.Prelude.Libc.{atoi, show_int}
use uav_mission_server.Prelude.Outcomes.{Outcome, ok, exited, ◌>>=◌}

-- The text of `MASTER_PID_FILE`, `none` if there is no such file.
abbrev pub File : Type 0
File = Option (List ℕ)

-- `fopen` with "w+" makes the file, or empties it; a failure ends the process.
unfoldable pub create_pidfile : Bool → ℤ → File → Outcome File
create_pidfile opened pid file = if opened then ok (some (show_int pid)) else exited

-- `fgets`: up to `n` characters, and none behind the end of a line.
unfoldable pub fgets : ℕ → List ℕ → List ℕ
fgets zero text = []
fgets (suc n) [] = []
fgets (suc n) (c ∷ text) = c ∷ (if c == 10 then [] else fgets n text)

abbrev pub parse_line : List ℕ → Outcome ℤ
parse_line [] = exited
parse_line (c ∷ line) = ok (atoi (c ∷ line))

-- An empty file ends the process, too.
unfoldable pub read_pidfile : File → Outcome ℤ
unfolding fgets
read_pidfile none = exited
read_pidfile (some text) = parse_line (fgets 30 text)

-- `stat` and `remove`
unfoldable pub delete_pidfile : File → File
delete_pidfile none = none
delete_pidfile (some text) = none

-- The process and the signal that `kill` is called with.
unfoldable pub send_signal : ℤ → File → Outcome (ℤ × ℤ)
unfolding read_pidfile
send_signal signo file = read_pidfile file >>= λ pid. ok (pid, signo)

pub data Signal : Type 0 where
  sigint sigabrt sigterm other_signal : Signal

-- The handler returns, or it ends the process with an exit status of success, with the bytes in the
-- pipe of the shutdown and the file.
pub data Handled : Type 0 where
  returns ends : List ℕ → File → Handled

abbrev pub stop_process : List ℕ → File → Handled
stop_process pipe file = ends (0 ∷ pipe) (delete_pidfile file)

unfoldable pub sig_handler : Signal → List ℕ → File → Handled
unfolding delete_pidfile
sig_handler sigint pipe file = stop_process pipe file
sig_handler sigabrt pipe file = stop_process pipe file
sig_handler sigterm pipe file = stop_process pipe file
sig_handler other_signal pipe file = returns pipe file
