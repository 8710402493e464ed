-- ===== src/UartServer/Command/Laws.antt =====
-- What becomes of a command between `run_commander` and `read_user_cmd`.
use mathlib.Core.List.{append-nil}
use uav_mission_server.Prelude.{
  ℕ, ◌+◌, ◌-◌, ◌*◌, ◌/◌, ◌%◌, ◌^◌, ◌<◌, ◌≡◌, refl, sym, ap, ◌∙◌, arith, List, [], ◌∷◌, ◌++◌, none,
  some, length, take, drop, drop-length,
}
use uav_mission_server.Prelude.Int.{word-lt, ℤ, pos, negsuc, ◌≤ℤ◌, word}
use uav_mission_server.Prelude.Libc.{atoi}
use uav_mission_server.UartServer.Command.{
  sizeof_cmd, signed32, run_commander, select_action, read_user_cmd,
}

signed32-word :
    (z : ℤ) → negsuc (2 ^ 31 - 1) ≤ℤ z → z ≤ℤ pos (2 ^ 31 - 1) → signed32 (word 32 z) ≡ z
signed32-word (pos n) lo hi = ground arith
signed32-word (negsuc n) lo hi = ground arith

word_of_bytes :
    (w : ℕ)
    → w < 2 ^ 32
    → w % 2 ^ 8
        + 2 ^ 8 * (w / 2 ^ 8 % 2 ^ 8)
        + 2 ^ 16 * (w / 2 ^ 16 % 2 ^ 8)
        + 2 ^ 24 * (w / 2 ^ 24)
      ≡ w
word_of_bytes w h = omega arith

-- A whole command in one read.
whole_read :
    (user_cmd bytes : List ℕ)
    → length user_cmd ≡ sizeof_cmd
    → length bytes ≡ sizeof_cmd
    → read_user_cmd user_cmd (some bytes) (pos 0)
      ≡ some (pos 0, select_action (bytes ++ drop (0 + length bytes) user_cmd))
unfolding read_user_cmd
whole_read user_cmd bytes h k = ground arith

commander_action :
    (unset command rest : List ℕ)
    → negsuc (2 ^ 31 - 1) ≤ℤ atoi command
    → atoi command ≤ℤ pos (2 ^ 31 - 1)
    → select_action (run_commander unset command ++ rest) ≡ some (atoi command)
unfolding run_commander
commander_action unset command rest lo hi = ap some (
    ap signed32 (word_of_bytes (word 32 (atoi command)) (word-lt 32 (atoi command) (omega arith)))
    ∙ signed32-word (atoi command) lo hi)

length-run_commander :
    (unset command : List ℕ) → length (run_commander unset command) ≡ 8 + length unset
unfolding run_commander
length-run_commander unset command = omega arith

-- For every argument that `atoi` reads as an `int`, the command that `--send-tune` writes is read in
-- one piece and asks for that tune, whatever the memory held before; and the reader is ready for the
-- next command.
pub read_user_cmd-run_commander :
    (user_cmd unset command : List ℕ)
    → length user_cmd ≡ sizeof_cmd
    → length unset ≡ 12
    → negsuc (2 ^ 31 - 1) ≤ℤ atoi command
    → atoi command ≤ℤ pos (2 ^ 31 - 1)
    → read_user_cmd user_cmd (some (run_commander unset command)) (pos 0)
      ≡ some (pos 0, some (atoi command))
read_user_cmd-run_commander user_cmd unset command h k lo hi =
    whole_read user_cmd (run_commander unset command) h
      (omega (arith, length-run_commander unset command))
    ∙ ap (λ a. some (pos 0, a)) (commander_action unset command _ lo hi)

-- A command that arrives in two reads loses its first part: `user_cmd` is a fresh local variable in
-- each call, so what the action is taken from are the second part and, in front of it, whatever the
-- memory of the second call held.
read_user_cmd_split :
    (user_cmd user_cmd' first second : List ℕ)
    → length user_cmd ≡ sizeof_cmd
    → length user_cmd' ≡ sizeof_cmd
    → length first < sizeof_cmd
    → length first + length second ≡ sizeof_cmd
    → (read_user_cmd user_cmd (some first) (pos 0) ≡ some (pos (length first), none))
      × (read_user_cmd user_cmd' (some second) (pos (length first))
          ≡ some (pos 0, select_action (take (length first) user_cmd' ++ second)))
unfolding read_user_cmd
read_user_cmd_split user_cmd user_cmd' first second h h' lt e =
    (ground arith, rw (e, nothing_behind, append-nil (take (length first) user_cmd' ++ second)))
  where
    nothing_behind : drop sizeof_cmd user_cmd' ≡ []
    nothing_behind = ap (λ k. drop k user_cmd') (sym h') ∙ drop-length user_cmd'

-- A read that fails moves `received` below 0, and the next read that gets bytes writes them in front
-- of `user_cmd`.
read_user_cmd_underflow :
    (user_cmd user_cmd' : List ℕ) (b : ℕ) (bytes : List ℕ)
    → (received : ℤ) × (read_user_cmd user_cmd none (pos 0) ≡ some (received, none))
      × (read_user_cmd user_cmd' (some (b ∷ bytes)) received ≡ none)
unfolding read_user_cmd
read_user_cmd_underflow user_cmd user_cmd' b bytes = (negsuc 0, refl, refl)
