-- ===== src/MavlinkPublisher/Tune.antt =====
-- Tunes, from the command line of another process to the message.
use uav_mission_server.Prelude.{
  ℕ, zero, suc, ◌-◌, ◌≤◌, ◌<◌, ◌^◌, ◌≡◌, refl, ◌⊎◌, inl, inr, arith, true, false, List, [], ◌∷◌,
  some, length, get_elem?, leb, leb→le, Bool-cases,
}
use uav_mission_server.Prelude.Int.{ℤ, pos, negsuc, word, ◌≤ℤ◌}
use uav_mission_server.Prelude.Libc.{atoi}
use uav_mission_server.UartServer.Command.{run_commander, read_user_cmd, sizeof_cmd}
use uav_mission_server.UartServer.Command.Laws.{read_user_cmd-run_commander}
use uav_mission_server.MavlinkPublisher.{
  Numbers, Link, play_tune, rb5_id, tune_table, tune_cnt, mavlink_send_play_tune,
}

abbrev pub playing : Numbers → List ℕ → Link → Link
playing mav tune link = record link {
  outbox =
      record {
        sender = record { sys_id = rb5_id; component_id = mav.mav_comp_id_onboard_computer };
        body = play_tune link.fcu_sysid mav.mav_comp_id_all tune [];
      }
      ∷ link.outbox;
}

-- A number of the table has its tune sent, and any other number is passed over.
abbrev pub Plays : Numbers → Link → ℤ → Type 0
Plays mav link n =
    ((k : ℕ) × (tune : List ℕ) × (n ≡ pos k)
      × (get_elem? tune_table k ≡ some tune)
      × (mavlink_send_play_tune mav n link ≡ some (playing mav tune link)))
    ⊎ (((k : ℕ) → n ≡ pos k → tune_cnt ≤ k) × (mavlink_send_play_tune mav n link ≡ some link))

in_table : {A : Type 0} (xs : List A) (k : ℕ) → k < length xs → (x : A) × (get_elem? xs k ≡ some x)
in_table [] k h = absurd (omega arith)
in_table (x ∷ xs) zero h = (x, refl)
in_table (x ∷ xs) (suc k) h = in_table xs k (omega arith)

leb-true : (v : ℕ) → 19 ≤ v → leb 19 v ≡ true
leb-true v h = ground arith

leb-false : (v : ℕ) → v < 19 → leb 19 v ≡ false
leb-false v h = ground arith

-- For every `int`, negative ones included, the table is read inside its bounds: the numbers 0 to 18
-- send the tune of that number to the flight controller, and any other sends nothing.
pub mavlink_send_play_tune-Plays :
    (mav : Numbers) (link : Link) (n : ℤ)
    → negsuc (2 ^ 31 - 1) ≤ℤ n
    → n ≤ℤ pos (2 ^ 31 - 1)
    → Plays mav link n
unfolding mavlink_send_play_tune
mavlink_send_play_tune-Plays mav link (negsuc m) lo hi =
    inr (λ k e. cc, rw (leb-true (word 64 (negsuc m)) (omega arith)) refl)
mavlink_send_play_tune-Plays mav link (pos n) lo hi = elim (Bool-cases (leb tune_cnt n)) [
  | inl past ↦ inr (
    λ k e. bound k e past,
    rw (leb-true (word 64 (pos n)) (omega (arith, leb→le 19 n past))) refl,
  )
  | inr inside ↦
      (let same : word 64 (pos n) ≡ n = omega arith in
        let (tune, at) = in_table tune_table n (inside_lt inside) in
        inl (
          n,
          tune,
          refl,
          at,
          rw (leb-false (word 64 (pos n)) (omega (arith, inside_lt inside))) (rw (same, at) refl),
        ))
]
  where
    bound : (k : ℕ) → pos n ≡ pos k → leb tune_cnt n ≡ true → tune_cnt ≤ k
    bound k e past = ground arith

    inside_lt : leb tune_cnt n ≡ false → n < 19
    inside_lt h = ground arith

-- A command of another process for an `int` is played if it is the number of a tune, and passed over
-- if it is not: `run_commander`, the FIFO, `read_user_cmd` and `mavlink_send_play_tune` together.
pub run_commander-mavlink_send_play_tune :
    (mav : Numbers) (link : Link) (user_cmd unset command : List ℕ)
    → length user_cmd ≡ sizeof_cmd
    → length unset ≡ 12
    → negsuc (2 ^ 31 - 1) ≤ℤ atoi command
    → atoi command ≤ℤ pos (2 ^ 31 - 1)
    → (n : ℤ) × (read_user_cmd user_cmd (some (run_commander unset command)) (pos 0)
        ≡ some (pos 0, some n))
      × (n ≡ atoi command)
      × Plays mav link n
run_commander-mavlink_send_play_tune mav link user_cmd unset command h k lo hi = (
  atoi command,
  read_user_cmd-run_commander user_cmd unset command h k lo hi,
  refl,
  mavlink_send_play_tune-Plays mav link (atoi command) lo hi,
)
