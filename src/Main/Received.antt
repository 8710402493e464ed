-- ===== src/Main/Received.antt =====
-- The main loop of `run_uart_server` with `read_mavlink_msg`, which `send_data_to_clients` of
-- src/uart_server.c calls with what it has read.
use uav_mission_server.Prelude.{
  ℕ, suc, ◌+◌, ◌≡◌, refl, sym, ap, ◌∙◌, arith, List, [], ◌∷◌, ◌++◌, length,
}
use uav_mission_server.Prelude.Outcomes.{Outcome, ok, ◌>>=◌}
use uav_mission_server.RtspStream.Timestamp.{IsTime}
use uav_mission_server.SiyiCamera.Operations.{World}
use uav_mission_server.Config.Rc.{ConfigRc}
use uav_mission_server.UartServer.State.{Server, Effect, sent, closed, wrote, parsed, tune, initial}
use uav_mission_server.UartServer.Clients.Heard.{heard}
use uav_mission_server.UartServer.Loop.{Inputs, next, serve}
use uav_mission_server.UartServer.Loop.Heard.{all_given, heard-serve}
use uav_mission_server.MavlinkPublisher.{Numbers}
use uav_mission_server.MavlinkReceiver.{Fcu}
use uav_mission_server.MavlinkReceiver.Rc.{Floats, Sticks}
use uav_mission_server.MavlinkReceiver.Messages.{Parser, Byte, Channel, read_mavlink_msg}
use uav_mission_server.MavlinkReceiver.Messages.Connection.{
  messages, learn_all, known_of, read_mavlink_msg-learn_all, read_mavlink_msg-append,
}
use uav_mission_server.MavlinkReceiver.Messages.Radio.{Serving}
use uav_mission_server.MavlinkReceiver.Messages.Returns.{Times, read_mavlink_msg_returns}

-- Bytes with what the system gives while they are handled, by their number in the run.
unfoldable pub stamp : (ℕ → World) → ℕ → List ℕ → List Byte
stamp at n [] = []
stamp at n (b ∷ bytes) = record { value = b; world = at n } ∷ stamp at (suc n) bytes

stamp-append :
    (at : ℕ → World) (n : ℕ) (a b : List ℕ)
    → stamp at n (a ++ b) ≡ stamp at n a ++ stamp at (n + length a) b
unfolding stamp
stamp-append at n [] b = ap (λ k. stamp at k b) (omega arith)
stamp-append at n (x ∷ a) b =
    ap (λ l. record { value = x; world = at n } ∷ l)
      (stamp-append at (suc n) a b ∙ ap (λ k. stamp at (suc n) a ++ stamp at k b) (omega arith))

stamp-Times :
    (at : ℕ → World) (n : ℕ) (bytes : List ℕ)
    → ((k : ℕ) → IsTime (at k).now)
    → Times (stamp at n bytes)
unfolding stamp
stamp-Times at n [] h = tt
stamp-Times at n (b ∷ bytes) h = (h n, stamp-Times at (suc n) bytes h)

module _ (mav : Numbers) (F : Floats) (channels : List ConfigRc) (P : Parser) (at : ℕ → World) where
  -- The calls of `read_mavlink_msg` in a log, which has the newest entry first.
  unfoldable pub handle_log :
      List Effect → Channel mav F channels P → Outcome (Channel mav F channels P)
  handle_log [] c = ok c
  handle_log (parsed bytes ∷ log) c =
      handle_log log c >>= read_mavlink_msg mav F channels P (stamp at (length (heard log)) bytes)
  handle_log (sent fd bytes ∷ log) c = handle_log log c
  handle_log (closed fd ∷ log) c = handle_log log c
  handle_log (wrote id bytes ∷ log) c = handle_log log c
  handle_log (tune n ∷ log) c = handle_log log c

  handle_log-heard :
      (log : List Effect) (c : Channel mav F channels P)
      → handle_log log c ≡ read_mavlink_msg mav F channels P (stamp at 0 (heard log)) c
  unfolding handle_log
  handle_log-heard [] c = unfold read_mavlink_msg stamp in refl
  handle_log-heard (parsed bytes ∷ log) c =
      let later = stamp at (length (heard log)) bytes in
      ap (λ m. m >>= read_mavlink_msg mav F channels P later) (handle_log-heard log c)
      ∙ sym (read_mavlink_msg-append mav F channels P (stamp at 0 (heard log)) later c)
      ∙ ap (λ buf. read_mavlink_msg mav F channels P buf c)
          (sym (
            stamp-append at 0 (heard log) bytes
            ∙ ap (λ k. stamp at 0 (heard log) ++ stamp at k bytes) (omega arith)))
  handle_log-heard (sent fd bytes ∷ log) c = handle_log-heard log c
  handle_log-heard (closed fd ∷ log) c = handle_log-heard log c
  handle_log-heard (wrote id bytes ∷ log) c = handle_log-heard log c
  handle_log-heard (tune n ∷ log) c = handle_log-heard log c

  -- In any run of the main loop from the start, whatever clients do and the system calls give, and with
  -- the first camera open and a clock as for `read_mavlink_msg_returns`: what the serial port gives is
  -- handled as if it had been read at once, no byte lost or handled twice, also where clients are
  -- dropped; all of it is handled to the end, with the camera still open; and the connection is what
  -- the messages say.
  pub serve-read_mavlink_msg :
      (is : List Inputs) (server' : Server) (p : P.State) (s : Sticks F) (fcu : Fcu)
      → serve is initial ≡ next server'
      → length channels ≡ 18
      → ((n : ℕ) → IsTime (at n).now)
      → Serving F (s, fcu)
      → (handle_log server'.log (p, (s, fcu))
          ≡ read_mavlink_msg mav F channels P (stamp at 0 (all_given is)) (p, (s, fcu)))
        × (p' : P.State) × (both : Sticks F × Fcu) × (handle_log server'.log (p, (s, fcu))
            ≡ ok (p', both))
        × Serving F both
        × (known_of both.1 ≡ learn_all (messages P (stamp at 0 (all_given is)) p) (known_of fcu))
  serve-read_mavlink_msg is server' p s fcu e size times h =
      let buf = stamp at 0 (all_given is) in
      let at_once =
        handle_log-heard server'.log (p, (s, fcu))
        ∙ ap (λ l. read_mavlink_msg mav F channels P (stamp at 0 l) (p, (s, fcu)))
            (heard-serve is initial server' e) in
      let (p', both, read, h') =
        read_mavlink_msg_returns mav F channels size P buf p s fcu
          (stamp-Times at 0 (all_given is) times) h in
      (
        at_once,
        p',
        both,
        at_once ∙ read,
        h',
        read_mavlink_msg-learn_all mav F channels P buf p p' s both.0 fcu both.1 read,
      )
