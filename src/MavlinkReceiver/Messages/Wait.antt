-- ===== src/MavlinkReceiver/Messages/Wait.antt =====
-- The wait for the flight controller at the start of `run_uart_server`.
use uav_mission_server.Prelude.{
  ◌≡◌, refl, sym, ap, ◌∙◌, inl, inr, true, false, Bool-cases, List, [], ◌∷◌, ◌++◌, Option, none,
  some, length, ◌==◌,
}
use uav_mission_server.Prelude.Outcomes.{ok, ◌>>=◌, >>=-eq-ok, ok_injective}
use uav_mission_server.Config.Rc.{ConfigRc}
use uav_mission_server.MavlinkPublisher.{
  Numbers, mavlink_send_msg, mavlink_send_request_autopilot_capabilities,
}
use uav_mission_server.MavlinkReceiver.{MavlinkMessage, Fcu, on_link}
use uav_mission_server.MavlinkReceiver.Rc.{Floats, Sticks}
use uav_mission_server.MavlinkReceiver.Messages.{
  Parser, Byte, Channel, handle_parsed, read_mavlink_msg, flight_controller_connected,
  unless_connected, wait_round, wait_for_connection,
}
use uav_mission_server.MavlinkReceiver.Messages.Connection.{
  prepend, messages, Known, learn, learn_all, known_of, read_mavlink_msg-learn_all,
}
use uav_mission_server.MavlinkReceiver.Messages.Radio.{Serving}
use uav_mission_server.MavlinkReceiver.Messages.Returns.{Times, read_mavlink_msg_returns}

abbrev pub all_bytes : List (List Byte) → List Byte
all_bytes [] = []
all_bytes (r ∷ rs) = r ++ all_bytes rs

abbrev pub AllTimes : List (List Byte) → Type 0
AllTimes [] = Unit {0}
AllTimes (r ∷ rs) = Times r × AllTimes rs

learn_connected :
    (msgs : List MavlinkMessage) (known : Known) → known.0 ≡ true → (learn_all msgs known).0 ≡ true
learn_connected [] known h = h
learn_connected (msg ∷ msgs) known h = learn_connected msgs (learn msg known) one
  where
    one : (learn msg known).0 ≡ true
    one = elim (Bool-cases (msg.msgid == 148)) [ inl is ↦ rw is refl | inr other ↦ rw other h ]

module _ (P : Parser) where
  -- The state of the parser behind bytes.
  parser_after : List Byte → P.State → P.State
  parser_after [] p = p
  parser_after (b ∷ buf) p = parser_after buf (P.mavlink_parse_char b.value p).0

  learn-append :
      (a b : List Byte) (p : P.State) (known : Known)
      → learn_all (messages P (a ++ b) p) known
        ≡ learn_all (messages P b (parser_after a p)) (learn_all (messages P a p) known)
  unfolding parser_after
  learn-append [] b p known = refl
  learn-append (x ∷ a) b p known =
      let (q, parsed) = P.mavlink_parse_char x.value p in
      go parsed (messages P (a ++ b) q) (messages P a q) (messages P b (parser_after a q))
        (learn-append a b q) known
    where
      go :
          (parsed : Option MavlinkMessage) (whole front back : List MavlinkMessage)
          → ((k : Known) → learn_all whole k ≡ learn_all back (learn_all front k))
          → (k : Known)
          → learn_all (prepend parsed whole) k ≡ learn_all back (learn_all (prepend parsed front) k)
      go none whole front back h k = h k
      go (some msg) whole front back h k = h (learn msg k)

  module _ (mav : Numbers) (F : Floats) (channels : List ConfigRc) where
    read-parser_after :
        (buf : List Byte) (p p' : P.State) (s s' : Sticks F × Fcu)
        → read_mavlink_msg mav F channels P buf (p, s) ≡ ok (p', s')
        → p' ≡ parser_after buf p
    unfolding read_mavlink_msg parser_after
    read-parser_after [] p p' s s' e = ap (λ c. c.0) (sym (ok_injective e))
    read-parser_after (b ∷ buf) p p' s s' e =
        let (q, parsed) = P.mavlink_parse_char b.value p in
        let (t, handled, rest) =
          >>=-eq-ok (handle_parsed mav F channels parsed b.world s)
            (λ r. read_mavlink_msg mav F channels P buf (q, r)) (p', s') e in
        read-parser_after buf q p' t s' rest

    wait_connected :
        (reads : List (List Byte)) (c : Channel mav F channels P)
        → flight_controller_connected mav F channels P c ≡ true
        → wait_for_connection mav F channels P reads c ≡ ok (true, c)
    unfolding wait_for_connection
    wait_connected [] c h = ap (λ b. ok (b, c)) h
    wait_connected (r ∷ reads) c h =
        ap
          (λ b.
            unless_connected mav F channels P b c
              (wait_round mav F channels P r c >>= wait_for_connection mav F channels P reads))
          h

    wait_on :
        (r : List Byte) (reads : List (List Byte)) (c c' : Channel mav F channels P)
        → flight_controller_connected mav F channels P c ≡ false
        → wait_round mav F channels P r c ≡ ok c'
        → wait_for_connection mav F channels P (r ∷ reads) c
          ≡ wait_for_connection mav F channels P reads c'
    unfolding wait_for_connection
    wait_on r reads c c' h e =
        ap
          (λ b.
            unless_connected mav F channels P b c
              (wait_round mav F channels P r c >>= wait_for_connection mav F channels P reads))
          h
        ∙ ap (λ m. m >>= wait_for_connection mav F channels P reads) e

    -- While the first camera is open as for `read_mavlink_msg_returns`, the wait over any reads
    -- returns, reads that time out or fail among them and however the bytes are spread over them. It
    -- has ended, with a connection, exactly if there was one before or one of the messages of the
    -- bytes is an autopilot version; the camera is still open behind it.
    pub wait_for_connection-learn_all :
        length channels ≡ 18
        → (reads : List (List Byte)) (p : P.State) (s : Sticks F) (fcu : Fcu) → AllTimes reads
        → Serving F (s, fcu)
        → (p' : P.State) × (both : Sticks F × Fcu) × (wait_for_connection mav F channels P reads
              (p, (s, fcu))
            ≡ ok ((learn_all (messages P (all_bytes reads) p) (known_of fcu)).0, (p', both)))
          × (both.1.serial_is_ready ≡ (learn_all (messages P (all_bytes reads) p) (known_of fcu)).0)
          × Serving F both
    unfolding wait_for_connection mavlink_send_request_autopilot_capabilities mavlink_send_msg
    wait_for_connection-learn_all size [] p s fcu times h = (p, (s, fcu), refl, refl, h)
    wait_for_connection-learn_all size (r ∷ reads) p s fcu times h =
        elim (Bool-cases fcu.serial_is_ready) [
          | inl connected ↦
              let heard =
                learn_connected (messages P (r ++ all_bytes reads) p) (known_of fcu) connected in
              (
                p,
                (s, fcu),
                wait_connected (r ∷ reads) (p, (s, fcu)) connected
                    ∙ ap (λ b. ok (b, (p, (s, fcu)))) (sym heard),
                connected ∙ sym heard,
                h,
              )
          | inr waiting ↦
              let asked : Fcu = on_link (mavlink_send_request_autopilot_capabilities mav) fcu in
              let (p', both, read, h') =
                read_mavlink_msg_returns mav F channels size P r p s asked times.0 h in
              let (p'', both', rest, ready, h'') =
                wait_for_connection-learn_all size reads p' both.0 both.1 times.1 h' in
              let known =
                read_mavlink_msg-learn_all mav F channels P r p p' s both.0 asked both.1 read in
              let heard : (learn_all (messages P (all_bytes reads) p') (known_of both.1)).0
                  ≡ (learn_all (messages P (r ++ all_bytes reads) p) (known_of fcu)).0 =
                ap (λ q. (learn_all (messages P (all_bytes reads) q) (known_of both.1)).0)
                  (read-parser_after r p p' (s, asked) both read)
                ∙ ap (λ k. (learn_all (messages P (all_bytes reads) (parser_after r p)) k).0) known
                ∙ ap (λ k. k.0) (sym (learn-append r (all_bytes reads) p (known_of fcu))) in
              (
                p'',
                both',
                wait_on r reads (p, (s, fcu)) (p', both) waiting read
                    ∙ rest
                    ∙ ap (λ b. ok (b, (p'', both'))) heard,
                ready ∙ heard,
                h'',
              )
        ]
