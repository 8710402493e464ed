-- ===== src/MavlinkReceiver/Messages/Connection.antt =====
-- The connection, read off the messages; and bytes that come in several reads.
use uav_mission_server.Prelude.{
  ℕ, ◌≡◌, refl, sym, ap, ◌∙◌, arith, Bool, true, false, ◌==◌, List, [], ◌∷◌, ◌++◌, Option, none,
  some, if◌then◌else◌,
}
use uav_mission_server.Prelude.Outcomes.{
  Outcome, ok, ◌>>=◌, >>=-eq-ok, ok_injective, bind_assoc, bind_same,
}
use uav_mission_server.Config.Rc.{ConfigRc}
use uav_mission_server.SiyiCamera.Operations.{World}
use uav_mission_server.MavlinkPublisher.{Numbers}
use uav_mission_server.MavlinkReceiver.{
  MavlinkMessage, Fcu, mav_command_long, mav_fcu_autopilot_version,
}
use uav_mission_server.MavlinkReceiver.Rc.{Floats, Sticks}
use uav_mission_server.MavlinkReceiver.Messages.{
  Parser, Byte, Channel, fcu_cmds, parse_mavlink_msg, handle_parsed, on_command_long,
  read_mavlink_msg,
}
use uav_mission_server.MavlinkReceiver.Messages.Kept.{
  Keeps, Keeps-eq, mav_fcu_rc_channels-Keeps, mav_command_long-Keeps,
}

-- The messages that the bytes complete, by the parser alone.
abbrev pub prepend : Option MavlinkMessage → List MavlinkMessage → List MavlinkMessage
prepend none msgs = msgs
prepend (some msg) msgs = msg ∷ msgs

abbrev pub messages : (P : Parser) → List Byte → P.State → List MavlinkMessage
messages P [] p = []
messages P (b ∷ buf) p =
    let (p', parsed) = P.mavlink_parse_char b.value p in prepend parsed (messages P buf p')

-- What is known of the connection: whether there is one, and the system at its other end.
abbrev pub Known : Type 0
Known = Bool × ℕ

-- An autopilot version makes the connection, with the system that sent it.
abbrev pub learn : MavlinkMessage → Known → Known
learn msg known = if msg.msgid == 148 then (true, msg.sysid) else known

abbrev pub learn_all : List MavlinkMessage → Known → Known
learn_all [] known = known
learn_all (msg ∷ msgs) known = learn_all msgs (learn msg known)

abbrev pub known_of : Fcu → Known
known_of fcu = (fcu.serial_is_ready, fcu.link.fcu_sysid)

abbrev Learns : MavlinkMessage → Fcu → Fcu → Type 0
Learns msg fcu fcu' = known_of fcu' ≡ learn msg (known_of fcu)

known_kept : (fcu fcu' : Fcu) → Keeps fcu fcu' → known_of fcu' ≡ known_of fcu
known_kept fcu fcu' h = λ i. (h.ready i, h.sysid i)

module _ {A : Type 0} (C : Type 0) (a : A) where
  -- A test and what is behind it, with what it says.
  on_test :
      (b : Bool) (x y : Outcome A)
      → (b ≡ true → x ≡ ok a → C)
      → (b ≡ false → y ≡ ok a → C)
      → (if b then x else y) ≡ ok a
      → C
  on_test true x y h k e = h refl e
  on_test false x y h k e = k refl e

module _ (mav : Numbers) (F : Floats) (channels : List ConfigRc) where
  other_message :
      (n : ℕ) (msg : MavlinkMessage) (fcu fcu' : Fcu)
      → (n == 148) ≡ false
      → (msg.msgid == n) ≡ true
      → Keeps fcu fcu'
      → known_of fcu' ≡ learn msg (known_of fcu)
  other_message n msg fcu fcu' apart is keeps =
      known_kept fcu fcu' keeps ∙ rw (not_version n msg apart is) refl
    where
      not_version :
          (k : ℕ) (m : MavlinkMessage)
          → (k == 148) ≡ false
          → (m.msgid == k) ≡ true
          → (m.msgid == 148) ≡ false
      not_version k m h g = ground arith

  same_state :
      (s s' : Sticks F) (fcu fcu' : Fcu)
      → ◌≡◌ {A = Outcome (Sticks F × Fcu)} (ok (s, fcu)) (ok (s', fcu'))
      → Keeps fcu fcu'
  same_state s s' fcu fcu' e = Keeps-eq (ap (λ p. p.1) (ok_injective e))

  command_state :
      (w : World) (msg : MavlinkMessage) (s s' : Sticks F) (fcu fcu' : Fcu)
      → on_command_long mav F channels w msg (s, fcu) ≡ ok (s', fcu')
      → Keeps fcu fcu'
  command_state w msg s s' fcu fcu' e =
      let (f, done, is) =
        >>=-eq-ok (mav_command_long mav w msg fcu) (λ f. ok (s, f)) (s', fcu') e in
      mav_command_long-Keeps mav w msg fcu fcu' (done ∙ ap ok (ap (λ p. p.1) (ok_injective is)))

  pub parse-learn :
      (w : World) (msg : MavlinkMessage) (s s' : Sticks F) (fcu fcu' : Fcu)
      → parse_mavlink_msg mav F channels (fcu_cmds mav F channels) w msg (s, fcu) ≡ ok (s', fcu')
      → known_of fcu' ≡ learn msg (known_of fcu)
  unfolding parse_mavlink_msg mav_fcu_autopilot_version
  parse-learn w msg s s' fcu fcu' =
      on_test (Learns msg fcu fcu') (s', fcu') (msg.msgid == 4) _ _
        (λ is e. other_message 4 msg fcu fcu' refl is (same_state s s' fcu fcu' e))
        (λ not4.
          on_test (Learns msg fcu fcu') (s', fcu') (msg.msgid == 24) _ _
            (λ is e. other_message 24 msg fcu fcu' refl is (same_state s s' fcu fcu' e))
            (λ not24.
              on_test (Learns msg fcu fcu') (s', fcu') (msg.msgid == 65) _ _
                (λ is e.
                  other_message 65 msg fcu fcu' refl is
                    (mav_fcu_rc_channels-Keeps F w channels msg.rc_channels s s' fcu fcu' e))
                (λ not65.
                  on_test (Learns msg fcu fcu') (s', fcu') (msg.msgid == 76) _ _
                    (λ is e.
                      other_message 76 msg fcu fcu' refl is (command_state w msg s s' fcu fcu' e))
                    (λ not76.
                      on_test (Learns msg fcu fcu') (s', fcu') (msg.msgid == 148) _ _
                        (λ is e. ap known_of (sym (ap (λ p. p.1) (ok_injective e))) ∙ rw is refl)
                        (λ not148 e.
                          known_kept fcu fcu' (same_state s s' fcu fcu' e) ∙ rw not148 refl)))))

  module _ (P : Parser) where
    -- After the bytes of a read, the connection is what their messages say: there is one if there was
    -- one before or an autopilot version was among them, and its system is that of the last one; no
    -- other message has a part in it.
    pub read_mavlink_msg-learn_all :
        (buf : List Byte) (p p' : P.State) (s s' : Sticks F) (fcu fcu' : Fcu)
        → read_mavlink_msg mav F channels P buf (p, (s, fcu)) ≡ ok (p', (s', fcu'))
        → known_of fcu' ≡ learn_all (messages P buf p) (known_of fcu)
    unfolding read_mavlink_msg
    read_mavlink_msg-learn_all [] p p' s s' fcu fcu' e =
        ap (λ c. known_of c.1.1) (sym (ok_injective e))
    read_mavlink_msg-learn_all (b ∷ buf) p p' s s' fcu fcu' e =
        let (q, parsed) = P.mavlink_parse_char b.value p in
        let ((t, f), handled, rest) =
          >>=-eq-ok (handle_parsed mav F channels parsed b.world (s, fcu))
            (λ r. read_mavlink_msg mav F channels P buf (q, r)) (p', (s', fcu')) e in
        read_mavlink_msg-learn_all buf q p' t s' f fcu' rest
        ∙ one parsed b.world t f handled (messages P buf q)
      where
        one :
            (parsed : Option MavlinkMessage) (w : World) (t : Sticks F) (f : Fcu)
            → handle_parsed mav F channels parsed w (s, fcu) ≡ ok (t, f)
            → (msgs : List MavlinkMessage)
            → learn_all msgs (known_of f) ≡ learn_all (prepend parsed msgs) (known_of fcu)
        one none w t f h msgs = ap (λ r. learn_all msgs (known_of r.1)) (sym (ok_injective h))
        one (some msg) w t f h msgs = ap (learn_all msgs) (parse-learn w msg s t fcu f h)

    -- How the bytes are split over the reads makes no difference.
    pub read_mavlink_msg-append :
        (a b : List Byte) (c : Channel mav F channels P)
        → read_mavlink_msg mav F channels P (a ++ b) c
          ≡ (read_mavlink_msg mav F channels P a c >>= read_mavlink_msg mav F channels P b)
    unfolding read_mavlink_msg
    read_mavlink_msg-append [] b c = refl
    read_mavlink_msg-append (x ∷ a) b (p, s) =
        let (q, parsed) = P.mavlink_parse_char x.value p in
        let m = handle_parsed mav F channels parsed x.world s in
        bind_same m _ _ (λ r. read_mavlink_msg-append a b (q, r)) ∙ sym (bind_assoc m _ _)
