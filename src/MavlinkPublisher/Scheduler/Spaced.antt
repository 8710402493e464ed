-- ===== src/MavlinkPublisher/Scheduler/Spaced.antt =====
-- When the heartbeats are sent, and that they are.
use uav_mission_server.Prelude.{
  ◌≡◌, refl, sym, ◌⊎◌, inl, inr, true, false, Bool-cases, List, [], ◌∷◌,
}
use mathlib.Core.Path.{subst}
use uav_mission_server.MavlinkPublisher.{
  Numbers, heartbeat, mavlink_send_msg, mavlink_send_camera_hearbeart,
}
use uav_mission_server.MavlinkReceiver.{Fcu}
use uav_mission_server.MavlinkPublisher.Scheduler.{
  Doubles, Turn, Phase, asleep, running, Publisher, at_phase, turn, Seen, mavlink_tx_thread,
}

module _ (mav : Numbers) (D : Doubles) where
  -- The turn changes nothing of what it finds.
  abbrev pub Silent : Seen mav D → Type 0
  Silent o = o.left ≡ o.found

  -- The turn sends one heartbeat of the camera, as the system of the flight controller, behind all that
  -- was sent before, and changes nothing else.
  abbrev pub Beats : Seen mav D → Type 0
  Beats o = o.left ≡ record o.found {
    link = record o.found.link {
      outbox =
          record {
            sender = record {
              sys_id = o.found.link.fcu_sysid;
              component_id = mav.mav_comp_id_camera;
            };
            body =
                heartbeat mav.mav_type_camera mav.mav_autopilot_invalid 0 0 mav.mav_state_standby;
          }
          ∷ o.found.link.outbox;
    };
  }

  -- `last` is the time of the last heartbeat, or of the turn that found the connection: a turn a second
  -- or more behind it sends a heartbeat, and any other nothing.
  abbrev pub BeatsFrom : D.Number → List (Seen mav D) → Type 0
  BeatsFrom last [] = Unit {0}
  BeatsFrom last (o ∷ more) =
      ((D.le D.second (D.sub o.now last) ≡ true) × Beats o × BeatsFrom o.now more)
      ⊎ ((D.le D.second (D.sub o.now last) ≡ false) × Silent o × BeatsFrom last more)

  -- Nothing is sent up to the first turn that finds the connection, that turn included.
  abbrev pub Scheduled : List (Seen mav D) → Type 0
  Scheduled [] = Unit {0}
  Scheduled (o ∷ more) =
      Silent o
      × (((o.found.serial_is_ready ≡ false) × Scheduled more)
          ⊎ ((o.found.serial_is_ready ≡ true) × BeatsFrom o.now more))

  -- A turn at a phase that is known, followed by others.
  abbrev after_turn : Phase mav D → Turn mav D → List (Turn mav D) → Fcu → List (Seen mav D)
  after_turn p t turns fcu =
      let s = at_phase mav D p t.now (t.others fcu) in
      record { now = t.now; found = t.others fcu; left = s.fcu } ∷ mavlink_tx_thread mav D turns s

  loop-BeatsFrom :
      (turns : List (Turn mav D)) (s : Publisher mav D) (timer : D.Number)
      → s.phase ≡ running timer
      → BeatsFrom timer (mavlink_tx_thread mav D turns s)
  unfolding mavlink_tx_thread turn mavlink_send_camera_hearbeart mavlink_send_msg
  loop-BeatsFrom [] s timer h = tt
  loop-BeatsFrom (t ∷ turns) s timer h =
      subst (λ p. BeatsFrom timer (after_turn p t turns s.fcu)) (sym h)
        (elim (Bool-cases (D.le D.second (D.sub t.now timer))) [
          | inl due ↦ rw due (inl (refl, refl, loop-BeatsFrom turns _ t.now refl))
          | inr early ↦ rw early (inr (refl, refl, loop-BeatsFrom turns _ timer refl))
        ])

  -- Whatever the other threads do between the turns of the thread, and at whatever times the turns come:
  -- the thread sends nothing up to and with the first turn that finds the connection made; from then on
  -- a turn that comes a second or more behind the last heartbeat (the first: behind that turn) sends one
  -- heartbeat of the camera to the link as the others left it, and any other turn sends nothing. So
  -- heartbeats are a second or more apart, and each goes out at the first turn that this allows. The
  -- thread changes nothing else of the state that is shared.
  pub mavlink_tx_thread-Scheduled :
      (turns : List (Turn mav D)) (s : Publisher mav D)
      → s.phase ≡ asleep
      → Scheduled (mavlink_tx_thread mav D turns s)
  unfolding mavlink_tx_thread turn
  mavlink_tx_thread-Scheduled [] s h = tt
  mavlink_tx_thread-Scheduled (t ∷ turns) s h =
      subst (λ p. Scheduled (after_turn p t turns s.fcu)) (sym h)
        (
          refl,
          elim (Bool-cases (t.others s.fcu).serial_is_ready) [
            | inl connected ↦ rw connected (inr (refl, loop-BeatsFrom turns _ t.now refl))
            | inr not_yet ↦ rw not_yet (inl (refl, mavlink_tx_thread-Scheduled turns _ refl))
          ],
        )
