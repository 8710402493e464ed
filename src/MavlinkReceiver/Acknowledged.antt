-- ===== src/MavlinkReceiver/Acknowledged.antt =====
-- The answers to the commands of the ground station.
use uav_mission_server.Prelude.{
  ℕ, ◌+◌, ◌≡◌, refl, sym, ap, ◌∙◌, ◌⊎◌, inl, inr, Bool, true, false, not, ◌||◌, ◌==◌, ==_iff,
  Bool-cases, List, [], ◌∷◌, ◌++◌, if◌then◌else◌,
}
use mathlib.Core.Path.{subst}
use uav_mission_server.Prelude.Int.{pos}
use uav_mission_server.Prelude.Outcomes.{Outcome, ok, ◌>>=◌, >>=-eq-ok, ok_injective}
use uav_mission_server.Device.{camera_save_image, camera_change_record_state}
use uav_mission_server.SiyiCamera.Operations.{World, Cameras}
use uav_mission_server.MavlinkPublisher.{
  Numbers, Link, Message, Body, heartbeat, play_tune, command_long, ping, command_ack,
  camera_information, camera_settings, camera_capture_status, gimbal_manager_information,
  mavlink_send_msg, mavlink_send_ack, mavlink_send_camera_info, mavlink_send_camera_settings,
  mavlink_send_storage_information, mavlink_send_camera_capture_status, get_video_status,
  set_video_status, reset_video_status,
}
use uav_mission_server.MavlinkReceiver.{
  MavlinkMessage, Fcu, on_cameras, on_link, accept, change_if, start_image, mav_command_long,
}

-- The commands with an answer.
abbrev pub answered : ℕ → Bool
answered c =
    c == 521
    || c == 522
    || c == 525
    || c == 527
    || c == 530
    || c == 2000
    || c == 2001
    || c == 2500
    || c == 2501

abbrev pub is_ack : ℕ → Body → ℕ
is_ack c (heartbeat a b d e f) = 0
is_ack c (play_tune a b d e) = 0
is_ack c (command_long a b d e f) = 0
is_ack c (ping a b d e) = 0
is_ack c (command_ack command a b d e f) = if command == c then 1 else 0
is_ack c (camera_information a b d e) = 0
is_ack c (camera_settings a b d) = 0
is_ack c (camera_capture_status a b d e) = 0
is_ack c (gimbal_manager_information a b d e f) = 0

-- How many acknowledgements of a command are among the messages.
abbrev pub acks : ℕ → List Message → ℕ
acks c [] = 0
acks c (m ∷ ms) = is_ack c m.body + acks c ms

-- The acknowledgement of a command, from the camera to the sender of the command.
abbrev pub ack : Numbers → ℕ → MavlinkMessage → Link → Message
ack mav command msg link = record {
  sender = record { sys_id = link.fcu_sysid; component_id = mav.mav_comp_id_camera };
  body = command_ack command mav.mav_result_accepted 0 (pos 0) msg.sysid msg.compid;
}

-- The command is acknowledged once, in the first message that goes out.
abbrev pub Answers : Numbers → ℕ → MavlinkMessage → Link → Link → Type 0
Answers mav command msg link link' =
    (later : List Message) × (link'.outbox ≡ later ++ ack mav command msg link ∷ link.outbox)
    × (acks command later ≡ 0)

on_cameras_link :
    (call : Cameras → Outcome Cameras) (fcu fcu' : Fcu)
    → on_cameras call fcu ≡ ok fcu'
    → fcu'.link ≡ fcu.link
on_cameras_link call fcu fcu' e =
    let (cameras', called, is) =
      >>=-eq-ok (call fcu.cameras) (λ c. ok (record fcu { cameras = c })) fcu' e in
    ap (λ f. f.link) (sym (ok_injective is))

module _ (mav : Numbers) (w : World) (msg : MavlinkMessage) (fcu fcu' : Fcu) where
  -- What a command comes to: an answer for its number, or nothing sent.
  abbrev pub Comes : ℕ → Type 0
  Comes c =
      ((answered c ≡ true) × Answers mav c msg fcu.link fcu'.link)
      ⊎ ((answered c ≡ false) × (fcu'.link ≡ fcu.link))

  -- The cases of the switch.
  case :
      (n : ℕ) (x y : Outcome Fcu)
      → (x ≡ ok fcu' → Comes n)
      → ((msg.command == n) ≡ false → y ≡ ok fcu' → Comes msg.command)
      → (if msg.command == n then x else y) ≡ ok fcu'
      → Comes msg.command
  case n x y h k e = elim (Bool-cases (msg.command == n)) [
    | inl is ↦ subst Comes (sym ((==_iff msg.command n).0 is)) (h (sym (taken is) ∙ e))
    | inr other ↦ k other (sym (passed other) ∙ e)
  ]
    where
      taken : (msg.command == n) ≡ true → (if msg.command == n then x else y) ≡ x
      taken is = rw is refl

      passed : (msg.command == n) ≡ false → (if msg.command == n then x else y) ≡ y
      passed other = rw other refl

  sent :
      (c : ℕ) (send : Link → Link) (later : List Message)
      → answered c ≡ true
      → (send fcu.link).outbox ≡ later ++ ack mav c msg fcu.link ∷ fcu.link.outbox
      → acks c later ≡ 0
      → ok (on_link send fcu) ≡ ok fcu'
      → Comes c
  sent c send later h out none' e =
      inl (h, (later, ap (λ f. f.link.outbox) (sym (ok_injective e)) ∙ out, none'))

  -- Nothing but the acknowledgement, behind calls of a camera.
  answered_link :
      (c : ℕ)
      → answered c ≡ true
      → fcu'.link.outbox ≡ ack mav c msg fcu.link ∷ fcu.link.outbox
      → Comes c
  answered_link c h out = inl (h, ([], out, refl))

  change_if_link : (b : Bool) (f f' : Fcu) → change_if mav w b f ≡ ok f' → f'.link ≡ f.link
  change_if_link true f f' e = on_cameras_link (camera_change_record_state w (pos 0)) f f' e
  change_if_link false f f' e = ap (λ x. x.link) (sym (ok_injective e))

  image_comes : start_image mav w msg fcu ≡ ok fcu' → Comes 2000
  unfolding mavlink_send_ack mavlink_send_msg
  image_comes e =
      let (f, saved, is) =
        >>=-eq-ok (on_cameras (camera_save_image w (pos 0)) fcu) (λ f. ok (accept mav w 2000 msg f))
          fcu' e in
      answered_link 2000 refl (
        ap (λ x. x.link.outbox) (sym (ok_injective is))
        ∙ ap (λ l. ack mav 2000 msg l ∷ l.outbox)
            (on_cameras_link (camera_save_image w (pos 0)) fcu f saved))

  video_comes :
      (c : ℕ) (b : Bool) (g : Link → Link)
      → answered c ≡ true
      → ((l : Link) → (g l).outbox ≡ l.outbox)
      → (change_if mav w b (accept mav w c msg fcu) >>= λ f. ok (on_link g f)) ≡ ok fcu'
      → Comes c
  unfolding mavlink_send_ack mavlink_send_msg
  video_comes c b g h keep e =
      let (f, changed, is) =
        >>=-eq-ok (change_if mav w b (accept mav w c msg fcu)) (λ f. ok (on_link g f)) fcu' e in
      answered_link c h (
        ap (λ x. x.link.outbox) (sym (ok_injective is))
        ∙ keep f.link
        ∙ ap (λ l. l.outbox) (change_if_link b (accept mav w c msg fcu) f changed))

  -- Every command that returns, of the nine that the camera takes part in, is acknowledged to its
  -- sender, exactly once, as accepted and by the first message that goes out; every other command has
  -- nothing sent at all.
  pub mav_command_long-Comes : mav_command_long mav w msg fcu ≡ ok fcu' → Comes msg.command
  unfolding mav_command_long mavlink_send_camera_info mavlink_send_camera_settings
      mavlink_send_storage_information mavlink_send_camera_capture_status mavlink_send_msg
      mavlink_send_ack get_video_status set_video_status reset_video_status
  mav_command_long-Comes =
      case 203 _ _ (λ e. inr (refl, ap (λ f. f.link) (sym (ok_injective e))))
        (λ n203.
          case 521 _ _
            (sent 521 (mavlink_send_camera_info mav msg.sysid msg.compid) (_ ∷ []) refl refl refl)
            (λ n521.
              case 522 _ _
                (sent 522 (mavlink_send_camera_settings mav msg.sysid msg.compid) (_ ∷ []) refl refl
                  refl)
                (λ n522.
                  case 525 _ _
                    (sent 525 (mavlink_send_storage_information mav msg.sysid msg.compid) [] refl
                      refl refl)
                    (λ n525.
                      case 527 _ _
                        (sent 527 (mavlink_send_camera_capture_status mav msg.sysid msg.compid)
                          (_ ∷ []) refl refl refl)
                        (λ n527.
                          case 530 _ _
                            (λ e. inl (
                              refl,
                              (_ ∷ _ ∷ [], ap (λ f. f.link.outbox) (sym (ok_injective e)), refl),
                            ))
                            (λ n530. case 2000 _ _ image_comes (λ n2000.
                              case 2001 _ _
                                (λ e. inl (
                                  refl,
                                  ([], ap (λ f. f.link.outbox) (sym (ok_injective e)), refl),
                                ))
                                (λ n2001.
                                  case 2500 _ _
                                    (video_comes 2500 (not fcu.link.video_status) set_video_status
                                      refl (λ l. refl))
                                    (λ n2500.
                                      case 2501 _ _
                                        (video_comes 2501 fcu.link.video_status reset_video_status
                                          refl (λ l. refl))
                                        (λ n2501 e. inr (
                                          rw
                                              (
                                                n521, n522, n525, n527, n530, n2000, n2001, n2500,
                                                n2501,
                                              )
                                              refl,
                                          ap (λ f. f.link) (sym (ok_injective e)),
                                        )))))))))))
