-- ===== src/Device/Reached.antt =====
-- The array after any calls of device.c, and where requests go wrong.
use uav_mission_server.Prelude.{
  get_elem?_lt, ℕ, ◌<◌, ◌≡◌, refl, sym, ap, ◌∙◌, inl, inr, arith, true, false, List, none, some,
  get_elem?, get_elem?-replicate, Bool-cases,
}
use uav_mission_server.Prelude.Int.{ℤ, pos}
use uav_mission_server.Prelude.Outcomes.{Outcome, ok, fault}
use uav_mission_server.Device.{
  Device, no_devices, Operation, CameraOperations, CameraDev, camera_num_max, device_present,
  run_operation, through, present_entry, dispatch,
}
use uav_mission_server.Device.Drivers.{
  WellFormed, Called, registers, opens, requests, Ran-WellFormed, open_with-Ran, dispatch-Ran,
  register_camera-WellFormed, entry_present, entry_absent,
}

module _ {W P G C D : Type 0} where
  -- The arrays that calls of device.c make from the static one.
  pub data Reached : List (CameraDev W P G C D) → Type 0 where
    static : Reached no_devices
    then' :
        {devs devs' : List (CameraDev W P G C D)} → Reached devs → Called devs devs' → Reached devs'

  no_devices-WellFormed : WellFormed {W = W} {P = P} {G = G} {C = C} {D = D} no_devices
  no_devices-WellFormed = record {
    size = refl;
    driven = λ n d at present. absurd (
        false-true (
          sym (ap (λ x. device_present x.device) (get_elem?-replicate camera_num_max n _ d at))
          ∙ present));
  }
    where
      false-true : false ≡ true → ⊥
      false-true q = cc

  pub Reached-WellFormed : (devs : List (CameraDev W P G C D)) → Reached devs → WellFormed devs
  Reached-WellFormed _ static = no_devices-WellFormed
  Reached-WellFormed _ (then' r (registers id ops devs devs' e)) =
      register_camera-WellFormed id ops devs devs' e (Reached-WellFormed devs r)
  Reached-WellFormed _ (then' r (opens operation w id devs devs' e)) =
      Ran-WellFormed id devs devs' (open_with-Ran operation w id devs devs' e)
        (Reached-WellFormed devs r)
  Reached-WellFormed _ (then' r (requests operation w id devs devs' e)) =
      Ran-WellFormed id devs devs' (dispatch-Ran operation w id devs devs' e)
        (Reached-WellFormed devs r)

  ok_fault : {devs : List (CameraDev W P G C D)} → ok devs ≡ fault → ⊥
  ok_fault q = cc

  through-fault :
      (operation : CameraOperations W P G C D → Operation W P G) (w : W) (id : ℤ)
      (d : CameraDev W P G C D) (ops : CameraOperations W P G C D)
      (devs : List (CameraDev W P G C D))
      → d.camera_ops ≡ some ops
      → through operation d.camera_ops w id d devs ≡ fault
      → (f : W → Device P G → Outcome (Device P G)) × (operation ops ≡ some f)
        × (f w d.device ≡ fault)
  through-fault operation w id d ops devs driver e =
      run-fault (operation ops) refl (sym (ap (λ o. through operation o w id d devs) driver) ∙ e)
    where
      run-fault :
          (g : Operation W P G)
          → operation ops ≡ g
          → run_operation g w id d devs ≡ fault
          → (f : W → Device P G → Outcome (Device P G)) × (operation ops ≡ some f)
            × (f w d.device ≡ fault)
      run-fault none is q = cc
      run-fault (some f) is q = (f, is, ground arith)

  -- After any calls of device.c from the start, a request at a number in range never uses a NULL
  -- driver or an operation that is missing: where it goes wrong, the device is open and it is the
  -- operation of its driver that does.
  pub dispatch-fault :
      (devs : List (CameraDev W P G C D)) (operation : CameraOperations W P G C D → Operation W P G)
      (w : W) (n : ℕ)
      → Reached devs
      → n < camera_num_max
      → dispatch operation w (pos n) devs ≡ fault
      → (d : CameraDev W P G C D) × (ops : CameraOperations W P G C D) × (f : W
          → Device P G
          → Outcome (Device P G))
        × (get_elem? devs n ≡ some d)
        × (d.camera_ops ≡ some ops)
        × (operation ops ≡ some f)
        × (device_present d.device ≡ true)
        × (f w d.device ≡ fault)
  unfolding dispatch
  dispatch-fault devs operation w n r lt e =
      let v = Reached-WellFormed devs r in
      let (d, at) = get_elem?_lt devs n (omega (arith, v.size)) in
      let goes : present_entry operation (some d) w (pos n) devs ≡ fault =
        sym (ap (λ o. present_entry operation o w (pos n) devs) at) ∙ e in
      elim (Bool-cases (device_present d.device)) [
        | inl present ↦
            (let (ops, driver) = v.driven n d at present in
              let (f, is, faults) =
                through-fault operation w (pos n) d ops devs driver
                  (sym (entry_present operation w n d devs present) ∙ goes) in
              (d, ops, f, at, driver, is, present, faults))
        | inr absent ↦ absurd (ok_fault (sym (entry_absent operation w n d devs absent) ∙ goes))
      ]
