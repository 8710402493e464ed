-- ===== src/Device/Drivers.antt =====
-- The array of devices: one that is open has a driver.
use mathlib.Core.Path.{subst}
use uav_mission_server.Prelude.{
  get_elem?_lt, ℕ, zero, suc, ◌<◌, ◌≡◌, ◌≢◌, refl, sym, ap, ◌∙◌, ◌⊎◌, inl, inr, arith, true, false,
  List, [], ◌∷◌, Option, none, some, length, get_elem?, set, get_elem?-set_self, get_elem?-set_ne,
  length-set, Bool-cases, ◌==◌, ==_iff, some_injective,
}
use uav_mission_server.Prelude.Int.{ℤ, pos, negsuc}
use uav_mission_server.Prelude.Outcomes.{ok, >>=-eq-ok, ok_injective}
use uav_mission_server.Device.{
  Device, Operation, CameraOperations, CameraDev, camera_num_max, store, device_present,
  register_camera, run_operation, through, open_entry, present_entry, open_with, dispatch,
}

apart : (n m : ℕ) → (n == m) ≡ false → n ≢ m
apart n m other = ground arith

module _ {W P G C D : Type 0} where
  -- A device that is open has a driver, as `dispatch` relies on.
  pub record WellFormed (devs : List (CameraDev W P G C D)) : Type 0 where
    pub size : length devs ≡ camera_num_max
    pub driven :
        (n : ℕ) (d : CameraDev W P G C D)
        → get_elem? devs n ≡ some d
        → device_present d.device ≡ true
        → (ops : CameraOperations W P G C D) × (d.camera_ops ≡ some ops)

  -- One call of device.c, whatever the driver does to its part of the device.
  pub data Called : List (CameraDev W P G C D) → List (CameraDev W P G C D) → Type 0 where
    registers :
        (id : ℤ) (ops : CameraOperations W P G C D) (devs devs' : List (CameraDev W P G C D))
        → register_camera id ops devs ≡ ok devs'
        → Called devs devs'
    opens :
        (operation : CameraOperations W P G C D → Operation W P G) (w : W) (id : ℤ)
        (devs devs' : List (CameraDev W P G C D))
        → open_with operation w id devs ≡ ok devs'
        → Called devs devs'
    requests :
        (operation : CameraOperations W P G C D → Operation W P G) (w : W) (id : ℤ)
        (devs devs' : List (CameraDev W P G C D))
        → dispatch operation w id devs ≡ ok devs'
        → Called devs devs'

  -- An entry put in its place with a driver keeps the array well formed.
  store-WellFormed :
      (n : ℕ) (d : CameraDev W P G C D) (ops : CameraOperations W P G C D)
      (devs : List (CameraDev W P G C D))
      → d.camera_ops ≡ some ops
      → n < length devs
      → WellFormed devs
      → WellFormed (store (pos n) d devs)
  store-WellFormed n d ops devs e lt v = record {
    size = length-set devs n d ∙ v.size;
    driven = λ m c at present. elim (Bool-cases (n == m)) [
      | inl same ↦
          (let here : get_elem? (set devs n d) n ≡ some c =
              subst (λ k. get_elem? (set devs n d) k ≡ some c) (sym ((==_iff n m).0 same)) at in
            let found : d ≡ c = some_injective (sym (get_elem?-set_self devs n d lt) ∙ here) in
            (ops, ap (λ x. x.camera_ops) (sym found) ∙ e))
      | inr other ↦ v.driven m c (sym (get_elem?-set_ne devs d (apart n m other)) ∙ at) present
    ];
  }

  pub get_elem?_bound :
      (devs : List (CameraDev W P G C D)) (n : ℕ) (d : CameraDev W P G C D)
      → get_elem? devs n ≡ some d
      → n < length devs
  get_elem?_bound [] n d e = cc
  get_elem?_bound (x ∷ devs) zero d e = omega arith
  get_elem?_bound (x ∷ devs) (suc n) d e = omega (arith, get_elem?_bound devs n d e)

  -- How a call of an operation comes to its end.
  pub Ran : ℤ → List (CameraDev W P G C D) → List (CameraDev W P G C D) → Type 0
  Ran id devs devs' =
      (devs' ≡ devs)
      ⊎ ((n : ℕ) × (d : CameraDev W P G C D) × (ops : CameraOperations W P G C D)
          × (device' : Device P G) × (id ≡ pos n)
          × (get_elem? devs n ≡ some d)
          × (d.camera_ops ≡ some ops)
          × (devs' ≡ store id (record d { device = device' }) devs))

  run_operation-Ran :
      (f : Operation W P G) (w : W) (n : ℕ) (d : CameraDev W P G C D)
      (ops : CameraOperations W P G C D) (devs devs' : List (CameraDev W P G C D))
      → get_elem? devs n ≡ some d
      → d.camera_ops ≡ some ops
      → run_operation f w (pos n) d devs ≡ ok devs'
      → Ran (pos n) devs devs'
  unfolding Ran
  run_operation-Ran none w n d ops devs devs' at driver e = inl (sym (ok_injective e))
  run_operation-Ran (some f) w n d ops devs devs' at driver e =
      let (device', ran, stored) =
        >>=-eq-ok (f w d.device) (λ x. ok (store (pos n) (record d { device = x }) devs)) devs' e in
      inr (n, d, ops, device', refl, at, driver, sym (ok_injective stored))

  through-Ran :
      (operation : CameraOperations W P G C D → Operation W P G)
      (found : Option (CameraOperations W P G C D)) (w : W) (n : ℕ) (d : CameraDev W P G C D)
      (devs devs' : List (CameraDev W P G C D))
      → d.camera_ops ≡ found
      → get_elem? devs n ≡ some d
      → through operation found w (pos n) d devs ≡ ok devs'
      → Ran (pos n) devs devs'
  through-Ran operation none w n d devs devs' driver at e = cc
  through-Ran operation (some ops) w n d devs devs' driver at e =
      run_operation-Ran (operation ops) w n d ops devs devs' at driver e

  opened_entry :
      (operation : CameraOperations W P G C D → Operation W P G)
      (found : Option (CameraDev W P G C D)) (w : W) (n : ℕ)
      (devs devs' : List (CameraDev W P G C D))
      → get_elem? devs n ≡ found
      → open_entry operation found w (pos n) devs ≡ ok devs'
      → Ran (pos n) devs devs'
  opened_entry operation none w n devs devs' at e = cc
  opened_entry operation (some d) w n devs devs' at e =
      through-Ran operation d.camera_ops w n d devs devs' refl at e

  pub open_with-Ran :
      (operation : CameraOperations W P G C D → Operation W P G) (w : W) (id : ℤ)
      (devs devs' : List (CameraDev W P G C D))
      → open_with operation w id devs ≡ ok devs'
      → Ran id devs devs'
  unfolding open_with
  open_with-Ran operation w (negsuc n) devs devs' e = cc
  open_with-Ran operation w (pos n) devs devs' e =
      opened_entry operation (get_elem? devs n) w n devs devs' refl e

  pub entry_present :
      (operation : CameraOperations W P G C D → Operation W P G) (w : W) (n : ℕ)
      (d : CameraDev W P G C D) (devs : List (CameraDev W P G C D))
      → device_present d.device ≡ true
      → present_entry operation (some d) w (pos n) devs
        ≡ through operation d.camera_ops w (pos n) d devs
  entry_present operation w n d devs h = rw h refl

  pub entry_absent :
      (operation : CameraOperations W P G C D → Operation W P G) (w : W) (n : ℕ)
      (d : CameraDev W P G C D) (devs : List (CameraDev W P G C D))
      → device_present d.device ≡ false
      → present_entry operation (some d) w (pos n) devs ≡ ok devs
  entry_absent operation w n d devs h = rw h refl

  requested_entry :
      (operation : CameraOperations W P G C D → Operation W P G)
      (found : Option (CameraDev W P G C D)) (w : W) (n : ℕ)
      (devs devs' : List (CameraDev W P G C D))
      → get_elem? devs n ≡ found
      → present_entry operation found w (pos n) devs ≡ ok devs'
      → Ran (pos n) devs devs'
  unfolding Ran
  requested_entry operation none w n devs devs' at e = cc
  requested_entry operation (some d) w n devs devs' at e =
      elim (Bool-cases (device_present d.device)) [
        | inl present ↦
            through-Ran operation d.camera_ops w n d devs devs' refl at
              (sym (entry_present operation w n d devs present) ∙ e)
        | inr absent ↦ inl (sym (ok_injective (sym (entry_absent operation w n d devs absent) ∙ e)))
      ]

  pub dispatch-Ran :
      (operation : CameraOperations W P G C D → Operation W P G) (w : W) (id : ℤ)
      (devs devs' : List (CameraDev W P G C D))
      → dispatch operation w id devs ≡ ok devs'
      → Ran id devs devs'
  unfolding dispatch
  dispatch-Ran operation w (negsuc n) devs devs' e = cc
  dispatch-Ran operation w (pos n) devs devs' e =
      requested_entry operation (get_elem? devs n) w n devs devs' refl e

  pub Ran-WellFormed :
      (id : ℤ) (devs devs' : List (CameraDev W P G C D))
      → Ran id devs devs'
      → WellFormed devs
      → WellFormed devs'
  unfolding Ran
  Ran-WellFormed id devs devs' (inl same) v = subst WellFormed (sym same) v
  Ran-WellFormed id devs devs' (inr (n, d, ops, device', here, at, driver, stored)) v =
      subst WellFormed (sym (stored ∙ ap (λ i. store i (record d { device = device' }) devs) here))
        (store-WellFormed n (record d { device = device' }) ops devs driver
          (get_elem?_bound devs n d at) v)

  pub register_camera-stored :
      (id : ℤ) (ops : CameraOperations W P G C D) (devs devs' : List (CameraDev W P G C D))
      → length devs ≡ camera_num_max
      → register_camera id ops devs ≡ ok devs'
      → (n : ℕ) × (d : CameraDev W P G C D) × (id ≡ pos n)
        × (n < camera_num_max)
        × (get_elem? devs n ≡ some d)
        × (devs'
            ≡ set devs n (record { device = record d.device { id = id }; camera_ops = some ops }))
  unfolding register_camera
  register_camera-stored (negsuc n) ops devs devs' size e = absurd (ground arith)
  register_camera-stored (pos n) ops devs devs' size e =
      let lt : n < camera_num_max = ground arith in
      let (d, at) = get_elem?_lt devs n (omega arith) in (n, d, refl, lt, at, ground arith)

  pub register_camera-WellFormed :
      (id : ℤ) (ops : CameraOperations W P G C D) (devs devs' : List (CameraDev W P G C D))
      → register_camera id ops devs ≡ ok devs'
      → WellFormed devs
      → WellFormed devs'
  register_camera-WellFormed id ops devs devs' e v =
      let (n, d, here, lt, at, stored) = register_camera-stored id ops devs devs' v.size e in
      subst WellFormed (sym stored)
        (store-WellFormed n _ ops devs refl (get_elem?_bound devs n d at) v)
