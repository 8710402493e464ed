-- ===== src/Config/Cameras/Rounds.antt =====
-- One device of the loop over the configurations.
use uav_mission_server.Prelude.{
  ℕ, suc, ◌≤◌, ◌<◌, ◌≡◌, ◌≢◌, refl, sym, ap, ◌∙◌, ◌⊎◌, inl, inr, arith, true, false, Bool-cases,
  List, [], ◌∷◌, Option, none, some, length, length-set, get_elem?, get_elem?-set_self,
  get_elem?-set_ne, codes,
}
use uav_mission_server.Prelude.Libc.{str_eq, str_eq_sound}
use uav_mission_server.Prelude.Outcomes.{ok, exited, ok_injective}
use uav_mission_server.Prelude.Int.{pos}
use uav_mission_server.Device.{camera_num_max}
use uav_mission_server.SiyiCamera.Operations.{Cameras}
use uav_mission_server.SiyiCamera.Operations.Closing.{Entry}
use uav_mission_server.Config.Cameras.{
  SiyiConfigs, DeviceConfig, Startup, siyi_camera_init, init_kind, init_device,
}
use uav_mission_server.Config.Cameras.Ready.{driven_entry, Succeeds, Loads, ready_device}
use uav_mission_server.Config.Cameras.Started.{siyi_camera_init_iff}

-- What the configuration of a device asks for: to leave the camera alone, or to set it up.
abbrev pub Idle : DeviceConfig → Type 0
Idle d = (d.enabled ≡ false) ⊎ ((d.enabled ≡ true) × (d.kind ≡ some (codes "none")))

abbrev pub Siyi : Startup → DeviceConfig → SiyiConfigs → ℕ → Type 0
Siyi s d configs fd =
    (d.enabled ≡ true)
    × (d.kind ≡ some (codes "siyi"))
    × Loads s d.yaml configs
    × Succeeds s configs fd

-- How the camera of a device comes out of the start.
abbrev pub Configured : Startup → ℕ → DeviceConfig → Option Entry → Option Entry → Type 0
Configured s n d before after' =
    (Idle d × (after' ≡ before))
    ⊎ ((configs : SiyiConfigs) × (fd : ℕ) × Siyi s d configs fd
        × (after' ≡ some (driven_entry (ready_device n configs fd))))

-- A statement about every device of a list and its number.
abbrev pub Each : (ℕ → DeviceConfig → Type 0) → ℕ → List DeviceConfig → Type 0
Each P n [] = Unit {0}
Each P n (d ∷ ds) = P n d × Each P (suc n) ds

pub Each-map :
    (P Q : ℕ → DeviceConfig → Type 0) (n : ℕ) (ds : List DeviceConfig)
    → ((m : ℕ) (d : DeviceConfig) → n ≤ m → P m d → Q m d)
    → Each P n ds
    → Each Q n ds
Each-map P Q n [] f h = tt
Each-map P Q n (d ∷ ds) f h =
    (f n d (omega arith) h.0, Each-map P Q (suc n) ds (λ m d' le. f m d' (omega arith)) h.1)

-- One round of the loop.
pub record Round (s : Startup) (n : ℕ) (d : DeviceConfig) (cameras cameras' : Cameras)
    : Type 0 where
  pub here : Configured s n d (get_elem? cameras n) (get_elem? cameras' n)
  pub size : length cameras' ≡ camera_num_max
  pub elsewhere : (m : ℕ) → n ≢ m → get_elem? cameras' m ≡ get_elem? cameras m

module _ (s : Startup) (n : ℕ) (d : DeviceConfig) (cameras cameras' : Cameras)
    (lt : n < camera_num_max) (size : length cameras ≡ camera_num_max) where
  idle_round : Idle d → cameras' ≡ cameras → Round s n d cameras cameras'
  idle_round idle same = record {
    here = inl (idle, ap (λ l. get_elem? l n) same);
    size = ap length same ∙ size;
    elsewhere = λ m other. ap (λ l. get_elem? l m) same;
  }

  siyi_round :
      d.enabled ≡ true
      → d.kind ≡ some (codes "siyi")
      → siyi_camera_init s (pos n) d.yaml cameras ≡ ok cameras'
      → Round s n d cameras cameras'
  siyi_round enabled kind e =
      let (configs, fd, loads, succeeds, is) =
        (siyi_camera_init_iff cameras n size lt s d.yaml cameras').0 e in
      let entry : Entry = driven_entry (ready_device n configs fd) in
      record {
        here = inr (
          configs,
          fd,
          (enabled, kind, loads, succeeds),
          ap (λ l. get_elem? l n) is ∙ get_elem?-set_self cameras n entry (omega arith),
        );
        size = ap length is ∙ length-set cameras n entry ∙ size;
        elsewhere = λ m other. ap (λ l. get_elem? l m) is ∙ get_elem?-set_ne cameras entry other;
      }

  pub init_siyi :
      (kind : List ℕ)
      → str_eq (codes "siyi") kind ≡ true
      → init_kind s n (some kind) d cameras ≡ siyi_camera_init s (pos n) d.yaml cameras
  init_siyi kind h = rw h refl

  pub init_none :
      (kind : List ℕ)
      → str_eq (codes "siyi") kind ≡ false
      → str_eq (codes "none") kind ≡ true
      → init_kind s n (some kind) d cameras ≡ ok cameras
  init_none kind h g = rw (h, g) refl

  init_unknown :
      (kind : List ℕ)
      → str_eq (codes "siyi") kind ≡ false
      → str_eq (codes "none") kind ≡ false
      → init_kind s n (some kind) d cameras ≡ exited
  init_unknown kind h g = rw (h, g) refl

  exited_ok : exited ≡ ok cameras' → ⊥
  exited_ok e = cc

  kind_round :
      d.enabled ≡ true
      → (k : Option (List ℕ)) → d.kind ≡ k
      → init_kind s n k d cameras ≡ ok cameras'
      → Round s n d cameras cameras'
  kind_round enabled none is e = cc
  kind_round enabled (some kind) is e = elim (Bool-cases (str_eq (codes "siyi") kind)) [
    | inl siyi ↦
        siyi_round enabled (is ∙ ap some (sym (str_eq_sound _ kind siyi)))
          (sym (init_siyi kind siyi) ∙ e)
    | inr other ↦ elim (Bool-cases (str_eq (codes "none") kind)) [
      | inl none' ↦
          idle_round (inr (enabled, is ∙ ap some (sym (str_eq_sound _ kind none'))))
            (sym (ok_injective (sym (init_none kind other none') ∙ e)))
      | inr unknown ↦ absurd (exited_ok (sym (init_unknown kind other unknown) ∙ e))
    ]
  ]

  pub init_enabled : d.enabled ≡ true → init_device s n d cameras ≡ init_kind s n d.kind d cameras
  unfolding init_device
  init_enabled h = rw h refl

  pub init_disabled : d.enabled ≡ false → init_device s n d cameras ≡ ok cameras
  unfolding init_device
  init_disabled h = rw h refl

  pub init_device-Round : init_device s n d cameras ≡ ok cameras' → Round s n d cameras cameras'
  init_device-Round e = elim (Bool-cases d.enabled) [
    | inl enabled ↦ kind_round enabled d.kind refl (sym (init_enabled enabled) ∙ e)
    | inr disabled ↦
        idle_round (inl disabled) (sym (ok_injective (sym (init_disabled disabled) ∙ e)))
  ]
