-- ===== src/Config/Cameras/Files.antt =====
-- What the file of a camera sets, and what it leaves as it was in memory.
use uav_mission_server.Prelude.{
  ℕ, ◌≡◌, ◌⊎◌, inl, inr, refl, sym, ap, ◌∙◌, arith, List, [], ◌∷◌, none, some, if◌then◌else◌, codes,
  Bool-cases, false,
}
use mathlib.Core.Path.{subst}
use uav_mission_server.Prelude.Libc.{str_eq, str_eq_sound, atoi}
use uav_mission_server.Prelude.Outcomes.{ok, exited, >>=-eq-ok, ok_injective}
use uav_mission_server.Config.Yaml.{
  pairs, others, stream_end, set_all, load-set_all, read_param, last,
}
use uav_mission_server.Config.Cameras.{SiyiConfigs, siyi_params, load_siyi_configs}

-- One key with its value.
Reads : List ℕ → List ℕ → SiyiConfigs → SiyiConfigs → Type 0
Reads key value s t =
    (t.rtsp_config.save_path
      ≡ (if str_eq key (codes "save_path") then some value else s.rtsp_config.save_path))
    × (t.rtsp_config.board_name
        ≡ (if str_eq key (codes "board") then some value else s.rtsp_config.board_name))
    × (t.rtsp_config.rtsp_stream_url ≡ (
        if str_eq key (codes "rtsp_stream_url") then some value else s.rtsp_config.rtsp_stream_url))
    × (t.rtsp_config.video_format
        ≡ (if str_eq key (codes "video_format") then some value else s.rtsp_config.video_format))
    × (t.rtsp_config.codec
        ≡ (if str_eq key (codes "codec") then some value else s.rtsp_config.codec))
    × (t.rtsp_config.image_width
        ≡ (if str_eq key (codes "image_width") then atoi value else s.rtsp_config.image_width))
    × (t.rtsp_config.image_height
        ≡ (if str_eq key (codes "image_height") then atoi value else s.rtsp_config.image_height))
    × (t.siyi_cam_config.ip
        ≡ (if str_eq key (codes "siyi_camera_ip") then some value else s.siyi_cam_config.ip))
    × (t.siyi_cam_config.port
        ≡ (if str_eq key (codes "siyi_camera_port") then atoi value else s.siyi_cam_config.port))

-- A key that is one of the names, or none of them.
either : (key name : List ℕ) → (key ≡ name) ⊎ (str_eq key name ≡ false)
either key name = elim (Bool-cases (str_eq key name)) [
  | inl is ↦ inl (str_eq_sound key name is)
  | inr other ↦ inr other
]

read_param-Reads :
    (key value : List ℕ) (s t : SiyiConfigs)
    → read_param (siyi_params key) value s ≡ ok t
    → Reads key value s t
unfolding Reads siyi_params str_eq
read_param-Reads key value s t e = elim (either key (codes "save_path")) [
  | inl is ↦ known _ is (λ q. ground arith)
  | inr no0 ↦ elim (either key (codes "board")) [
    | inl is ↦ known _ is (λ q. ground arith)
    | inr no1 ↦ elim (either key (codes "rtsp_stream_url")) [
      | inl is ↦ known _ is (λ q. ground arith)
      | inr no2 ↦ elim (either key (codes "video_format")) [
        | inl is ↦ known _ is (λ q. ground arith)
        | inr no3 ↦ elim (either key (codes "codec")) [
          | inl is ↦ known _ is (λ q. ground arith)
          | inr no4 ↦ elim (either key (codes "image_width")) [
            | inl is ↦ known _ is (λ q. ground arith)
            | inr no5 ↦ elim (either key (codes "image_height")) [
              | inl is ↦ known _ is (λ q. ground arith)
              | inr no6 ↦ elim (either key (codes "siyi_camera_ip")) [
                | inl is ↦ known _ is (λ q. ground arith)
                | inr no7 ↦ elim (either key (codes "siyi_camera_port")) [
                  | inl is ↦ known _ is (λ q. ground arith)
                  | inr no8 ↦ absurd (
                      ends (
                        sym (
                          ap (λ p. read_param p value s)
                            (none_of no0 no1 no2 no3 no4 no5 no6 no7 no8))
                        ∙ e))
                ]
              ]
            ]
          ]
        ]
      ]
    ]
  ]
]
  where
    known :
        (k : List ℕ)
        → key ≡ k
        → (read_param (siyi_params k) value s ≡ ok t → Reads k value s t)
        → Reads key value s t
    known k is proof =
        subst (λ j. Reads j value s t) (sym is)
          (proof (subst (λ j. read_param (siyi_params j) value s ≡ ok t) is e))

    none_of :
        str_eq key (codes "save_path") ≡ false
        → str_eq key (codes "board") ≡ false
        → str_eq key (codes "rtsp_stream_url") ≡ false
        → str_eq key (codes "video_format") ≡ false
        → str_eq key (codes "codec") ≡ false
        → str_eq key (codes "image_width") ≡ false
        → str_eq key (codes "image_height") ≡ false
        → str_eq key (codes "siyi_camera_ip") ≡ false
        → str_eq key (codes "siyi_camera_port") ≡ false
        → siyi_params key ≡ none
    none_of h0 h1 h2 h3 h4 h5 h6 h7 h8 = rw (h0, h1, h2, h3, h4, h5, h6, h7, h8) refl

    ends : exited ≡ ok t → ⊥
    ends q = cc

-- Each field is what the last value of its key says, and as before if the key is not there.
abbrev pub Set : List (List ℕ × List ℕ) → SiyiConfigs → SiyiConfigs → Type 0
Set file s t =
    (t.rtsp_config.save_path ≡ last "save_path" some file s.rtsp_config.save_path)
    × (t.rtsp_config.board_name ≡ last "board" some file s.rtsp_config.board_name)
    × (t.rtsp_config.rtsp_stream_url
        ≡ last "rtsp_stream_url" some file s.rtsp_config.rtsp_stream_url)
    × (t.rtsp_config.video_format ≡ last "video_format" some file s.rtsp_config.video_format)
    × (t.rtsp_config.codec ≡ last "codec" some file s.rtsp_config.codec)
    × (t.rtsp_config.image_width ≡ last "image_width" atoi file s.rtsp_config.image_width)
    × (t.rtsp_config.image_height ≡ last "image_height" atoi file s.rtsp_config.image_height)
    × (t.siyi_cam_config.ip ≡ last "siyi_camera_ip" some file s.siyi_cam_config.ip)
    × (t.siyi_cam_config.port ≡ last "siyi_camera_port" atoi file s.siyi_cam_config.port)

set_all-Set :
    (file : List (List ℕ × List ℕ)) (s t : SiyiConfigs)
    → set_all siyi_params file s ≡ ok t
    → Set file s t
unfolding Reads
set_all-Set [] s t e =
    let same = ok_injective (sym e) in
    (
      ap (λ x. x.rtsp_config.save_path) same,
      ap (λ x. x.rtsp_config.board_name) same,
      ap (λ x. x.rtsp_config.rtsp_stream_url) same,
      ap (λ x. x.rtsp_config.video_format) same,
      ap (λ x. x.rtsp_config.codec) same,
      ap (λ x. x.rtsp_config.image_width) same,
      ap (λ x. x.rtsp_config.image_height) same,
      ap (λ x. x.siyi_cam_config.ip) same,
      ap (λ x. x.siyi_cam_config.port) same,
    )
set_all-Set ((key, value) ∷ more) s t e =
    let (u, first, rest) =
      >>=-eq-ok (read_param (siyi_params key) value s) (set_all siyi_params more) t e in
    let (a0, a1, a2, a3, a4, a5, a6, a7, a8) = read_param-Reads key value s u first in
    let (b0, b1, b2, b3, b4, b5, b6, b7, b8) = set_all-Set more u t rest in
    (
      b0 ∙ ap (last "save_path" some more) a0,
      b1 ∙ ap (last "board" some more) a1,
      b2 ∙ ap (last "rtsp_stream_url" some more) a2,
      b3 ∙ ap (last "video_format" some more) a3,
      b4 ∙ ap (last "codec" some more) a4,
      b5 ∙ ap (last "image_width" atoi more) a5,
      b6 ∙ ap (last "image_height" atoi more) a6,
      b7 ∙ ap (last "siyi_camera_ip" some more) a7,
      b8 ∙ ap (last "siyi_camera_port" atoi more) a8,
    )

-- When the file of a camera is loaded, a file of keys with their values and whatever other events
-- around them: each of the nine fields is what the last value of its key says, with the width, the
-- height and the port as numbers; and a field whose key is not in the file is what was in memory
-- before, which nothing sets.
pub load_siyi_configs-Set :
    (front back : ℕ) (file : List (List ℕ × List ℕ)) (before configs : SiyiConfigs)
    → load_siyi_configs (some (others front (pairs file (others back (stream_end ∷ []))))) before
      ≡ ok configs
    → Set file before configs
unfolding load_siyi_configs
load_siyi_configs-Set front back file before configs e =
    set_all-Set file before configs (sym (load-set_all siyi_params front back file before) ∙ e)
