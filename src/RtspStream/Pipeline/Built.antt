-- ===== src/RtspStream/Pipeline/Built.antt =====
-- What the pipeline is like when a camera is ready.
use uav_mission_server.Prelude.{
  ℕ, ◌≡◌, refl, ap, ◌∙◌, arith, Bool, true, false, List, [], ◌∷◌, Option, none, some, sym,
  if◌then◌else◌, inl, inr, Bool-cases,
}
use uav_mission_server.RtspStream.{RtspConfig}
use uav_mission_server.RtspStream.Pipeline.{
  Element, tee, jpg_queue, jpg_depay, jpg_parse, jpg_decoder, jpg_convert, jpg_scale, jpg_encoder,
  jpg_sink, mp4_queue, mp4_depay, mp4_parse, mp4_decoder, mp4_convert, mp4_scale, mp4_encoder,
  mp4_mux, mp4_osel, mp4_sink, fake_sink, Call, make, Instruction, call, must, make_all, ready,
  make_each, execute, all_elements, is_rb5, is_codec, instructions, with_board, with_codec,
  rtsp_saver, use_text, exits,
}
use uav_mission_server.RtspStream.Pipeline.Links.{
  number_of, among, all_among, Built, apply, build, linked, path,
}

-- The calls of a sequence of instructions that comes to its end.
abbrev makes : List (Element × List ℕ) → List Call → List Call
makes [] done = done
makes ((e, factory) ∷ more) done = makes more (make e factory ∷ done)

abbrev trace : List Instruction → List Call → List Call
trace [] done = done
trace (call c ∷ more) done = trace more (c ∷ done)
trace (must c ∷ more) done = trace more (c ∷ done)
trace (make_all es ∷ more) done = trace more (makes es done)
trace (use_text t ∷ more) done = trace more done

make_each-makes :
    (succeeds : Call → Bool) (es : List (Element × List ℕ)) (done : List Call)
    → (make_each succeeds es done).0 ≡ makes es done
unfolding make_each
make_each-makes succeeds [] done = refl
make_each-makes succeeds ((e, factory) ∷ more) done =
    make_each-makes succeeds more (make e factory ∷ done)

execute-trace :
    (succeeds : Call → Bool) (is : List Instruction) (done t : List Call)
    → execute succeeds is done ≡ ready t
    → t ≡ trace is done
unfolding execute
execute-trace succeeds [] done t e = cc
execute-trace succeeds (call c ∷ more) done t e = execute-trace succeeds more (c ∷ done) t e
execute-trace succeeds (must c ∷ more) done t e =
    ground (arith, execute-trace succeeds more (c ∷ done) t)
execute-trace succeeds (use_text none ∷ more) done t e = cc
execute-trace succeeds (use_text (some x) ∷ more) done t e = execute-trace succeeds more done t e
execute-trace succeeds (make_all es ∷ more) done t e = ground (
  arith,
  execute-trace succeeds more (make_each succeeds es done).0 t,
  make_each-makes succeeds es done,
)

abbrev pub image_path : List Element
image_path =
    tee ∷ jpg_queue ∷ jpg_depay ∷ jpg_parse ∷ jpg_decoder ∷ jpg_convert ∷ jpg_scale ∷ jpg_encoder
    ∷ jpg_sink ∷ []

abbrev pub video_path : Element → List Element
video_path sink =
    tee ∷ mp4_queue ∷ mp4_depay ∷ mp4_parse ∷ mp4_decoder ∷ mp4_convert ∷ mp4_scale ∷ mp4_encoder
    ∷ mp4_mux ∷ mp4_osel ∷ sink ∷ []

-- The data comes from the tee to the sink of the images, and to both sinks of the videos.
pub record Complete (b : Built) : Type 0 where
  pub images : path image_path b.links ≡ true
  pub videos : path (video_path mp4_sink) b.links ≡ true
  pub dropped : path (video_path fake_sink) b.links ≡ true
  pub plays : b.playing ≡ true

instructions-Complete :
    (s : RtspConfig) (codec : List ℕ) (rb5_codec : Bool)
    → (b : Built) × (build (trace (instructions s codec rb5_codec) []) ≡ some b) × Complete b
unfolding instructions all_elements build apply among all_among number_of linked
instructions-Complete s codec true =
    (_, refl, record { images = refl; videos = refl; dropped = refl; plays = refl })
instructions-Complete s codec false =
    (_, refl, record { images = refl; videos = refl; dropped = refl; plays = refl })

board-trace :
    (succeeds : Call → Bool) (s : RtspConfig) (codec : List ℕ) (board : Option (List ℕ))
    (t : List Call)
    → with_board succeeds s codec board ≡ ready t
    → (rb5_codec : Bool) × (t ≡ trace (instructions s codec rb5_codec) [])
board-trace succeeds s codec none t e = cc
board-trace succeeds s codec (some board_name) t e =
    (is_rb5 board_name, execute-trace succeeds (instructions s codec (is_rb5 board_name)) [] t e)

saver-trace :
    (succeeds : Call → Bool) (s : RtspConfig) (c : Option (List ℕ)) (t : List Call)
    → with_codec succeeds s c ≡ ready t
    → (codec : List ℕ) × (rb5_codec : Bool) × (t ≡ trace (instructions s codec rb5_codec) [])
saver-trace succeeds s none t e = cc
saver-trace succeeds s (some codec) t e = elim (Bool-cases (is_codec codec)) [
  | inl known ↦
      (let (rb5_codec, is) = board-trace succeeds s codec s.board_name t (chosen known) in
        (codec, rb5_codec, is))
  | inr unknown ↦ absurd (ends unknown)
]
  where
    chosen : is_codec codec ≡ true → with_board succeeds s codec s.board_name ≡ ready t
    chosen known =
        ap (λ b. if b then with_board succeeds s codec s.board_name else exits []) (sym known) ∙ e

    apart : exits [] ≡ ready t → ⊥
    apart q = cc

    ends : is_codec codec ≡ false → ⊥
    ends unknown =
        let q : exits [] ≡ ready t =
          ap (λ b. if b then with_board succeeds s codec s.board_name else exits []) (sym unknown)
          ∙ e in
        apart q

-- For every configuration with which a camera comes to be ready: no call used an element before it
-- was made, or put into the pipeline where it had to be, or a pad before it was asked for; nothing
-- was made twice, no two elements were linked twice, and nothing was made, added or linked by a list
-- once the pipeline plays; and there is a complete path of links from the tee, where
-- `pad_added_handler` brings the stream in, to the sink of the images and to both sinks of the videos.
pub rtsp_saver-Complete :
    (succeeds : Call → Bool) (s : RtspConfig) (t : List Call)
    → rtsp_saver succeeds s ≡ ready t
    → (b : Built) × (build t ≡ some b) × Complete b
unfolding rtsp_saver
rtsp_saver-Complete succeeds s t e =
    let (codec, rb5_codec, is) = saver-trace succeeds s s.codec t e in
    let (b, built, complete) = instructions-Complete s codec rb5_codec in
    (b, ap build is ∙ built, complete)
