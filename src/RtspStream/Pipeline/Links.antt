-- ===== src/RtspStream/Pipeline/Links.antt =====
-- What the calls of GStreamer build.
use uav_mission_server.Prelude.{
  ℕ, Bool, true, false, not, ◌&&◌, ◌||◌, List, [], ◌∷◌, ◌++◌, Option, none, some, if◌then◌else◌,
  ◌==◌,
}
use uav_mission_server.RtspStream.Pipeline.{
  Element, source, tee, jpg_queue, jpg_depay, jpg_parse, jpg_decoder, jpg_convert, jpg_scale,
  jpg_encoder, jpg_sink, mp4_queue, mp4_depay, mp4_parse, mp4_decoder, mp4_convert, mp4_scale,
  mp4_encoder, mp4_mux, mp4_osel, mp4_sink, fake_sink, Request, first, second, number, text, pad,
  Call, make, add_many, set, link_many, link_filtered, connect, request_pad, link_pad, add_probe,
  forward_messages, set_playing,
}

unfoldable pub number_of : Element → ℕ
number_of source = 0
number_of tee = 1
number_of jpg_queue = 2
number_of jpg_depay = 3
number_of jpg_parse = 4
number_of jpg_decoder = 5
number_of jpg_convert = 6
number_of jpg_scale = 7
number_of jpg_encoder = 8
number_of jpg_sink = 9
number_of mp4_queue = 10
number_of mp4_depay = 11
number_of mp4_parse = 12
number_of mp4_decoder = 13
number_of mp4_convert = 14
number_of mp4_scale = 15
number_of mp4_encoder = 16
number_of mp4_mux = 17
number_of mp4_osel = 18
number_of mp4_sink = 19
number_of fake_sink = 20

unfoldable pub among : Element → List Element → Bool
unfolding number_of
among e [] = false
among e (d ∷ ds) = number_of e == number_of d || among e ds

unfoldable pub all_among : List Element → List Element → Bool
unfolding among
all_among [] ds = true
all_among (e ∷ es) ds = among e ds && all_among es ds

-- What stands between two elements: they are linked, also over a pad of the output selector.
abbrev pairs : List Element → List (Element × Element)
pairs [] = []
pairs (a ∷ []) = []
pairs (a ∷ b ∷ es) = (a, b) ∷ pairs (b ∷ es)

-- Whether two elements are linked.
unfoldable pub linked : Element → Element → List (Element × Element) → Bool
unfolding number_of
linked a b [] = false
linked a b ((c, d) ∷ links) =
    number_of a == number_of c && number_of b == number_of d || linked a b links

-- None of the new links is made already, or twice.
unfoldable pub all_new : List (Element × Element) → List (Element × Element) → Bool
unfolding linked
all_new [] links = true
all_new ((a, b) ∷ more) links = not (linked a b links || linked a b more) && all_new more links

-- What was made, put in the pipeline, linked and asked for by the calls so far.
pub record Built : Type 0 where
  pub made : List Element
  pub added : List Element
  pub links : List (Element × Element)
  pub asked : List Request
  pub playing : Bool

abbrev asked_for : Request → List Request → Bool
asked_for r [] = false
asked_for first (first ∷ rs) = true
asked_for second (second ∷ rs) = true
asked_for first (second ∷ rs) = asked_for first rs
asked_for second (first ∷ rs) = asked_for second rs

-- The state behind a call, and `none` if the call uses an element that is not made, not in the
-- pipeline where it has to be, or a pad that was not asked for, links what is linked, or changes a
-- pipeline that plays.
unfoldable pub apply : Call → Built → Option Built
unfolding among all_among linked all_new
apply (make e factory) b =
    if among e b.made || b.playing then none else some (record b { made = e ∷ b.made })
apply (add_many es) b =
    if all_among es b.made && not b.playing then some (record b { added = es ++ b.added }) else none
apply (set e name (number n)) b = if among e b.made then some b else none
apply (set e name (text t)) b = if among e b.made then some b else none
apply (set e name (pad r)) b = if among e b.made && asked_for r b.asked then some b else none
apply (link_many es) b =
    if all_among es b.added && all_new (pairs es) b.links && not b.playing
    then some (record b { links = pairs es ++ b.links })
    else none
apply (link_filtered d e format width height) b =
    if among d b.added && among e b.added && all_new ((d, e) ∷ []) b.links
    then some (record b { links = (d, e) ∷ b.links })
    else none
apply (connect e name) b = if among e b.made then some b else none
apply (request_pad r) b =
    if among mp4_osel b.added && not (asked_for r b.asked)
    then some (record b { asked = r ∷ b.asked })
    else none
apply (link_pad r e) b =
    if asked_for r b.asked && among e b.added && all_new ((mp4_osel, e) ∷ []) b.links
    then some (record b { links = (mp4_osel, e) ∷ b.links })
    else none
apply (add_probe e) b = if among e b.added then some b else none
apply forward_messages b = some b
apply set_playing b = if b.playing then none else some (record b { playing = true })

-- Oldest call last, as in the lists of calls made.
unfoldable pub build : List Call → Option Built
unfolding apply
build [] = some (record { made = []; added = []; links = []; asked = []; playing = false })
build (c ∷ before) = elim (build before) [ none ↦ none | some b ↦ apply c b ]

-- Whether the data comes along a list of elements, over links made.
abbrev pub path : List Element → List (Element × Element) → Bool
path [] links = true
path (a ∷ []) links = true
path (a ∷ b ∷ es) links = linked a b links && path (b ∷ es) links
