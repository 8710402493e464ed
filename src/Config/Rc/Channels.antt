-- ===== src/Config/Rc/Channels.antt =====
-- The array of channels is never used outside its bounds, and each key sets its own channel.
use uav_mission_server.Prelude.{
  Bool, get_elem?_lt, ℕ, zero, suc, ◌+◌, ◌-◌, ◌≤◌, ◌<◌, ◌≡◌, ◌≢◌, ◌⊎◌, inl, inr, refl, sym, ap, ◌∙◌,
  arith, true, false, ◌||◌, List, [], ◌∷◌, Option, none, some, ◌==◌, ==_iff, codes, Bool-cases,
  Option-cases, length, get_elem?, set, get_elem?-set_self, get_elem?-set_ne, length-set, ltb,
}
use uav_mission_server.Prelude.Int.{ℤ, pos, negsuc}
use uav_mission_server.Prelude.Libc.{str_eq, str_eq_sound, atoi}
use uav_mission_server.Prelude.Outcomes.{Outcome, ok, exited, ◌>>=◌, >>=-eq-ok, ok_injective}
use uav_mission_server.Config.Yaml.{Event, scalar, stream_end, other, load, read_param, as_bool}
use uav_mission_server.Config.Rc.{
  ConfigRc, no_channels, Field, min_field, mid_field, max_field, reverse_field, channel_key,
  field_of, found_first, find_channel, set_field, set_channel, rc_params, load_rc_configs,
  get_rc_config,
}
use uav_mission_server.Config.Rc.Keys.{chooses}

find_channel_bound :
    (left n m : ℕ) (field : Field) (key : List ℕ)
    → find_channel left n key ≡ some (m, field)
    → (n ≤ m) × (m < n + left)
find_channel_bound zero n m field key e = cc
find_channel_bound (suc left) n m field key e = elim (Option-cases (field_of n key)) [
  | inl not_ ↦
      (let (low, high) =
          find_channel_bound left (suc n) m field key
            (sym (ap (λ o. found_first o n (find_channel left (suc n) key)) not_) ∙ e) in
        (omega arith, omega arith))
  | inr (f, is) ↦ here f (sym (ap (λ o. found_first o n (find_channel left (suc n) key)) is) ∙ e)
]
  where
    here :
        (f : Field) → found_first (some f) n none ≡ some (m, field) → (n ≤ m) × (m < n + suc left)
    here f q = ground arith

-- The field of a channel set, or the exit on an illegal Boolean.
set_field-cases :
    (field : Field) (value : List ℕ) (c : ConfigRc)
    → (set_field field value c ≡ exited) ⊎ ((c' : ConfigRc) × (set_field field value c ≡ ok c'))
set_field-cases min_field value c = inr (_, refl)
set_field-cases mid_field value c = inr (_, refl)
set_field-cases max_field value c = inr (_, refl)
set_field-cases reverse_field value c = elim (Bool-cases (str_eq (codes "true") value)) [
  | inl is ↦ inr (record c { reverse = true }, rw is refl)
  | inr not_ ↦ elim (Bool-cases (str_eq (codes "false") value)) [
    | inl is ↦ inr (record c { reverse = false }, rw (not_, is) refl)
    | inr nor ↦ inl (rw (not_, nor) refl)
  ]
]

-- An exit, or all eighteen channels.
abbrev pub Whole : Outcome (List ConfigRc) → Type 0
Whole r = (r ≡ exited) ⊎ ((channels : List ConfigRc) × (r ≡ ok channels) × (length channels ≡ 18))

set_channel-Whole :
    (i : ℕ) (field : Field) (value : List ℕ) (channels : List ConfigRc)
    → i < 18
    → length channels ≡ 18
    → Whole (set_channel i field value (get_elem? channels i) channels)
set_channel-Whole i field value channels lt size =
    let (c, at) = get_elem?_lt channels i (omega arith) in
    elim (set_field-cases field value c) [
      | inl illegal ↦ rw at (inl (rw illegal refl))
      | inr (c', fine) ↦
          rw at (inr (set channels i c', rw fine refl, length-set channels i c' ∙ size))
    ]

read_param-Whole :
    (key value : List ℕ) (channels : List ConfigRc)
    → length channels ≡ 18
    → Whole (read_param (rc_params key) value channels)
unfolding rc_params
read_param-Whole key value channels size = elim (Option-cases (find_channel 18 1 key)) [
  | inl not_ ↦ rw not_ (inl refl)
  | inr ((n, field), is) ↦ rw is (
      let (low, high) = find_channel_bound 18 1 n field key is in
      set_channel-Whole (n - 1) field value channels (omega arith) size)
]

pub load-Whole :
    (events : List Event) (channels : List ConfigRc)
    → length channels ≡ 18
    → Whole (load rc_params events channels)
unfolding load
load-Whole [] channels size = inl refl
load-Whole (stream_end ∷ events) channels size = inr (channels, refl, size)
load-Whole (other ∷ events) channels size = load-Whole events channels size
load-Whole (scalar key ∷ []) channels size = inl refl
load-Whole (scalar key ∷ stream_end ∷ events) channels size = inl refl
load-Whole (scalar key ∷ other ∷ events) channels size = inl refl
load-Whole (scalar key ∷ scalar value ∷ events) channels size =
    elim (read_param-Whole key value channels size) [
      | inl illegal ↦ rw illegal (inl refl)
      | inr (channels', fine, size') ↦ rw fine (load-Whole events channels' size')
    ]

pub get_inside :
    (channels : List ConfigRc) (n : ℕ) (c : ConfigRc)
    → 1 ≤ n
    → n ≤ 18
    → get_elem? channels (n - 1) ≡ some c
    → get_rc_config (pos n) channels ≡ ok c
unfolding get_rc_config
get_inside channels n c low high at = rw at (ground arith)

get_outside :
    (channels : List ConfigRc) (n : ℕ)
    → (n < 1) ⊎ (18 < n)
    → get_rc_config (pos n) channels ≡ exited
unfolding get_rc_config
get_outside channels n h = ground arith

-- What a channel number of any `int` gives: the element of that channel, or the end of the process.
abbrev pub Read : List ConfigRc → ℤ → Type 0
Read channels rc_channel =
    ((n : ℕ) × (c : ConfigRc) × (rc_channel ≡ pos n)
      × (1 ≤ n)
      × (n ≤ 18)
      × (get_elem? channels (n - 1) ≡ some c)
      × (get_rc_config rc_channel channels ≡ ok c))
    ⊎ (((n : ℕ) → rc_channel ≡ pos n → (n < 1) ⊎ (18 < n))
        × (get_rc_config rc_channel channels ≡ exited))

get-Read :
    (channels : List ConfigRc) (rc_channel : ℤ) → length channels ≡ 18 → Read channels rc_channel
get-Read channels (negsuc n) size = inr (λ m e. cc, unfold get_rc_config in refl)
get-Read channels (pos n) size = elim (Bool-cases (ltb n 1 || ltb 18 n)) [
  | inl outside ↦ inr (λ m e. beyond m e outside, get_outside channels n (beyond n refl outside))
  | inr inside ↦
      (let (low, high) = between inside in
        let (c, at) = get_elem?_lt channels (n - 1) (omega arith) in
        inl (n, c, refl, low, high, at, get_inside channels n c low high at))
]
  where
    beyond : (m : ℕ) → pos n ≡ pos m → (ltb n 1 || ltb 18 n) ≡ true → (m < 1) ⊎ (18 < m)
    beyond m e outside = ground arith

    between : (ltb n 1 || ltb 18 n) ≡ false → (1 ≤ n) × (n ≤ 18)
    between inside = (ground arith, ground arith)

-- A file of radio channels either ends the process or gives all eighteen channels: a key is never a
-- write outside the array. And then the configuration of a channel number, of any `int`, is read inside
-- the array if it is 1 to 18, and the process ends if it is not.
load_rc_configs-get_rc_config :
    (file : Option (List Event)) (rc_channel : ℤ)
    → (load_rc_configs file ≡ exited)
      ⊎ ((channels : List ConfigRc) × (load_rc_configs file ≡ ok channels)
          × Read channels rc_channel)
unfolding load_rc_configs
load_rc_configs-get_rc_config none rc_channel = inl refl
load_rc_configs-get_rc_config (some events) rc_channel = elim (load-Whole events no_channels refl) [
  | inl ends ↦ inl ends
  | inr (channels, loaded, size) ↦ inr (channels, loaded, get-Read channels rc_channel size)
]

apart_index : (n m : ℕ) → 1 ≤ n → 1 ≤ m → (m == n) ≡ false → n - 1 ≢ m - 1
apart_index n m ln lm differ e = ground arith

-- What a value makes of a channel: the field of the key is what the text says, the others are kept.
abbrev pub Becomes : Field → List ℕ → ConfigRc → ConfigRc → Type 0
Becomes min_field value c c' =
    (c'.min ≡ atoi value) × (c'.mid ≡ c.mid) × (c'.max ≡ c.max) × (c'.reverse ≡ c.reverse)
Becomes mid_field value c c' =
    (c'.min ≡ c.min) × (c'.mid ≡ atoi value) × (c'.max ≡ c.max) × (c'.reverse ≡ c.reverse)
Becomes max_field value c c' =
    (c'.min ≡ c.min) × (c'.mid ≡ c.mid) × (c'.max ≡ atoi value) × (c'.reverse ≡ c.reverse)
Becomes reverse_field value c c' =
    (c'.min ≡ c.min)
    × (c'.mid ≡ c.mid)
    × (c'.max ≡ c.max)
    × (((value ≡ codes "true") × (c'.reverse ≡ true))
        ⊎ ((value ≡ codes "false") × (c'.reverse ≡ false)))

set_field-Becomes :
    (field : Field) (value : List ℕ) (c c' : ConfigRc)
    → set_field field value c ≡ ok c'
    → Becomes field value c c'
set_field-Becomes min_field value c c' e = (cc, cc, cc, cc)
set_field-Becomes mid_field value c c' e = (cc, cc, cc, cc)
set_field-Becomes max_field value c c' e = (cc, cc, cc, cc)
set_field-Becomes reverse_field value c c' e =
    let (b, read, is) = >>=-eq-ok (as_bool value) (λ b. ok (record c { reverse = b })) c' e in
    let same = sym (ok_injective is) in
    (
      ap (λ x. x.min) same,
      ap (λ x. x.mid) same,
      ap (λ x. x.max) same,
      elim (Bool-cases (str_eq (codes "true") value)) [
        | inl is_word ↦ inl (
          sym (str_eq_sound _ value is_word),
          ap (λ x. x.reverse) same ∙ sym (ok_injective (sym (truly is_word) ∙ read)),
        )
        | inr differs ↦ elim (Bool-cases (str_eq (codes "false") value)) [
          | inl is_word ↦ inr (
            sym (str_eq_sound _ value is_word),
            ap (λ x. x.reverse) same ∙ sym (ok_injective (sym (falsely differs is_word) ∙ read)),
          )
          | inr neither ↦ absurd (never (sym (illegal differs neither) ∙ read))
        ]
      ],
    )
  where
    truly : str_eq (codes "true") value ≡ true → as_bool value ≡ ok true
    truly is_word = rw is_word refl

    falsely :
        str_eq (codes "true") value ≡ false
        → str_eq (codes "false") value ≡ true
        → as_bool value ≡ ok false
    falsely differs is_word = rw (differs, is_word) refl

    illegal :
        str_eq (codes "true") value ≡ false
        → str_eq (codes "false") value ≡ false
        → as_bool value ≡ exited
    illegal differs neither = rw (differs, neither) refl

    never : {b : Bool} → exited ≡ ok b → ⊥
    never q = cc

-- The key of a channel and a field sets that field of that channel, and nothing else: afterwards the
-- field is what the value says, a number or one of the two words for a Boolean, the other fields of
-- the channel are as they were, and so is every other channel.
pub read_param-get_rc_config :
    (n m : ℕ) (field : Field) (value : List ℕ) (channels channels' : List ConfigRc)
    → 1 ≤ n
    → n ≤ 18
    → 1 ≤ m
    → m ≤ 18
    → length channels ≡ 18
    → read_param (rc_params (channel_key n field)) value channels ≡ ok channels'
    → (c : ConfigRc) × (c' : ConfigRc) × (get_rc_config (pos n) channels ≡ ok c)
      × (get_rc_config (pos n) channels' ≡ ok c')
      × Becomes field value c c'
      × ((m ≡ n) ⊎ (get_rc_config (pos m) channels' ≡ get_rc_config (pos m) channels))
read_param-get_rc_config n m field value channels channels' ln hn lm hm size e =
    let (c, at) = get_elem?_lt channels (n - 1) (omega arith) in
    let sets : (set_field field value c >>= λ c'. ok (set channels (n - 1) c')) ≡ ok channels' =
      ap (λ o. set_channel (n - 1) field value o channels) (sym at)
      ∙ ap (λ p. read_param p value channels) (sym (chooses n field ln hn))
      ∙ e in
    let (c', set', stored) = >>=-eq-ok (set_field field value c) _ channels' sets in
    let is : channels' ≡ set channels (n - 1) c' = sym (ok_injective stored) in
    let here : get_elem? channels' (n - 1) ≡ some c' =
      ap (λ l. get_elem? l (n - 1)) is ∙ get_elem?-set_self channels (n - 1) c' (omega arith) in
    (
      c,
      c',
      get_inside channels n c ln hn at,
      get_inside channels' n c' ln hn here,
      set_field-Becomes field value c c' set',
      elim (Bool-cases (m == n)) [
        | inl same ↦ inl ((==_iff m n).0 same)
        | inr differ ↦ inr (
            let (d, there) = get_elem?_lt channels (m - 1) (omega arith) in
            let kept : get_elem? channels' (m - 1) ≡ some d =
              ap (λ l. get_elem? l (m - 1)) is
              ∙ get_elem?-set_ne channels c' (apart_index n m ln lm differ)
              ∙ there in
            get_inside channels' m d lm hm kept ∙ sym (get_inside channels m d lm hm there))
      ],
    )
