-- ===== src/Config/Yaml.antt =====
-- The loop over the events of a file that the loaders of src/config.c share, with `READ_PARAM` and
-- `yaml_load_param`.
use uav_mission_server.Prelude.{
  ℕ, zero, suc, ◌≡◌, refl, ◌∙◌, Bool, true, false, List, [], ◌∷◌, Option, none, some, if◌then◌else◌,
  codes, String,
}
use uav_mission_server.Prelude.Libc.{str_eq}
use uav_mission_server.Prelude.Outcomes.{Outcome, ok, exited, fault, ◌>>=◌, >>=-eq-ok, ok_injective}
use mathlib.Core.Path.{subst}

pub data Event : Type 0 where
  scalar : List ℕ → Event
  stream_end : Event
  other : Event

-- What a value of a type does: `none` is the exit on an illegal Boolean.
abbrev pub as_bool : List ℕ → Outcome Bool
as_bool value =
    if str_eq (codes "true") value
    then ok true
    else if str_eq (codes "false") value
    then ok false
    else exited

-- The chain of `READ_PARAM`: what the parameter of a name does with its value, if there is one.
abbrev pub Params : Type 0 → Type 0
Params S = List ℕ → Option (List ℕ → S → Outcome S)

-- The events of a file of keys with their values, between `front` and `back` other events.
abbrev pub pairs : List (List ℕ × List ℕ) → List Event → List Event
pairs [] rest = rest
pairs ((key, value) ∷ more) rest = scalar key ∷ scalar value ∷ pairs more rest

abbrev pub others : ℕ → List Event → List Event
others zero rest = rest
others (suc n) rest = other ∷ others n rest

-- Later values of a key take the place of earlier ones.
abbrev pub last : {A : Type 0} → String → (List ℕ → A) → List (List ℕ × List ℕ) → A → A
last name read [] before = before
last name read ((key, value) ∷ more) before =
    last name read more (if str_eq key (codes name) then read value else before)

module _ {S : Type 0} where
  -- The setter of a key over its value.
  abbrev pub read_param : Option (List ℕ → S → Outcome S) → List ℕ → S → Outcome S
  read_param none value s = exited
  read_param (some setter) value s = setter value s

  -- The loop. At the end of the list the parser fails.
  unfoldable pub load : Params S → List Event → S → Outcome S
  load params [] s = exited
  load params (stream_end ∷ events) s = ok s
  load params (other ∷ events) s = load params events s
  load params (scalar key ∷ []) s = exited
  load params (scalar key ∷ stream_end ∷ events) s = exited
  load params (scalar key ∷ other ∷ events) s = exited
  load params (scalar key ∷ scalar value ∷ events) s =
      read_param (params key) value s >>= load params events

  -- What the file means: its parameters set one after the other.
  abbrev pub set_all : Params S → List (List ℕ × List ℕ) → S → Outcome S
  set_all params [] s = ok s
  set_all params ((key, value) ∷ more) s = read_param (params key) value s >>= set_all params more

  exited_ok : {t : S} → exited ≡ ok t → ⊥
  exited_ok e = cc

  load-others :
      (params : Params S) (n : ℕ) (rest : List Event) (s : S)
      → load params (others n rest) s ≡ load params rest s
  unfolding load
  load-others params zero rest s = refl
  load-others params (suc n) rest s = load-others params n rest s

  bind_same : (m : Outcome S) (f g : S → Outcome S) → ((s : S) → f s ≡ g s) → (m >>= f) ≡ (m >>= g)
  bind_same (ok s) f g h = h s
  bind_same exited f g h = refl
  bind_same fault f g h = refl

  load-pairs :
      (params : Params S) (file : List (List ℕ × List ℕ)) (rest : List Event) (s : S)
      → load params (pairs file rest) s ≡ (set_all params file s >>= load params rest)
  unfolding load
  load-pairs params [] rest s = refl
  load-pairs params ((key, value) ∷ more) rest s =
      bind_same (read_param (params key) value s) (load params (pairs more rest))
        (λ t. set_all params more t >>= load params rest) (load-pairs params more rest)
      ∙ bind_assoc (read_param (params key) value s)
    where
      bind_assoc :
          (m : Outcome S)
          → (m >>= λ t. set_all params more t >>= load params rest)
            ≡ ((m >>= set_all params more) >>= load params rest)
      bind_assoc (ok t) = refl
      bind_assoc exited = refl
      bind_assoc fault = refl

  -- A file of keys with their values sets the parameters in their order, whatever other events stand
  -- in front of them and behind them.
  pub load-set_all :
      (params : Params S) (front back : ℕ) (file : List (List ℕ × List ℕ)) (s : S)
      → load params (others front (pairs file (others back (stream_end ∷ [])))) s
        ≡ set_all params file s
  load-set_all params front back file s =
      load-others params front (pairs file (others back (stream_end ∷ []))) s
      ∙ load-pairs params file (others back (stream_end ∷ [])) s
      ∙ ends (set_all params file s)
    where
      ends : (m : Outcome S) → (m >>= load params (others back (stream_end ∷ []))) ≡ m
      ends (ok t) = load-others params back (stream_end ∷ []) t ∙ last t
        where
          last : (u : S) → load params (stream_end ∷ []) u ≡ ok u
          last u = unfold load in refl
      ends exited = refl
      ends fault = refl

  -- What every parameter keeps holds behind a file.
  pub load_inv :
      (params : Params S) (P : S → Type 0)
      → ((key value : List ℕ) (s t : S) → P s → read_param (params key) value s ≡ ok t → P t)
      → (events : List Event) (s t : S) → P s
      → load params events s ≡ ok t
      → P t
  unfolding load
  load_inv params P keep [] s t h e = absurd (exited_ok e)
  load_inv params P keep (stream_end ∷ events) s t h e = subst P (ok_injective e) h
  load_inv params P keep (other ∷ events) s t h e = load_inv params P keep events s t h e
  load_inv params P keep (scalar key ∷ []) s t h e = absurd (exited_ok e)
  load_inv params P keep (scalar key ∷ stream_end ∷ events) s t h e = absurd (exited_ok e)
  load_inv params P keep (scalar key ∷ other ∷ events) s t h e = absurd (exited_ok e)
  load_inv params P keep (scalar key ∷ scalar value ∷ events) s t h e =
      let (u, read, rest) = >>=-eq-ok (read_param (params key) value s) (load params events) t e in
      load_inv params P keep events u t (keep key value s u h read) rest
