-- ===== src/Main/Options.antt =====
-- What the options ask for.
use uav_mission_server.Prelude.{
  ℕ, ◌≡◌, refl, ap, ◌∙◌, inl, inr, arith, Bool, true, false, ◌||◌, Bool-cases, List, [], ◌∷◌,
  Option, none, some, ◌==◌, if◌then◌else◌,
}
use uav_mission_server.Prelude.Outcomes.{ok}
use uav_mission_server.Main.{
  Args, no_args, Given, set_option, parse_options, Machine, helped, commander, load_and_run,
  run_args, main,
}

-- Whether an option is given, and the argument of the last one.
abbrev pub has : ℕ → List Given → Bool
has c [] = false
has c (given ∷ more) = given.0 == c || has c more

abbrev pub last_arg : ℕ → List Given → Option (List ℕ) → Option (List ℕ)
last_arg c [] before = before
last_arg c (given ∷ more) before = last_arg c more (if given.0 == c then given.1 else before)

-- What the options come to, all together.
abbrev pub meant : List Given → Args → Args
meant options args = record {
  commander_mode = args.commander_mode || has b't' options;
  net_port = last_arg b'p' options args.net_port;
  cmd_arg = last_arg b't' options args.cmd_arg;
}

or_assoc : (a b c : Bool) → ((a || b) || c) ≡ (a || (b || c))
or_assoc true b c = refl
or_assoc false b c = refl

or_false : (a : Bool) → a ≡ (a || false)
or_false true = refl
or_false false = refl

or_true : (a : Bool) → true ≡ (a || true)
or_true true = refl
or_true false = refl

p_not_t : (c : ℕ) → (c == b'p') ≡ true → (c == b't') ≡ false
p_not_t c h = ground arith

set_option-fields :
    (c : ℕ) (optarg : Option (List ℕ)) (args : Args)
    → ((set_option (c, optarg) args).commander_mode ≡ (args.commander_mode || c == b't'))
      × ((set_option (c, optarg) args).net_port ≡ (if c == b'p' then optarg else args.net_port))
      × ((set_option (c, optarg) args).cmd_arg ≡ (if c == b't' then optarg else args.cmd_arg))
set_option-fields c optarg args = elim (Bool-cases (c == b'p')) [
  | inl is ↦ rw (is, p_not_t c is) (or_false args.commander_mode, refl, refl)
  | inr other ↦ elim (Bool-cases (c == b't')) [
    | inl is ↦ rw (other, is) (or_true args.commander_mode, refl, refl)
    | inr nor ↦ rw (other, nor) (or_false args.commander_mode, refl, refl)
  ]
]

meant_step :
    (given : Given) (more : List Given) (args : Args)
    → meant more (set_option given args) ≡ meant (given ∷ more) args
meant_step (c, optarg) more args =
    let (mode, port, arg) = set_option-fields c optarg args in
    λ i. record {
      commander_mode =
          (ap (λ b. b || has b't' more) mode
              ∙ or_assoc args.commander_mode (c == b't') (has b't' more))
            i;
      net_port = last_arg b'p' more (port i);
      cmd_arg = last_arg b't' more (arg i);
    }

parse_options-meant :
    (options : List Given) (args : Args)
    → parse_options options args ≡ (if has b'h' options then none else some (meant options args))
unfolding parse_options
parse_options-meant [] args =
    ap some (λ i. record args { commander_mode = or_false args.commander_mode i })
parse_options-meant (given ∷ more) args = elim (Bool-cases (given.0 == b'h')) [
  | inl help ↦ rw help refl
  | inr other ↦ rw other (
      parse_options-meant more (set_option given args)
      ∙ ap (λ a. if has b'h' more then none else some a) (meant_step given more args))
]

-- However the options are ordered and repeated: the help is printed if it is asked for, anywhere among
-- them; else a command goes to a running server if one is to be sent, with the argument of the last
-- such option; else the server is started, with the last port that is given.
pub main-meant :
    (m : Machine) (options : List Given)
    → main m options ≡ (
        if has b'h' options
        then ok helped
        else if has b't' options
        then commander m (last_arg b't' options none)
        else load_and_run m (last_arg b'p' options none))
unfolding main
main-meant m options = ap (run_args m) (parse_options-meant options no_args) ∙ go (has b'h' options)
  where
    go :
        (h : Bool)
        → run_args m (if h then none else some (meant options no_args)) ≡ (
            if h
            then ok helped
            else if has b't' options
            then commander m (last_arg b't' options none)
            else load_and_run m (last_arg b'p' options none))
    go true = refl
    go false = refl
