-- ===== src/Tools/Gpio.antt =====
-- tools/src/airspyhf_gpio.c: the four outputs of a receiver are set.
pub mod Outputs
use airspyhf.Prelude.{
  ℕ, zero, suc, ◌+◌, ◌*◌, ltb, Bool, true, false, ◌&&◌, Option, none, some, List, [], ◌∷◌, ◌==◌,
  get_or, if◌then◌else◌,
}
use airspyhf.Prelude.Int.{ℤ, pos, ltb_ℤ}
use airspyhf.Prelude.Words.{pattern32, signed32}
use airspyhf.Prelude.Checked.{◌>>=◌}
use airspyhf.Driver.Commands.{
  UserOutput, output_0, output_1, output_2, output_3, OutputState, low, high,
}
use airspyhf.Rx.Options.{same_text, text_on, text_off}
use airspyhf.Tools.{
  Event, listed, opened, closed, output_set, Trace, Api, Exit, exit_success, exit_failure, crashed,
  rounds,
}

-- What one call of getopt gives.
pub data GpioGiven : Type 0 where
  given_output : UserOutput → List ℕ → GpioGiven
  given_serial : List ℕ → GpioGiven
  given_usage : GpioGiven

-- The table `gpio` by its pins, and the serial number where one is given.
pub record GpioOptions : Type 0 where
  pub state : UserOutput → OutputState
  pub sn : Option ℕ

unfoldable pub gpio_defaults : GpioOptions
gpio_defaults = record { state = λ pin. low; sn = none }

-- gpio[pin].state = state
unfoldable pub with_state :
    (UserOutput → OutputState) → UserOutput → OutputState → UserOutput → OutputState
with_state states output_0 state output_0 = state
with_state states output_1 state output_1 = state
with_state states output_2 state output_2 = state
with_state states output_3 state output_3 = state
with_state states pin state other = states other

-- the pins of the table, in its order
abbrev pub all_outputs : List UserOutput
all_outputs = output_0 ∷ output_1 ∷ output_2 ∷ output_3 ∷ []

module _ (api : Api) where
  open api use {lists, opens_sn, sets_output, gives, scan_serial}

  -- The body of the loop over the options: none for `goto exit_usage`.
  unfoldable pub read_gpio_option : GpioGiven → GpioOptions → Option GpioOptions
  read_gpio_option (given_output pin text) o =
      if same_text text text_on
      then some (record o { state = with_state o.state pin high })
      else if same_text text text_off
      then some (record o { state = with_state o.state pin low })
      else none
  read_gpio_option (given_serial text) o = scan_serial text >>= λ n. some (record o { sn = some n })
  read_gpio_option given_usage o = none

  unfoldable pub read_gpio_options : List GpioGiven → GpioOptions → Option GpioOptions
  read_gpio_options [] o = some o
  read_gpio_options (g ∷ given) o = read_gpio_option g o >>= read_gpio_options given

  -- The loop that opens the devices of the list: whether it comes to its end, and `dev`.
  unfoldable pub open_all :
      (serials : List ℕ) (n left : ℕ) → Option ℕ → Trace → Bool × Option ℕ × Trace
  open_all serials n zero dev t = (true, dev, t)
  open_all serials n (suc left) dev t =
      let sn = get_or serials n 0 in
      elim (opens_sn t sn) [
        | none ↦ (false, none, opened sn none ∷ t)
        | some h ↦ open_all serials (n + 1) left (some h) (opened sn (some h) ∷ t)
      ]

  -- the device or the devices that are opened
  unfoldable pub open_gpio : Option ℕ → (ndev : ℕ) → Trace → Bool × Option ℕ × Trace
  open_gpio (some sn) ndev t = elim (opens_sn t sn) [
    | none ↦ (false, none, opened sn none ∷ t)
    | some h ↦ (true, some h, opened sn (some h) ∷ t)
  ]
  open_gpio none ndev t =
      let (count, serials) = lists t (some (signed32 ndev)) in
      let t₁ = listed (some (signed32 ndev)) ∷ t in
      if gives t (ndev * 8)
      then (if ltb_ℤ (pos 0) count
          then open_all serials 0 (rounds ndev) none t₁
          else (true, none, t₁))
      else (true, none, t)

  -- The loop that sets the outputs: the device is closed at its end, and where it fails.
  unfoldable pub set_outputs :
      Option ℕ → (UserOutput → OutputState) → List UserOutput → Trace → Exit × Trace
  set_outputs dev states [] t = (exit_success, closed dev ∷ t)
  set_outputs none states (pin ∷ pins) t = (crashed, t)
  set_outputs (some h) states (pin ∷ pins) t =
      let done = sets_output t h pin (states pin) in
      let t₁ = output_set h pin (states pin) done ∷ t in
      let rest = set_outputs (some h) states pins t₁ in
      if done then rest else (exit_failure, closed (some h) ∷ t₁)

  -- `main` after the options
  unfoldable pub run_gpio : GpioOptions → Trace → Exit × Trace
  run_gpio o t =
      let ndev = pattern32 (lists t none).0 in
      let t₁ = listed none ∷ t in
      let (complete, dev, t₂) = open_gpio o.sn ndev t₁ in
      if ndev == 0
      then (exit_failure, t₁)
      else if complete
      then set_outputs dev o.state all_outputs t₂
      else (exit_failure, closed dev ∷ t₂)

  -- `main`
  unfoldable pub gpio : List GpioGiven → Exit × Trace
  gpio given = elim (read_gpio_options given gpio_defaults) [
    | none ↦ (exit_failure, [])
    | some o ↦ run_gpio o []
  ]
