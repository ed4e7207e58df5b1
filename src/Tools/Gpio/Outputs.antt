-- ===== src/Tools/Gpio/Outputs.antt =====
-- What a run of tools/src/airspyhf_gpio.c that succeeds has done.
use airspyhf.Prelude.{
  ℕ, zero, suc, ◌+◌, ◌*◌, ◌≡◌, refl, ap, sym, ◌∙◌, Bool, true, false, Bool-cases, Option-cases, inl,
  inr, Option, none, some, List, [], ◌∷◌, length, ◌==◌, get_or, if◌then◌else◌,
}
use airspyhf.Prelude.Int.{pos, ltb_ℤ}
use mathlib.Core.Path.{subst}
use airspyhf.Prelude.Words.{pattern32, signed32}
use airspyhf.Prelude.Counts.{remove_self}
use airspyhf.Driver.Commands.{UserOutput, output_0, output_1, output_2, output_3, OutputState}
use airspyhf.Tools.{
  listed, opened, closed, output_set, Trace, Api, Exit, exit_success, exit_failure, crashed, rounds,
  effect, handles,
}
use airspyhf.Tools.Gpio.{
  GpioGiven, GpioOptions, read_gpio_options, gpio_defaults, open_all, open_gpio, set_outputs,
  all_outputs, run_gpio, gpio,
}

-- how many devices were opened
unfoldable pub opens : Trace → ℕ
opens [] = 0
opens (opened sn (some h) ∷ t) = suc (opens t)
opens (_ ∷ t) = opens t

is_success : Exit → Bool
is_success exit_success = true
is_success exit_failure = false
is_success crashed = false

refused-exit : {t v : Trace} → ◌≡◌ {A = Exit × Trace} (exit_failure, t) (exit_success, v) → ⊥
unfolding is_success
refused-exit e = cc

crashed-exit : {t v : Trace} → ◌≡◌ {A = Exit × Trace} (crashed, t) (exit_success, v) → ⊥
unfolding is_success
crashed-exit e = cc

-- A device that is ready is the one that was opened last, and none was closed before.
abbrev IsReady : Bool × Option ℕ × Trace → Type 0
IsReady (true, some h, t) =
    (sn : ℕ) × (u : Trace) × (t ≡ opened sn (some h) ∷ u) × (length (handles u) ≡ opens u)
IsReady (complete, dev, t) = Unit {0}

-- the calls of a run that sets all outputs
abbrev all_set : ℕ → (UserOutput → OutputState) → Trace → Trace
all_set h states t =
    closed (some h)
    ∷ output_set h output_3 (states output_3) true
    ∷ output_set h output_2 (states output_2) true
    ∷ output_set h output_1 (states output_1) true
    ∷ output_set h output_0 (states output_0) true
    ∷ t

-- All outputs of the device that was opened last are set, and then that device is closed; none was
-- closed before.
abbrev pub HasSet : (UserOutput → OutputState) → Trace → Type 0
HasSet states v =
    (h : ℕ) × (sn : ℕ) × (u : Trace) × (v ≡ all_set h states (opened sn (some h) ∷ u))
    × (length (handles u) ≡ opens u)

module _ (api : Api) where
  open_all-IsReady :
      (serials : List ℕ) (n left : ℕ) (dev : Option ℕ) (t : Trace)
      → IsReady (true, dev, t)
      → length (handles t) ≡ opens t
      → IsReady (open_all api serials n left dev t)
  unfolding open_all handles effect opens
  open_all-IsReady serials n zero dev t ready unclosed = ready
  open_all-IsReady serials n (suc left) dev t ready unclosed =
      let sn = get_or serials n 0 in
      elim (Option-cases (api.opens_sn t sn)) [
        | inl e ↦
            let step : open_all api serials n (suc left) dev t ≡ (false, none, opened sn none ∷ t) =
              rw (e, open_all) refl in
            subst IsReady (sym step) tt
        | inr (h, e) ↦
            let t₁ = opened sn (some h) ∷ t in
            let step : open_all api serials n (suc left) dev t
                ≡ open_all api serials (n + 1) left (some h) t₁ =
              rw (e, open_all) refl in
            subst IsReady (sym step) (
              open_all-IsReady serials (n + 1) left (some h) t₁ (sn, t, refl, unclosed)
                (ap suc unclosed))
      ]

  open_gpio-IsReady :
      (sn : Option ℕ) (ndev : ℕ) (t : Trace)
      → length (handles t) ≡ opens t
      → IsReady (open_gpio api sn ndev t)
  unfolding open_gpio handles effect opens
  open_gpio-IsReady (some sn) ndev t unclosed = elim (Option-cases (api.opens_sn t sn)) [
    | inl e ↦
        let step : open_gpio api (some sn) ndev t ≡ (false, none, opened sn none ∷ t) =
          rw (e, open_gpio) refl in
        subst IsReady (sym step) tt
    | inr (h, e) ↦
        let step : open_gpio api (some sn) ndev t ≡ (true, some h, opened sn (some h) ∷ t) =
          rw (e, open_gpio) refl in
        subst IsReady (sym step) (sn, t, refl, unclosed)
  ]
  open_gpio-IsReady none ndev t unclosed =
      let (count, serials) = api.lists t (some (signed32 ndev)) in
      elim (Bool-cases (api.gives t (ndev * 8))) [
        | inr refused ↦ rw (refused, IsReady) tt
        | inl given ↦ elim (Bool-cases (ltb_ℤ (pos 0) count)) [
          | inr empty ↦ rw (given, empty, IsReady) tt
          | inl found ↦
              rw (given, found, IsReady)
                (open_all-IsReady serials 0 (rounds ndev) none (listed (some (signed32 ndev)) ∷ t)
                  tt unclosed)
        ]
      ]

  set_next :
      (h : ℕ) (states : UserOutput → OutputState) (pin : UserOutput) (pins : List UserOutput)
      (t v : Trace)
      → set_outputs api (some h) states (pin ∷ pins) t ≡ (exit_success, v)
      → set_outputs api (some h) states pins (output_set h pin (states pin) true ∷ t)
        ≡ (exit_success, v)
  unfolding set_outputs
  set_next h states pin pins t v e = elim (Bool-cases (api.sets_output t h pin (states pin))) [
    | inl done ↦ rw done at e
    | inr refused ↦ absurd (refused-exit (rw refused at e))
  ]

  set_outputs-all_set :
      (h : ℕ) (states : UserOutput → OutputState) (t v : Trace)
      → set_outputs api (some h) states all_outputs t ≡ (exit_success, v)
      → v ≡ all_set h states t
  unfolding set_outputs
  set_outputs-all_set h states t v e =
      let e₁ = set_next h states output_0 (output_1 ∷ output_2 ∷ output_3 ∷ []) t v e in
      let t₁ = output_set h output_0 (states output_0) true ∷ t in
      let e₂ = set_next h states output_1 (output_2 ∷ output_3 ∷ []) t₁ v e₁ in
      let t₂ = output_set h output_1 (states output_1) true ∷ t₁ in
      let e₃ = set_next h states output_2 (output_3 ∷ []) t₂ v e₂ in
      let t₃ = output_set h output_2 (states output_2) true ∷ t₂ in
      sym (ap (λ r. r.1) (set_next h states output_3 [] t₃ v e₃))

  -- the end of `main`
  abbrev ended : (UserOutput → OutputState) → Bool × Option ℕ × Trace → Exit × Trace
  ended states (complete, dev, t) =
      if complete then set_outputs api dev states all_outputs t else (exit_failure, closed dev ∷ t)

  ended-HasSet :
      (states : UserOutput → OutputState) (r : Bool × Option ℕ × Trace) (v : Trace)
      → IsReady r
      → ended states r ≡ (exit_success, v)
      → HasSet states v
  unfolding set_outputs
  ended-HasSet states (false, dev, t) v ready e = absurd (refused-exit e)
  ended-HasSet states (true, none, t) v ready e = absurd (crashed-exit e)
  ended-HasSet states (true, some h, t) v (sn, u, at, unclosed) e =
      (h, sn, u, set_outputs-all_set h states t v e ∙ ap (all_set h states) at, unclosed)

  run_gpio-HasSet :
      (o : GpioOptions) (v : Trace) → run_gpio api o [] ≡ (exit_success, v) → HasSet o.state v
  unfolding run_gpio handles effect opens
  run_gpio-HasSet o v e =
      let ndev = pattern32 (api.lists [] none).0 in
      let t = listed none ∷ [] in
      elim (Bool-cases (ndev == 0)) [
        | inl none_there ↦ absurd (refused-exit (rw none_there at e))
        | inr some_there ↦
            ended-HasSet o.state (open_gpio api o.sn ndev t) v (open_gpio-IsReady o.sn ndev t refl)
              (rw some_there at e)
      ]

  HasSet-opens :
      (states : UserOutput → OutputState) (v : Trace)
      → HasSet states v
      → opens v ≡ suc (length (handles v))
  unfolding handles effect opens
  HasSet-opens states v (h, sn, u, at, unclosed) =
      rw (at, remove_self h (handles u)) (ap suc (sym unclosed))

  -- If the tool succeeds, its last calls set the four outputs, in their order and each with success,
  -- of the device that was opened last to the states that the options ask for, and then closed that device;
  -- all other devices that it has opened stay open.
  pub gpio-HasSet :
      (given : List GpioGiven) (v : Trace)
      → gpio api given ≡ (exit_success, v)
      → (o : GpioOptions) × (read_gpio_options api given gpio_defaults ≡ some o)
        × HasSet o.state v
        × (opens v ≡ suc (length (handles v)))
  unfolding gpio
  gpio-HasSet given v e = elim (Option-cases (read_gpio_options api given gpio_defaults)) [
    | inl bad ↦ absurd (refused-exit (rw (bad, gpio) at e))
    | inr (o, read) ↦
        let sets = run_gpio-HasSet o v (rw (read, gpio) at e) in
        (o, read, sets, HasSet-opens o.state v sets)
  ]
