-- ===== src/Tools/Info.antt =====
-- tools/src/airspyhf_info.c: the data of one receiver, or of all of them.
pub mod Left
use airspyhf.Prelude.{
  ℕ, zero, suc, ◌+◌, ◌*◌, Option, none, some, List, [], ◌∷◌, ◌==◌, get_or, if◌then◌else◌,
}
use airspyhf.Prelude.Int.{ℤ, pos, ltb_ℤ}
use airspyhf.Prelude.Words.{pattern32, signed32}
use airspyhf.Prelude.Checked.{◌>>=◌}
use airspyhf.Tools.{
  Event, listed, opened, closed, serial_read, version_read, rates_counted, rates_read, Trace, Api,
  Exit, exit_success, exit_failure,
}
use airspyhf.Tools.{rounds}

-- What one call of getopt gives.
pub data InfoGiven : Type 0 where
  given_serial : List ℕ → InfoGiven
  given_usage : InfoGiven

module _ (api : Api) where
  open api use {
    lists, opens_sn, tells_serial, tells_version, counts_rates, tells_rates, gives, scan_serial,
  }

  -- The loop over the options: none is the end with EXIT_FAILURE.
  unfoldable pub read_info_options : List InfoGiven → Option ℕ → Option (Option ℕ)
  read_info_options [] sn = some sn
  read_info_options (given_serial text ∷ given) sn =
      scan_serial text >>= λ n. read_info_options given (some n)
  read_info_options (given_usage ∷ given) sn = none

  -- the sample rates, and the end of the device; without a number of rates, neither
  unfoldable pub print_rates : ℕ → Option ℕ → Trace → Trace
  print_rates h none t = t
  print_rates h (some nsrates) t =
      closed (some h)
      ∷ (if gives t (nsrates * 4) then rates_read h nsrates (tells_rates t h nsrates) ∷ t else t)

  -- `print_receiver_data`
  unfoldable pub print_receiver_data : ℕ → Trace → Trace
  print_receiver_data h t =
      let t₁ = serial_read h (tells_serial t h) ∷ t in
      let t₂ = version_read h (tells_version t₁ h) ∷ t₁ in
      let counted = counts_rates t₂ h in print_rates h counted (rates_counted h counted ∷ t₂)

  -- the loop over the serial numbers, which ends at a device that cannot be opened
  unfoldable pub print_all : (serials : List ℕ) (n left : ℕ) → Trace → Trace
  print_all serials n zero t = t
  print_all serials n (suc left) t =
      let sn = get_or serials n 0 in
      elim (opens_sn t sn) [
        | none ↦ opened sn none ∷ t
        | some h ↦ print_all serials (n + 1) left (print_receiver_data h (opened sn (some h) ∷ t))
      ]

  unfoldable pub print_one : ℕ → Trace → Exit × Trace
  print_one sn t = elim (opens_sn t sn) [
    | none ↦ (exit_failure, opened sn none ∷ t)
    | some h ↦ (exit_success, print_receiver_data h (opened sn (some h) ∷ t))
  ]

  -- `main` after the options, with `ndev` devices
  unfoldable pub print_devices : Option ℕ → (ndev : ℕ) → Trace → Exit × Trace
  print_devices (some sn) ndev t = print_one sn t
  print_devices none ndev t =
      let (count, serials) = lists t (some (signed32 ndev)) in
      let t₁ = listed (some (signed32 ndev)) ∷ t in
      if gives t (ndev * 8)
      then (
        exit_success,
        (if ltb_ℤ (pos 0) count then print_all serials 0 (rounds ndev) t₁ else t₁),
      )
      else (exit_success, t)

  unfoldable pub run_info : Option ℕ → Trace → Exit × Trace
  run_info sn t =
      let ndev = pattern32 (lists t none).0 in
      let t₁ = listed none ∷ t in if ndev == 0 then (exit_failure, t₁) else print_devices sn ndev t₁

  -- `main`
  unfoldable pub info : List InfoGiven → Exit × Trace
  info given = elim (read_info_options given none) [
    | none ↦ (exit_failure, [])
    | some sn ↦ run_info sn []
  ]
