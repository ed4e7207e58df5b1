-- ===== src/Tools/Info/Left.antt =====
-- Which devices a run of tools/src/airspyhf_info.c leaves open.
use airspyhf.Prelude.{
  ℕ, zero, suc, ◌+◌, ◌*◌, ◌≡◌, refl, Bool-cases, Option-cases, inl, inr, Option, none, some, List,
  [], ◌∷◌, arith, ◌==◌, get_or,
}
use airspyhf.Prelude.Int.{pos, ltb_ℤ}
use airspyhf.Prelude.Words.{pattern32, signed32}
use airspyhf.Prelude.Counts.{remove_self}
use airspyhf.Tools.{listed, opened, rates_counted, Trace, Api, rounds, effect, handles}
use airspyhf.Tools.Info.{
  InfoGiven, read_info_options, print_rates, print_receiver_data, print_all, print_one,
  print_devices, run_info, info,
}

-- the devices that did not tell how many sample rates they have, the last one first
unfoldable pub unanswered : Trace → List ℕ
unanswered [] = []
unanswered (rates_counted h none ∷ t) = h ∷ unanswered t
unanswered (_ ∷ t) = unanswered t

abbrev LeavesUnanswered : Trace → Type 0
LeavesUnanswered t = handles t ≡ unanswered t

module _ (api : Api) where
  print_receiver_data-LeavesUnanswered :
      (h sn : ℕ) (t : Trace)
      → LeavesUnanswered t
      → LeavesUnanswered (print_receiver_data api h (opened sn (some h) ∷ t))
  unfolding print_receiver_data print_rates handles effect unanswered
  print_receiver_data-LeavesUnanswered h sn t e = ground (arith, remove_self h (handles t), e)

  print_all-LeavesUnanswered :
      (serials : List ℕ) (n left : ℕ) (t : Trace)
      → LeavesUnanswered t
      → LeavesUnanswered (print_all api serials n left t)
  unfolding print_all handles effect unanswered
  print_all-LeavesUnanswered serials n zero t e = e
  print_all-LeavesUnanswered serials n (suc left) t e =
      let sn = get_or serials n 0 in
      elim (Option-cases (api.opens_sn t sn)) [
        | inl refused ↦ rw (refused, print_all) e
        | inr (h, found) ↦
            rw (found, print_all)
              (print_all-LeavesUnanswered serials (n + 1) left
                (print_receiver_data api h (opened sn (some h) ∷ t))
                (print_receiver_data-LeavesUnanswered h sn t e))
      ]

  print_one-LeavesUnanswered :
      (sn : ℕ) (t : Trace) → LeavesUnanswered t → LeavesUnanswered (print_one api sn t).1
  unfolding print_one handles effect unanswered
  print_one-LeavesUnanswered sn t e = elim (Option-cases (api.opens_sn t sn)) [
    | inl refused ↦ rw (refused, print_one) e
    | inr (h, found) ↦ rw (found, print_one) (print_receiver_data-LeavesUnanswered h sn t e)
  ]

  print_devices-LeavesUnanswered :
      (sn : Option ℕ) (ndev : ℕ) (t : Trace)
      → LeavesUnanswered t
      → LeavesUnanswered (print_devices api sn ndev t).1
  unfolding print_devices handles effect unanswered
  print_devices-LeavesUnanswered (some sn) ndev t e = print_one-LeavesUnanswered sn t e
  print_devices-LeavesUnanswered none ndev t e =
      let (count, serials) = api.lists t (some (signed32 ndev)) in
      elim (Bool-cases (api.gives t (ndev * 8))) [
        | inr refused ↦ rw (refused, print_devices) e
        | inl given ↦ elim (Bool-cases (ltb_ℤ (pos 0) count)) [
          | inr empty ↦ rw (given, empty, print_devices) e
          | inl found ↦
              rw (given, found, print_devices)
                (print_all-LeavesUnanswered serials 0 (rounds ndev)
                  (listed (some (signed32 ndev)) ∷ t) e)
        ]
      ]

  run_info-LeavesUnanswered : (sn : Option ℕ) → LeavesUnanswered (run_info api sn []).1
  unfolding run_info handles effect unanswered
  run_info-LeavesUnanswered sn =
      let ndev = pattern32 (api.lists [] none).0 in
      elim (Bool-cases (ndev == 0)) [
        | inl none_there ↦ rw (none_there, run_info) refl
        | inr some_there ↦
            rw (some_there, run_info)
              (print_devices-LeavesUnanswered sn ndev (listed none ∷ []) refl)
      ]

  -- Whatever is asked for and whatever the library answers, the handles that are open at the end are those
  -- of the devices that did not tell how many sample rates they have; each other one that was opened is
  -- closed.
  pub info-handles :
      (given : List InfoGiven) → handles (info api given).1 ≡ unanswered (info api given).1
  unfolding info handles unanswered
  info-handles given = elim (Option-cases (read_info_options api given none)) [
    | inl bad ↦ rw (bad, info) refl
    | inr (sn, read) ↦ rw (read, info) (run_info-LeavesUnanswered sn)
  ]
