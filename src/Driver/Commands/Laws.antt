-- ===== src/Driver/Commands/Laws.antt =====
-- What the single requests carry, and what they report.
use airspyhf.Prelude.{
  ℕ, ◌+◌, ◌*◌, ◌%◌, ◌/◌, ◌^◌, ◌≤◌, ◌<◌, ◌≡◌, inl, inr, Bool, true, List, [], ◌∷◌, arith, get_or,
}
use airspyhf.Prelude.Int.{pos, ltb_ℤ}
use airspyhf.Prelude.Search.{NonePasses, First, first_index-First, First-found, First-miss}
use airspyhf.Prelude.Outcome.{ok, error}
use airspyhf.Usb.{VendorRequest, control_out, control_in, Host}
use airspyhf.Driver.{World}
use airspyhf.Driver.Commands.{
  set_frontend_options, get_frontend_options, att_index, set_att, get_bias_tee_count,
}

module _ (H : Host) where
  open H use {Float, gef, of_intf}

  -- The flags that were set are the flags that are read back, whether the device has taken them or
  -- not; and the request that went out has them whole, the low half in `wValue` and the high half in
  -- `wIndex`.
  pub set_frontend_options-get :
      (flags : ℕ) (w : World H)
      → flags < 2 ^ 32
      → let v = (set_frontend_options H flags w).1 in
        (get_frontend_options H true v ≡ (ok flags, v))
        × ((value index : ℕ) × (v.log
              ≡ control_out VendorRequest.set_frontend_options value index [] ∷ w.log)
            × (value < 65536)
            × (index * 65536 + value ≡ flags))
  unfolding set_frontend_options get_frontend_options
  set_frontend_options-get flags w h =
      (ground arith, (flags % 65536, flags / 65536 % 65536, ground arith, omega arith, omega arith))

  -- the test of `airspyhf_set_att`
  abbrev pub suffices : List Float → Float → ℕ → Bool
  suffices table att i = gef (get_or table i (of_intf (pos 0))) att

  -- An index of a table of up to 2^16 steps fits its sixteen bits.
  index_fits : (test : ℕ → Bool) (n r : ℕ) → n ≤ 65536 → First test 0 0 n r → r % 65536 ≡ r
  index_fits test n r h (inl (a, b, c, d)) = omega arith
  index_fits test n r h (inr (e, d)) = rw e

  att_index-First :
      (table : List Float) (count : ℕ) (att : Float)
      → count ≤ 65536
      → First (suffices table att) 0 0 count (att_index H table count att)
  unfolding att_index
  att_index-First table count att h =
      let found = first_index-First (suffices table att) 0 0 count count (omega arith) in
      let same = index_fits (suffices table att) count _ h found in rw same found

  found-First :
      (test : ℕ → Bool) (n r k : ℕ)
      → k < n
      → test k ≡ true
      → First test 0 0 n r
      → (r ≤ k) × (test r ≡ true) × NonePasses test 0 r
  found-First test n r k below passes found =
      let (_, le, hit, before) = First-found test 0 0 n r k (omega arith) below passes found in
      (le, hit, before)

  -- The attenuator is set by one request, which carries the first step that is not below the value
  -- asked for; where every step is below it, the request carries step 0.
  set_att-first :
      (att : Float) (w : World H)
      → w.device.supported_att_step_count ≤ 65536
      → let d = w.device in
        let r = att_index H d.supported_att_steps d.supported_att_step_count att in
        ((set_att H att w).1.log ≡ control_out VendorRequest.set_att r 0 [] ∷ w.log)
        × ((k : ℕ)
            → k < d.supported_att_step_count
            → suffices d.supported_att_steps att k ≡ true
            → (r ≤ k)
              × (suffices d.supported_att_steps att r ≡ true)
              × NonePasses (suffices d.supported_att_steps att) 0 r)
        × (NonePasses (suffices d.supported_att_steps att) 0 d.supported_att_step_count → r ≡ 0)
  unfolding set_att
  set_att-first att w h =
      let d = w.device in
      let found = att_index-First d.supported_att_steps d.supported_att_step_count att h in
      (
        ground arith,
        λ k below passes. found-First _ _ _ k below passes found,
        λ none_passes. First-miss _ 0 0 _ _ none_passes found,
      )

  -- A count of bias tees is reported only if all its four bytes have come: on any smaller result, a
  -- negative one included, the status is AIRSPYHF_ERROR and the count is 0.
  pub get_bias_tee_count_short :
      (w : World H)
      → let answer = H.respond w.log (control_in VendorRequest.get_bias_tee_count 0 0 4) in
        ltb_ℤ answer.result (pos 4) ≡ true → (get_bias_tee_count H w).0 ≡ ok (error, pos 0)
  unfolding get_bias_tee_count
  get_bias_tee_count_short w h = ground arith
