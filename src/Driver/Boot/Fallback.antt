-- ===== src/Driver/Boot/Fallback.antt =====
-- What an opened device has when the firmware does not tell, or tells too much.
use airspyhf.Prelude.{
  ℕ, arith, get_elem?, none, some, Option-cases, ◌*◌, ◌<◌, ◌≡◌, refl, sym, Option, ◌∙◌, ◌⊎◌, inl,
  inr, true, false, List, [], ◌∷◌, length, length-map, ltb, replicate, length-replicate, Bool-cases,
}
use mathlib.Core.Logic.{◌↔◌}
use airspyhf.Prelude.Int.{pos, ltb_ℤ}
use airspyhf.Prelude.Words.{to_u16}
use airspyhf.Prelude.Outcome.{Outcome, ok, fault, and_then}
use airspyhf.Floats.{Floats}
use airspyhf.Usb.{VendorRequest, Call, Response, Host, control_in}
use airspyhf.Driver.{Device, World}
use airspyhf.Driver.Boot.{
  first_word, table_bytes, le_words, read_from_fw, default_samplerates, enter_architectures,
  enter_samplerates, enter_count, choose_first, load_samplerates, default_att_steps,
  enter_att_steps, enter_att_count, load_att_steps, att_steps_from, block,
}
use airspyhf.Driver.Boot.Laws.{length-le_words, IsTabled, length-filled-block}
use airspyhf.Driver.Text.{filled}

-- the request for a number of elements, and for that many elements
abbrev pub count_call : VendorRequest → Call
count_call r = control_in r 0 0 4

abbrev pub table_call : VendorRequest → ℕ → Call
table_call r n = control_in r 0 (to_u16 (pos n)) (table_bytes n)

module _ {F : Floats} where
  -- one default rate, with Zero IF
  abbrev HasDefaultRate : Device F → Type 0
  HasDefaultRate d =
      (d.supported_samplerate_count ≡ 1)
      × (d.supported_samplerates ≡ 768000 ∷ [])
      × (d.samplerate_architectures ≡ 0 ∷ [])
      × (d.current_samplerate ≡ 768000)
      × (d.is_low_if ≡ 0)

module _ (H : Host) where
  -- what a call answers after others
  abbrev pub answer_to : List Call → Call → Response
  answer_to log c = H.respond log c

  abbrev pub IsRefused : Response → Type 0
  IsRefused r = ltb_ℤ r.result (pos 1) ≡ true

  abbrev pub IsAnswered : Response → Type 0
  IsAnswered r = ltb_ℤ r.result (pos 1) ≡ false

  -- If the device does not answer the request for the number of sample rates, or answers that and
  -- not the request for the rates, the device has the one rate of 768000 in Zero IF.
  load_samplerates-HasDefaultRate :
      (stale_rates stale : List ℕ) (w : World H)
      → IsRefused (answer_to w.log (count_call VendorRequest.get_samplerates))
        ⊎ IsRefused (
            answer_to (count_call VendorRequest.get_samplerates ∷ w.log) (
              table_call VendorRequest.get_samplerates
                (first_word (answer_to w.log (count_call VendorRequest.get_samplerates)).payload)))
      → ((load_samplerates H stale_rates stale w).0 ≡ ok tt)
        × HasDefaultRate (load_samplerates H stale_rates stale w).1.device
  unfolding load_samplerates read_from_fw table_bytes enter_count enter_samplerates
      default_samplerates choose_first
  load_samplerates-HasDefaultRate stale_rates stale w (inl refused) =
      rw refused (refl, (refl, refl, refl, refl, refl))
  load_samplerates-HasDefaultRate stale_rates stale w (inr refused) =
      elim (Bool-cases
        (ltb_ℤ (answer_to w.log (count_call VendorRequest.get_samplerates)).result (pos 1))) [
          | inl unknown ↦ rw unknown (refl, (refl, refl, refl, refl, refl))
          | inr known ↦ rw (known, refused) (refl, (refl, refl, refl, refl, refl))
        ]

  -- the answers on which the tables of rates depend
  abbrev pub told : World H → Response
  told w = answer_to w.log (count_call VendorRequest.get_samplerates)

  abbrev pub told_count : World H → ℕ
  told_count w = first_word (told w).payload

  abbrev pub told_rates : World H → Response
  told_rates w =
      answer_to (count_call VendorRequest.get_samplerates ∷ w.log)
        (table_call VendorRequest.get_samplerates (told_count w))

  abbrev pub told_architectures : World H → Response
  told_architectures w =
      answer_to
        (table_call VendorRequest.get_samplerates (told_count w)
          ∷ count_call VendorRequest.get_samplerates
          ∷ w.log)
        (table_call VendorRequest.get_samplerate_architectures (told_count w))

  -- A number of rates is told, and the rates are, and the number is 0, or the architectures have more bytes.
  abbrev pub IsUnsafe : World H → Type 0
  IsUnsafe w =
      IsAnswered (told w)
      × IsAnswered (told_rates w)
      × ((told_count w ≡ 0)
          ⊎ (IsAnswered (told_architectures w)
              × (told_count w < length (told_architectures w).payload)))

  empty_at : {A : Type 0} (xs : List A) → get_elem? xs 0 ≡ none → length xs ≡ 0
  empty_at [] e = refl
  empty_at (x ∷ xs) e = ground arith

  has_at : {A : Type 0} {x : A} (xs : List A) → get_elem? xs 0 ≡ some x → 0 < length xs
  has_at [] e = ground arith
  has_at (x ∷ xs) e = omega arith

  true-false : true ≡ false → ⊥
  true-false e = cc

  ok-fault : ◌≡◌ {A = Outcome (Unit {0})} (ok tt) fault → ⊥
  ok-fault e = cc

  IsLonger : ℕ → Option (List ℕ) → Type 0
  IsLonger count none = ⊥
  IsLonger count (some bytes) = count < length bytes

  not_longer :
      (count : ℕ) (bytes : List ℕ) → ltb count (length bytes) ≡ false → count < length bytes → ⊥
  not_longer count bytes fits l = ground arith

  choose_first-fault :
      (w : World H)
      → IsTabled w.device
      → ((choose_first H w).0 ≡ fault) ↔ (w.device.supported_samplerate_count ≡ 0)
  unfolding choose_first
  choose_first-fault w (rates, architectures) =
      elim (Option-cases (get_elem? w.device.supported_samplerates 0)) [
        | inl none_told ↦
            let empty = empty_at w.device.supported_samplerates none_told in
            rw (none_told, choose_first) (λ _. sym rates ∙ empty, λ _. refl)
        | inr (rate, first) ↦ elim (Option-cases (get_elem? w.device.samplerate_architectures 0)) [
          | inl none_told ↦
              let empty = empty_at w.device.samplerate_architectures none_told in
              rw (first, none_told, choose_first) (λ _. sym architectures ∙ empty, λ _. refl)
          | inr (low_if, second) ↦
              let some_told = has_at w.device.supported_samplerates first in
              rw (first, second, choose_first) (λ e. absurd (ok-fault e), λ e. absurd (omega arith))
        ]
      ]

  -- the rest, once number and rates are there
  enter_and_choose-fault :
      (count : ℕ) (stale : List ℕ) (bytes : Option (List ℕ)) (w : World H)
      → length w.device.supported_samplerates ≡ count
      → w.device.supported_samplerate_count ≡ count
      → ((and_then (enter_architectures H count stale bytes w) (λ _. choose_first H)).0 ≡ fault)
        ↔ ((count ≡ 0) ⊎ IsLonger count bytes)
  unfolding enter_architectures IsLonger
  enter_and_choose-fault count stale none w rates counted =
      let u = record w {
        device = record w.device { samplerate_architectures = replicate count 0 };
      } in
      let (a, b) =
        choose_first-fault u
          (rates ∙ sym counted, length-replicate {A = ℕ} count 0 ∙ sym counted) in
      (λ e. inl (sym counted ∙ a e), λ s. b (counted ∙ elim s [ inl z ↦ z | inr l ↦ absurd l ]))
  enter_and_choose-fault count stale (some bytes) w rates counted =
      elim (Bool-cases (ltb count (length bytes))) [
        | inl longer ↦ rw longer (λ e. inr (ground (arith, longer)), λ s. refl)
        | inr fits ↦
            let made = block count stale in
            let u = record w {
              device = record w.device { samplerate_architectures = filled count bytes made };
            } in
            let (a, b) =
              choose_first-fault u
                (rates ∙ sym counted, length-filled-block count bytes stale fits ∙ sym counted) in
            rw fits (
              λ e. inl (sym counted ∙ a e),
              λ s.
                  b (
                    counted
                    ∙ elim s [ inl z ↦ z | inr l ↦ absurd (not_longer count bytes fits l) ]),
            )
      ]

  -- The loading of the tables leaves what C defines exactly where the firmware tells a number of rates, and
  -- the rates, and then the number is 0, or the architectures have more bytes than that number.
  pub load_samplerates-fault :
      (stale_rates stale : List ℕ) (w : World H)
      → ((load_samplerates H stale_rates stale w).0 ≡ fault) ↔ IsUnsafe w
  unfolding load_samplerates read_from_fw table_bytes enter_count enter_samplerates
      default_samplerates choose_first IsLonger
  load_samplerates-fault stale_rates stale w =
      let n = told_count w in
      let u = record w {
        device = record w.device {
          supported_samplerate_count = n;
          supported_samplerates =
              le_words n (filled (n * 4) (told_rates w).payload (block (n * 4) stale_rates));
        };
        log =
            table_call VendorRequest.get_samplerate_architectures n
            ∷ table_call VendorRequest.get_samplerates n
            ∷ count_call VendorRequest.get_samplerates
            ∷ w.log;
      } in
      elim (Bool-cases (ltb_ℤ (told w).result (pos 1))) [
        | inl refused ↦ rw refused (λ e. absurd (ok-fault e), λ h. absurd (true-false h.0))
        | inr known ↦ elim (Bool-cases (ltb_ℤ (told_rates w).result (pos 1))) [
          | inl unread ↦ rw (known, unread) (λ e. absurd (ok-fault e), λ h. absurd (true-false h.1))
          | inr read ↦ elim (Bool-cases (ltb_ℤ (told_architectures w).result (pos 1))) [
            | inl silent ↦
                let (a, b) = enter_and_choose-fault n stale none u (length-le_words n _) refl in
                rw (known, read, silent)
                  (
                    λ e. (refl, refl, elim (a e) [ inl z ↦ inl z | inr l ↦ absurd l ]),
                    λ h. b (elim h.2 [ inl z ↦ inl z | inr l ↦ absurd (true-false l.0) ]),
                  )
            | inr heard ↦
                let bytes = (told_architectures w).payload in
                let (a, b) =
                  enter_and_choose-fault n stale (some bytes) u (length-le_words n _) refl in
                rw (known, read, heard)
                  (
                    λ e. (refl, refl, elim (a e) [ inl z ↦ inl z | inr l ↦ inr (refl, l) ]),
                    λ h. b (elim h.2 [ inl z ↦ inl z | inr l ↦ inr l.1 ]),
                  )
          ]
        ]
      ]

  -- The attenuator steps are entered whatever the firmware answers, and there are as many as are
  -- counted.
  pub load_att_steps-length :
      (stale : List ℕ) (w : World H)
      → ((load_att_steps H stale w).0 ≡ ok tt)
        × (length (load_att_steps H stale w).1.device.supported_att_steps
            ≡ (load_att_steps H stale w).1.device.supported_att_step_count)
  unfolding load_att_steps read_from_fw table_bytes enter_att_count enter_att_steps
      default_att_steps att_steps_from
  load_att_steps-length stale w =
      let first = answer_to w.log (count_call VendorRequest.get_att_steps) in
      let n = first_word first.payload in
      let second =
        answer_to (count_call VendorRequest.get_att_steps ∷ w.log)
          (table_call VendorRequest.get_att_steps n) in
      elim (Bool-cases (ltb_ℤ first.result (pos 1))) [
        | inl unknown ↦ rw unknown (refl, refl)
        | inr known ↦ elim (Bool-cases (ltb_ℤ second.result (pos 1))) [
          | inl unread ↦ rw (known, unread) (refl, refl)
          | inr read ↦
              let bytes = filled (n * 4) second.payload (block (n * 4) stale) in
              rw (known, read)
                (refl, length-map (le_words n bytes) H.of_bits ∙ length-le_words n bytes)
        ]
      ]
