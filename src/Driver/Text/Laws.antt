-- ===== src/Driver/Text/Laws.antt =====
-- Which texts come back, and how far the copy of them reads.
use airspyhf.Prelude.{
  ℕ, zero, suc, ◌-◌, ◌≤◌, ◌<◌, ◌≡◌, inl, inr, false, List, [], ◌∷◌, ◌++◌, arith, ltb, ◌==◌, length,
  get_or, take, drop, length-take, length-append, length-drop, Bool-cases,
}
use airspyhf.Prelude.Int.{ℤ, pos}
use airspyhf.Prelude.Words.{to_u16}
use airspyhf.Prelude.Outcome.{ok, fault}
use airspyhf.Usb.{VendorRequest, Call, control_in, Host}
use airspyhf.Driver.{World}
use airspyhf.Driver.Text.{
  max_name_string_size, filled, copy_text, version_string_read, get_bias_tee_name,
}

-- The local buffer keeps its size.
pub length-filled :
    (size : ℕ) (payload stale : List ℕ)
    → length stale ≡ size
    → length payload ≤ size
    → length (filled size payload stale) ≡ size
unfolding filled
length-filled size payload stale hs hp = omega (
  arith,
  length-take size (payload ++ drop (length payload) stale),
  length-append payload (drop (length payload) stale),
  length-drop (length payload) stale,
)

last_byte : (xs : List ℕ) (n : ℕ) → length xs ≡ n → get_or (xs ++ (0 ∷ [])) n 1 ≡ 0
last_byte [] n e = let zero_length : n ≡ 0 = omega arith in rw zero_length
last_byte (x ∷ xs) zero e = absurd (omega arith)
last_byte (x ∷ xs) (suc n) e = last_byte xs n (omega arith)

le_of_not_ltb : (a b : ℕ) → ltb a b ≡ false → b ≤ a
le_of_not_ltb a b h = ground arith

pos_of_ne : (n : ℕ) → (n == 0) ≡ false → 0 < n
pos_of_ne n h = ground arith

-- A copy of at most 64 bytes, of which the last is the end of the text.
copy_text-lem :
    (buf : List ℕ) (len : ℕ) {text : List ℕ}
    → copy_text buf len ≡ ok text
    → (length text ≡ len) × (get_or text (len - 1) 1 ≡ 0) × (0 < len) × (len - 1 ≤ length buf)
unfolding copy_text
copy_text-lem buf len {text} e = elim (Bool-cases (len == 0)) [
  | inl none_wanted ↦ cc (rw none_wanted at e)
  | inr wanted ↦ elim (Bool-cases (ltb (length buf) (len - 1))) [
    | inl over ↦ cc (rw (wanted, over) at e)
    | inr within ↦
        let copied : take (len - 1) buf ++ (0 ∷ []) ≡ text = ground arith in
        let taken : length (take (len - 1) buf) ≡ len - 1 =
          omega (arith, length-take (len - 1) buf, le_of_not_ltb _ _ within) in
        rw (← copied) (
          omega (arith, length-append (take (len - 1) buf) (0 ∷ []), pos_of_ne _ wanted),
          last_byte (take (len - 1) buf) (len - 1) taken,
          pos_of_ne _ wanted,
          le_of_not_ltb _ _ within,
        )
  ]
]

module _ (H : Host) where
  abbrev pub version_call : Call
  version_call = control_in VendorRequest.get_version_string 0 0 (max_name_string_size - 1)

  -- A version text that is reported has the length that the caller asked for, ends in 0, and was
  -- copied from inside the local buffer of 64 bytes, if libusb has put no more than 63 bytes there.
  pub version_string_read-text :
      (stale : List ℕ) (len : ℕ) (w v : World H) {text : List ℕ}
      → length stale ≡ 64
      → length (H.respond w.log version_call).payload ≤ 63
      → version_string_read H stale len w ≡ (ok text, v)
      → (length text ≡ len) × (get_or text (len - 1) 1 ≡ 0) × (0 < len) × (len ≤ 65)
  unfolding version_string_read
  version_string_read-text stale len w v {text} hs hp e =
      let buf = filled 64 (H.respond w.log version_call).payload stale in
      let copied : copy_text buf len ≡ ok text = ground arith in
      let (a, b, c, d) = copy_text-lem buf len copied in
      (
        a,
        b,
        c,
        omega
            (arith, length-filled 64 (H.respond w.log version_call).payload stale hs (omega arith)),
      )

  -- With room for more than 65 characters, a version that the device reports is copied from beyond
  -- the end of the local buffer, whatever the device has sent.
  pub version_string_read_overrun :
      (stale : List ℕ) (len n : ℕ) (w : World H)
      → length stale ≡ 64
      → length (H.respond w.log version_call).payload ≤ 63
      → (H.respond w.log version_call).result ≡ pos n
      → 65 < len
      → (version_string_read H stale len w).0 ≡ fault
  unfolding version_string_read copy_text
  version_string_read_overrun stale len n w hs hp answered long =
      ground (arith, length-filled 64 (H.respond w.log version_call).payload stale)

  -- The name of a bias tee is read in the same way: with room for 1 to 65 characters it is reported
  -- whenever the device answers, and with room for more the copy leaves the local buffer.
  pub get_bias_tee_name_bounds :
      (stale : List ℕ) (index : ℤ) (len n : ℕ) (w : World H)
      → length stale ≡ 64
      → let answer = H.respond w.log (
          control_in VendorRequest.get_bias_tee_name 0 (to_u16 index) (max_name_string_size - 1)) in
        length answer.payload ≤ 63
        → answer.result ≡ pos n
        → (0 < len
            → len ≤ 65
            → (get_bias_tee_name H stale index len w).0
              ≡ ok (take (len - 1) (filled 64 answer.payload stale) ++ (0 ∷ [])))
          × (65 < len → (get_bias_tee_name H stale index len w).0 ≡ fault)
  unfolding get_bias_tee_name copy_text
  get_bias_tee_name_bounds stale index len n w hs hp answered =
      let answer =
        H.respond w.log (
          control_in VendorRequest.get_bias_tee_name 0 (to_u16 index) (max_name_string_size - 1)) in
      (
        λ some_room short. ground (arith, length-filled 64 answer.payload stale),
        λ long. ground (arith, length-filled 64 answer.payload stale),
      )
