-- ===== src/Driver/Boot/Laws.antt =====
-- The tables that an opened device has.
use airspyhf.Prelude.{
  ℕ, zero, suc, ◌<◌, ◌≡◌, refl, ap, false, Option, none, some, List, [], ◌∷◌, arith, ltb, length,
  get_elem?, ◌++◌, drop, length-take, length-drop, length-append, replicate, length-replicate,
}
use airspyhf.Prelude.Outcome.{ok, and_then-eq-ok}
use airspyhf.Floats.{Floats}
use airspyhf.Usb.{VendorRequest, Host}
use airspyhf.Driver.{Device, World}
use airspyhf.Driver.Boot.{
  le_words, first_word, read_from_fw, default_samplerates, enter_architectures, enter_samplerates,
  enter_count, choose_first, load_samplerates, block,
}
use airspyhf.Driver.Text.{filled}
use airspyhf.Driver.Text.Laws.{length-filled}

pub length-le_words : (n : ℕ) (bytes : List ℕ) → length (le_words n bytes) ≡ n
unfolding le_words
length-le_words zero [] = refl
length-le_words zero (a ∷ bytes) = refl
length-le_words (suc n) [] = ap suc (length-le_words n [])
length-le_words (suc n) (a ∷ []) = ap suc (length-le_words n [])
length-le_words (suc n) (a ∷ b ∷ []) = ap suc (length-le_words n [])
length-le_words (suc n) (a ∷ b ∷ c ∷ []) = ap suc (length-le_words n [])
length-le_words (suc n) (a ∷ b ∷ c ∷ d ∷ bytes) = ap suc (length-le_words n bytes)

length-any_filled :
    (size : ℕ) (stale : List ℕ) → length (filled size stale (replicate {A = ℕ} size 0)) ≡ size
unfolding filled
length-any_filled size stale = omega (
  arith,
  length-take size (stale ++ drop (length stale) (replicate {A = ℕ} size 0)),
  length-append stale (drop (length stale) (replicate {A = ℕ} size 0)),
  length-drop (length stale) (replicate {A = ℕ} size 0),
  length-replicate {A = ℕ} size 0,
)

length-filled_short :
    (size : ℕ) (bytes stale : List ℕ)
    → length stale ≡ size
    → ltb size (length bytes) ≡ false
    → length (filled size bytes stale) ≡ size
length-filled_short size bytes stale l h = length-filled size bytes stale l (ground arith)

pub length-filled-block :
    (count : ℕ) (bytes stale : List ℕ)
    → ltb count (length bytes) ≡ false
    → length (filled count bytes (block count stale)) ≡ count
unfolding block
length-filled-block count bytes stale fits =
    length-filled_short count bytes (filled count stale (replicate {A = ℕ} count 0))
      (length-any_filled count stale) fits

module _ {F : Floats} where
  -- There are as many rates and architectures as are counted.
  abbrev pub IsTabled : Device F → Type 0
  IsTabled d =
      (length d.supported_samplerates ≡ d.supported_samplerate_count)
      × (length d.samplerate_architectures ≡ d.supported_samplerate_count)

  -- The current rate is the first one.
  abbrev pub IsFirstRate : Device F → Type 0
  IsFirstRate d =
      (get_elem? d.supported_samplerates 0 ≡ some d.current_samplerate)
      × (get_elem? d.samplerate_architectures 0 ≡ some d.is_low_if)

module _ {H : Host} where
  enter_architectures-IsTabled :
      (count : ℕ) (stale : List ℕ) (bytes : Option (List ℕ)) (w v : World H)
      → length w.device.supported_samplerates ≡ count
      → w.device.supported_samplerate_count ≡ count
      → enter_architectures H count stale bytes w ≡ (ok tt, v)
      → IsTabled v.device
  unfolding enter_architectures block
  enter_architectures-IsTabled count stale none w v a b e =
      ground (arith, length-replicate {A = ℕ} count 0)
  enter_architectures-IsTabled count stale (some bytes) w v a b e =
      let made = filled count stale (replicate count 0) in
      ground (arith, length-any_filled count stale, length-filled_short count bytes made)

  enter_samplerates-IsTabled :
      (count : ℕ) (stale_rates stale : List ℕ) (bytes : Option (List ℕ)) (w v : World H)
      → w.device.supported_samplerate_count ≡ count
      → enter_samplerates H count stale_rates stale bytes w ≡ (ok tt, v)
      → IsTabled v.device
  unfolding enter_samplerates default_samplerates read_from_fw
  enter_samplerates-IsTabled count stale_rates stale none w v b e = ground arith
  enter_samplerates-IsTabled count stale_rates stale (some bytes) w v b e =
      enter_architectures-IsTabled count stale _ _ v (length-le_words count _) b e

  enter_count-IsTabled :
      (stale_rates stale : List ℕ) (bytes : Option (List ℕ)) (w v : World H)
      → enter_count H stale_rates stale bytes w ≡ (ok tt, v)
      → IsTabled v.device
  unfolding enter_count default_samplerates read_from_fw
  enter_count-IsTabled stale_rates stale none w v e = ground arith
  enter_count-IsTabled stale_rates stale (some bytes) w v e =
      enter_samplerates-IsTabled (first_word bytes) stale_rates stale _ _ v refl e

  choose_first-IsFirstRate :
      (w v : World H)
      → choose_first H w ≡ (ok tt, v)
      → IsTabled w.device
      → IsTabled v.device × IsFirstRate v.device
  unfolding choose_first
  choose_first-IsFirstRate w v e h = ground arith

  -- When the tables are loaded, there are as many rates and architectures as are counted, at least
  -- one, and the current rate and architecture are the first ones.
  pub load_samplerates-IsFirstRate :
      (stale_rates stale : List ℕ) (w v : World H)
      → load_samplerates H stale_rates stale w ≡ (ok tt, v)
      → IsTabled v.device × IsFirstRate v.device × (0 < v.device.supported_samplerate_count)
  unfolding load_samplerates
  load_samplerates-IsFirstRate stale_rates stale w v e =
      let (_, w₁, e₁, k₁) = and_then-eq-ok (read_from_fw H VendorRequest.get_samplerates 0 w) _ e in
      let (_, w₂, e₂, k₂) = and_then-eq-ok (enter_count H stale_rates stale _ w₁) _ k₁ in
      let tabled = enter_count-IsTabled stale_rates stale _ w₁ w₂ e₂ in
      let (tables, first) = choose_first-IsFirstRate w₂ v k₂ tabled in
      (tables, first, has_element v.device.supported_samplerates first.0 (tables.0))
    where
      has_element : {n x : ℕ} (xs : List ℕ) → get_elem? xs 0 ≡ some x → length xs ≡ n → 0 < n
      has_element [] h l = cc
      has_element (x ∷ xs) h l = omega arith
