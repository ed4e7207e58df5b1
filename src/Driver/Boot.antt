-- ===== src/Driver/Boot.antt =====
-- What `airspyhf_open_init` of libairspyhf/src/airspyhf.c reads from an open device: the tables of
-- sample rates, their architectures and attenuator steps. `stale` arguments are what `malloc` leaves
-- in a block, continued by zeros; that it has a block to give is taken for granted.
pub mod Laws
pub mod Fallback
use airspyhf.Prelude.{
  ℕ, zero, suc, ◌*◌, Bool, true, false, Option, none, some, List, [], ◌∷◌, ltb, length, get_or,
  get_elem?, replicate, map, if◌then◌else◌,
}
use airspyhf.Prelude.Int.{ℤ, pos, negsuc, ltb_ℤ}
use airspyhf.Prelude.Words.{le_word, to_u16}
use airspyhf.Prelude.Outcome.{Outcome, ok, fail, fault, ◌>>=◌, ◌>>◌, pure}
use airspyhf.Usb.{VendorRequest, Host, control_in}
use airspyhf.Driver.{Device, World, Act, ask, device, update}
use airspyhf.Driver.Text.{filled}

-- DEFAULT_SAMPLERATE and DEFAULT_ATT_STEP_COUNT
abbrev pub default_samplerate : ℕ
default_samplerate = 768000

abbrev pub default_att_step_count : ℕ
default_att_step_count = 9

-- The first `n` words of an array in the host's memory.
unfoldable pub le_words : ℕ → List ℕ → List ℕ
le_words (suc n) (a ∷ b ∷ c ∷ d ∷ bytes) = le_word a b c d ∷ le_words n bytes
le_words (suc n) bytes = 0 ∷ le_words n []
le_words zero bytes = []

unfoldable pub first_word : List ℕ → ℕ
first_word bytes =
    le_word (get_or bytes 0 0) (get_or bytes 1 0) (get_or bytes 2 0) (get_or bytes 3 0)

-- A block of `size` bytes that `malloc` gives.
unfoldable pub block : ℕ → List ℕ → List ℕ
block size stale = filled size stale (replicate size 0)

-- `wLength`: the bytes of `len` elements of four bytes, or of one element for a count
unfoldable pub table_bytes : ℕ → ℕ
table_bytes len = to_u16 (pos ((if ltb 0 len then len else 1) * 4))

module _ (H : Host) where
  open H use {Float, of_bits, of_intf, litf, mulf}

  -- `airspyhf_read_samplerates_from_fw` and its two likes: the bytes, if there are any
  unfoldable pub read_from_fw : VendorRequest → ℕ → Act H (Option (List ℕ))
  read_from_fw request len = do
    answer ← ask (control_in request 0 (to_u16 (pos len)) (table_bytes len))
    pure (if ltb_ℤ answer.result (pos 1) then none else some answer.payload)

  -- One default sample rate with Zero IF.
  unfoldable pub default_samplerates : Act H (Unit {0})
  default_samplerates = update (λ d. record d {
    supported_samplerate_count = 1;
    supported_samplerates = default_samplerate ∷ [];
    samplerate_architectures = 0 ∷ [];
  })

  -- The architectures of `count` rates. Their block has `count` bytes, but four times as many are
  -- asked for, and a longer answer is written beyond the block.
  unfoldable pub enter_architectures : ℕ → List ℕ → Option (List ℕ) → Act H (Unit {0})
  enter_architectures count stale none w =
      update (λ d. record d { samplerate_architectures = replicate count 0 }) w
  enter_architectures count stale (some bytes) w =
      if ltb count (length bytes)
      then (fault, w)
      else update
          (λ d. record d { samplerate_architectures = filled count bytes (block count stale) }) w

  -- the answer to the request for the rates
  unfoldable pub enter_samplerates :
      ℕ → (stale_rates stale_architectures : List ℕ) → Option (List ℕ) → Act H (Unit {0})
  unfolding default_samplerates
  enter_samplerates count stale_rates stale none = default_samplerates
  enter_samplerates count stale_rates stale (some bytes) = do
    update (λ d. record d {
      supported_samplerates =
          le_words count (filled (count * 4) bytes (block (count * 4) stale_rates));
    })
    architectures ← read_from_fw VendorRequest.get_samplerate_architectures count
    enter_architectures count stale architectures

  -- the answer to the request for the number of rates
  unfoldable pub enter_count :
      (stale_rates stale_architectures : List ℕ) → Option (List ℕ) → Act H (Unit {0})
  unfolding default_samplerates
  enter_count stale_rates stale none = default_samplerates
  enter_count stale_rates stale (some bytes) = do
    update (λ d. record d { supported_samplerate_count = first_word bytes })
    rates ← read_from_fw VendorRequest.get_samplerates (first_word bytes)
    enter_samplerates (first_word bytes) stale_rates stale rates

  -- the first rate becomes the current one: a fault if a table is empty
  unfoldable pub choose_first : Act H (Unit {0})
  choose_first w = elim (get_elem? w.device.supported_samplerates 0) [
    | none ↦ (fault, w)
    | some rate ↦ elim (get_elem? w.device.samplerate_architectures 0) [
      | none ↦ (fault, w)
      | some low_if ↦ update (λ d. record d { current_samplerate = rate; is_low_if = low_if }) w
    ]
  ]

  unfoldable pub load_samplerates : (stale_rates stale_architectures : List ℕ) → Act H (Unit {0})
  unfolding default_samplerates choose_first
  load_samplerates stale_rates stale = do
    count ← read_from_fw VendorRequest.get_samplerates 0
    enter_count stale_rates stale count
    choose_first

  -- i * DEFAULT_ATT_STEP_INCREMENT, for each `i` below `n`
  unfoldable pub att_steps_from : (i n : ℕ) → List Float
  att_steps_from i zero = []
  att_steps_from i (suc n) =
      mulf (of_intf (pos i)) (litf (pos 6) (pos 0)) ∷ att_steps_from (suc i) n

  -- The steps of the Airspy HF+ Discovery.
  unfoldable pub default_att_steps : Act H (Unit {0})
  default_att_steps = update (λ d. record d {
    supported_att_step_count = default_att_step_count;
    supported_att_steps = att_steps_from 0 default_att_step_count;
  })

  -- the answer to the request for the steps
  unfoldable pub enter_att_steps : ℕ → List ℕ → Option (List ℕ) → Act H (Unit {0})
  unfolding default_att_steps
  enter_att_steps count stale none = default_att_steps
  enter_att_steps count stale (some bytes) = update (λ d. record d {
    supported_att_step_count = count;
    supported_att_steps =
        map of_bits (le_words count (filled (count * 4) bytes (block (count * 4) stale)));
  })

  -- the answer to the request for the number of steps
  unfoldable pub enter_att_count : List ℕ → Option (List ℕ) → Act H (Unit {0})
  unfolding default_att_steps
  enter_att_count stale none = default_att_steps
  enter_att_count stale (some bytes) = do
    steps ← read_from_fw VendorRequest.get_att_steps (first_word bytes)
    enter_att_steps (first_word bytes) stale steps

  unfoldable pub load_att_steps : List ℕ → Act H (Unit {0})
  load_att_steps stale = do
    count ← read_from_fw VendorRequest.get_att_steps 0
    enter_att_count stale count

  -- The state of tuning at the start.
  unfoldable pub reset_tuning : Act H (Unit {0})
  reset_tuning = update (λ d. record d {
    freq_hz = H.of_int (pos 0);
    freq_khz = 0;
    freq_delta_hz = H.of_int (pos 0);
    freq_shift = H.of_int (pos 0);
    vec = record { re = litf (pos 1) (pos 0); im = litf (pos 0) (pos 0) };
    optimal_point = litf (pos 0) (pos 0);
    filter_gain = litf (pos 1) (pos 0);
    enable_dsp = 1;
  })
