-- ===== src/Driver/Tests/Opened.antt =====
-- The tables of the test device after it was opened.
use mathlib.Core.Logic.{◌↔◌}
use airspyhf.Prelude.{
  true, inr, ℕ, zero, suc, ◌<◌, ◌≡◌, refl, List, [], ◌∷◌, ◌++◌, arith, length, replicate,
}
use airspyhf.Prelude.Int.{pos}
use airspyhf.Prelude.Words.{le_bytes}
use airspyhf.Prelude.Outcome.{fault}
use airspyhf.Usb.{VendorRequest, Call, control_in, Response, Host}
use airspyhf.Driver.{World}
use airspyhf.Driver.Boot.{
  le_words, first_word, table_bytes, read_from_fw, enter_architectures, enter_samplerates,
  enter_count, choose_first, load_samplerates, block,
}
use airspyhf.Driver.Boot.Laws.{IsTabled, IsFirstRate, load_samplerates-IsFirstRate}
use airspyhf.Driver.Boot.Fallback.{IsUnsafe, load_samplerates-fault}
use airspyhf.Driver.Text.{filled}
use airspyhf.Driver.Tests.{test_device}
use airspyhf.Fixed.{fixed}

abbrev reply : List ℕ → Response
reply bytes = record { result = pos (length bytes); payload = bytes }

-- a device with two rates, 912000 in Low IF and 768000 in Zero IF, and two steps
abbrev tell : List ℕ → Call → Response
tell archs (control_in VendorRequest.get_samplerates v zero n) = reply (le_bytes 2)
tell archs (control_in VendorRequest.get_samplerates v (suc i) n) =
    reply (le_bytes 912000 ++ le_bytes 768000)
tell archs (control_in VendorRequest.get_samplerate_architectures v i n) = reply archs
tell archs (control_in VendorRequest.get_att_steps v zero n) = reply (le_bytes 2)
tell archs (control_in VendorRequest.get_att_steps v (suc i) n) = reply (le_bytes 0 ++ le_bytes 6)
tell archs _ = reply []

abbrev host_of : List ℕ → Host
host_of archs = record {
  floats = fixed;
  respond = λ log c. tell archs c;
  callbacks = λ log. [];
  ends = λ log t. true;
}

abbrev world_of : (archs : List ℕ) → World (host_of archs)
world_of archs = record { device = test_device; log = [] }

abbrev telling_host : Host
telling_host = host_of (1 ∷ 0 ∷ [])

opened_world : World telling_host
opened_world = (load_samplerates telling_host [] [] (world_of (1 ∷ 0 ∷ []))).1

opened_test :
    (opened_world.device.supported_samplerates ≡ 912000 ∷ 768000 ∷ [])
    × (opened_world.device.samplerate_architectures ≡ 1 ∷ 0 ∷ [])
    × (opened_world.device.is_low_if ≡ 1)
unfolding opened_world load_samplerates read_from_fw enter_count enter_samplerates
    enter_architectures choose_first table_bytes first_word le_words block filled le_bytes
opened_test = (refl, refl, refl)

load_samplerates-IsFirstRate_example :
    IsTabled opened_world.device
    × IsFirstRate opened_world.device
    × (0 < opened_world.device.supported_samplerate_count)
unfolding opened_world load_samplerates read_from_fw enter_count enter_samplerates
    enter_architectures choose_first table_bytes first_word le_words block filled le_bytes
load_samplerates-IsFirstRate_example =
    load_samplerates-IsFirstRate [] [] (world_of (1 ∷ 0 ∷ [])) opened_world refl

-- one word for each architecture
abbrev wide_host : Host
wide_host = host_of (replicate 8 0)

load_samplerates-fault_example :
    ((load_samplerates wide_host [] [] (world_of (replicate 8 0))).0 ≡ fault)
    ↔ IsUnsafe wide_host (world_of (replicate 8 0))
load_samplerates-fault_example = load_samplerates-fault wide_host [] [] (world_of (replicate 8 0))

-- eight bytes for two architectures
wide_host-IsUnsafe : IsUnsafe wide_host (world_of (replicate 8 0))
unfolding first_word le_bytes table_bytes
wide_host-IsUnsafe = (refl, refl, inr (refl, omega arith))
