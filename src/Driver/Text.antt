-- ===== src/Driver/Text.antt =====
-- `airspyhf_version_string_read`, `airspyhf_get_bias_tee_name` and
-- `airspyhf_board_partid_serialno_read`: what the device tells of itself.
pub mod Laws
use airspyhf.Prelude.{
  ℕ, suc, ◌+◌, ◌-◌, ◌*◌, Bool, List, [], ◌∷◌, ◌++◌, ltb, ◌==◌, length, get_or, take, drop,
  if◌then◌else◌,
}
use airspyhf.Prelude.Int.{ℤ, pos, ltb_ℤ}
use airspyhf.Prelude.Words.{le_word, to_u16}
use airspyhf.Prelude.Outcome.{Outcome, ok, fail, fault, error, ◌>>=◌, ◌>>◌, return_if, pure}
use airspyhf.Usb.{VendorRequest, Call, control_in, Host}
use airspyhf.Driver.{World, Act, ask}
use airspyhf.Driver.Commands.{is_negative}

-- MAX_NAME_STRING_SIZE, and MAX_VERSION_STRING_SIZE
abbrev pub max_name_string_size : ℕ
max_name_string_size = 64

-- A local buffer of `size` bytes that held `stale`, after an answer has been written over its start.
unfoldable pub filled : ℕ → List ℕ → List ℕ → List ℕ
filled size payload stale = take size (payload ++ drop (length payload) stale)

-- `memcpy(text, local, length - 1); text[length - 1] = 0`: a fault if it reads past the local buffer
unfoldable pub copy_text : List ℕ → ℕ → Outcome (List ℕ)
copy_text buf len =
    if len == 0
    then fail error
    else if ltb (length buf) (len - 1)
    then fault
    else ok (take (len - 1) buf ++ (0 ∷ []))

-- `airspyhf_read_partid_serialno_t`
pub record PartidSerialno : Type 0 where
  pub part_id : ℕ
  pub serial_no : List ℕ

-- the little-endian word at byte `i`
abbrev pub word_at : List ℕ → ℕ → ℕ
word_at buf i =
    le_word (get_or buf i 0) (get_or buf (i + 1) 0) (get_or buf (i + 2) 0) (get_or buf (i + 3) 0)

module _ (H : Host) where
  -- `airspyhf_version_string_read`; `stale` is what the stack held in `version_local`
  unfoldable pub version_string_read : List ℕ → ℕ → Act H (List ℕ)
  version_string_read stale len = do
    answer ← ask (control_in VendorRequest.get_version_string 0 0 (max_name_string_size - 1))
    return_if (is_negative answer.result) error
    λ w. (copy_text (filled max_name_string_size answer.payload stale) len, w)

  -- `airspyhf_get_bias_tee_name`
  unfoldable pub get_bias_tee_name : List ℕ → ℤ → ℕ → Act H (List ℕ)
  get_bias_tee_name stale index len = do
    answer ←
        ask (control_in VendorRequest.get_bias_tee_name 0 (to_u16 index) (max_name_string_size - 1))
    return_if (is_negative answer.result) error
    λ w. (copy_text (filled max_name_string_size answer.payload stale) len, w)

  -- `airspyhf_board_partid_serialno_read`
  unfoldable pub board_partid_serialno_read : Act H PartidSerialno
  board_partid_serialno_read = do
    answer ← ask (control_in VendorRequest.get_serialno_boardid 0 0 20)
    return_if (ltb_ℤ answer.result (pos 20)) error
    pure (record {
      part_id = word_at answer.payload 0;
      serial_no =
          word_at answer.payload 4
          ∷ word_at answer.payload 8
          ∷ word_at answer.payload 12
          ∷ word_at answer.payload 16
          ∷ [];
    })
