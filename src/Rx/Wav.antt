-- ===== src/Rx/Wav.antt =====
-- The WAV files of tools/src/airspyhf_rx.c: the header, and the part of `main` that writes it, receives a
-- number of samples and then writes the header again.
use airspyhf.Prelude.{
  ℕ, ◌+◌, ◌-◌, ◌*◌, ◌/◌, ◌%◌, ◌^◌, ◌<◌, ◌≡◌, refl, sym, ap, ◌∙◌, true, Option, none, some, List, [],
  ◌∷◌, ◌++◌, length, length-append, take, drop, length-take, arith,
}
use mathlib.Core.List.{append-nil}
use airspyhf.Prelude.Words.{le_bytes}
use airspyhf.Prelude.Checked.{◌>>=◌, Ensures, >>=-Ensures}
use airspyhf.Floats.{Floats}
use airspyhf.Rx.{Timeval, Transfer, Globals, receive_all}
use airspyhf.Rx.Limit.{bytes_of, AreWhole, IsWritten, receive_all-IsWritten}

-- `t_wav_file_hdr`, less the four texts and the size of the format chunk, which are constant
pub record WavHeader : Type 0 where
  pub size : ℕ
  pub format_tag : ℕ
  pub channels : ℕ
  pub samples_per_sec : ℕ
  pub avg_bytes_per_sec : ℕ
  pub block_align : ℕ
  pub bits_per_sample : ℕ
  pub chunk_size : ℕ

unfoldable pub le_bytes16 : ℕ → List ℕ
le_bytes16 x = x % 256 ∷ x / 256 % 256 ∷ []

-- the header as it stands in the file: "RIFF", "WAVE", "fmt " and "data"
unfoldable pub header_bytes : WavHeader → List ℕ
unfolding le_bytes16 le_bytes
header_bytes h =
    (82 ∷ 73 ∷ 70 ∷ 70 ∷ [])
    ++ (le_bytes h.size
        ++ ((87 ∷ 65 ∷ 86 ∷ 69 ∷ [])
            ++ ((102 ∷ 109 ∷ 116 ∷ 32 ∷ [])
                ++ (le_bytes 16
                    ++ (le_bytes16 h.format_tag
                        ++ (le_bytes16 h.channels
                            ++ (le_bytes h.samples_per_sec
                                ++ (le_bytes h.avg_bytes_per_sec
                                    ++ (le_bytes16 h.block_align
                                        ++ (le_bytes16 h.bits_per_sample
                                            ++ ((100 ∷ 97 ∷ 116 ∷ 97 ∷ [])
                                                ++ le_bytes h.chunk_size)))))))))))

-- `wave_file_hdr` at the start
unfoldable pub first_header : WavHeader
first_header = record {
  size = 0;
  format_tag = 0;
  channels = 0;
  samples_per_sec = 0;
  avg_bytes_per_sec = 0;
  block_align = 0;
  bits_per_sample = 0;
  chunk_size = 0;
}

-- sizeof(t_wav_file_hdr)
abbrev pub header_size : ℕ
header_size = 44

-- the header for a file of that size, a `uint32_t`
unfoldable pub last_header : (wav_sample_per_sec file_pos : ℕ) → WavHeader
last_header wav_sample_per_sec file_pos = record {
  size = (file_pos + 2 ^ 32 - 8) % 2 ^ 32;
  format_tag = 3;
  channels = 2;
  samples_per_sec = wav_sample_per_sec;
  avg_bytes_per_sec = wav_sample_per_sec * 4 % 2 ^ 32;
  block_align = 2 * (32 / 8);
  bits_per_sample = 32;
  chunk_size = (file_pos + 2 ^ 32 - header_size) % 2 ^ 32;
}

-- samples_to_xfer * (32 * 2 / 8)
unfoldable pub bytes_for : (samples_to_xfer : ℕ) → ℕ
bytes_for samples_to_xfer = samples_to_xfer * (32 * 2 / 8) % 2 ^ 64

module _ (fwrite : List ℕ → List ℕ → ℕ) where
  -- a file that was just created, with the header
  unfoldable pub open_wav : List ℕ
  open_wav = take (fwrite [] (header_bytes first_header)) (header_bytes first_header)

  -- the header is written again, over the start of the file
  unfoldable pub finish_wav : (wav_sample_per_sec : ℕ) → List ℕ → List ℕ
  finish_wav wav_sample_per_sec file =
      let header = header_bytes (last_header wav_sample_per_sec (length file % 2 ^ 32)) in
      let written = fwrite file header in take written header ++ drop written file

  unfoldable pub close_wav : (wav_sample_per_sec : ℕ) → Option (List ℕ) → Option (List ℕ)
  close_wav wav_sample_per_sec none = none
  close_wav wav_sample_per_sec (some file) = some (finish_wav wav_sample_per_sec file)

  module _ (F : Floats) where
    -- What `main` does with the file, for the options -w and -n: the file at the end.
    unfoldable pub record_wav :
        (samples_to_xfer wav_sample_per_sec : ℕ)
        → List (Timeval × Transfer)
        → Globals F
        → Option (List ℕ)
    record_wav samples_to_xfer wav_sample_per_sec blocks g = do
      let ready = record g {
        fd = some open_wav;
        limit_num_samples = true;
        bytes_to_xfer = bytes_for samples_to_xfer;
      }
      done ← receive_all F fwrite blocks ready
      close_wav wav_sample_per_sec done.fd

-- The header that the code leaves before `size` bytes of samples. The comments of its struct have other
-- values: "File size + 8bytes" for a size that is less by 8 than the file's, and "Freq Hz sampling x 2" for
-- the bytes per second. Those are half of `samples_per_sec * block_align`, too.
abbrev pub header_for : (wav_sample_per_sec size : ℕ) → WavHeader
header_for wav_sample_per_sec size = record {
  size = size + 36;
  format_tag = 3;
  channels = 2;
  samples_per_sec = wav_sample_per_sec;
  avg_bytes_per_sec = wav_sample_per_sec * 4;
  block_align = 8;
  bits_per_sample = 32;
  chunk_size = size;
}

pub length-header_bytes : (h : WavHeader) → length (header_bytes h) ≡ header_size
unfolding header_bytes
length-header_bytes h = refl

last_header-header_for :
    (rate size : ℕ)
    → rate < 2 ^ 30
    → size + header_size < 2 ^ 32
    → last_header rate (size + header_size) ≡ header_for rate size
unfolding last_header
last_header-header_for rate size small fits =
    let one : (size + header_size + 2 ^ 32 - 8) % 2 ^ 32 ≡ size + 36 = omega (arith, fits) in
    let two : (size + header_size + 2 ^ 32 - header_size) % 2 ^ 32 ≡ size = omega (arith, fits) in
    let three : rate * 4 % 2 ^ 32 ≡ rate * 4 = omega (arith, small) in rw (one, two, three) refl

take-length : {A : Type 0} (xs ys : List A) → take (length xs) (xs ++ ys) ≡ xs
take-length [] ys = refl
take-length (x ∷ xs) ys = ap (λ l. x ∷ l) (take-length xs ys)

drop-length : {A : Type 0} (xs ys : List A) → drop (length xs) (xs ++ ys) ≡ ys
drop-length [] ys = refl
drop-length (x ∷ xs) ys = drop-length xs ys

bytes_for-small : (n : ℕ) → n * 8 < 2 ^ 64 → bytes_for n ≡ n * 8
unfolding bytes_for
bytes_for-small n h = omega (arith, h)

module _ (fwrite : List ℕ → List ℕ → ℕ)
    (all : (file bytes : List ℕ) → fwrite file bytes ≡ length bytes) where
  open_wav-all : open_wav fwrite ≡ header_bytes first_header
  unfolding open_wav
  open_wav-all =
      let h = header_bytes first_header in
      rw (all [] h) (sym (ap (λ l. take (length h) l) (append-nil h)) ∙ take-length h [])

  finish_wav-all :
      (rate : ℕ) (h : WavHeader) (samples : List ℕ)
      → rate < 2 ^ 30
      → length samples + header_size < 2 ^ 32
      → finish_wav fwrite rate (header_bytes h ++ samples)
        ≡ header_bytes (header_for rate (length samples)) ++ samples
  unfolding finish_wav
  finish_wav-all rate h samples small fits =
      let file = header_bytes h ++ samples in
      let counted : length file % 2 ^ 32 ≡ length samples + header_size =
        omega (arith, length-append (header_bytes h) samples, length-header_bytes h, fits) in
      let new = header_bytes (header_for rate (length samples)) in
      let kept : take 44 new ≡ new =
        sym (ap (λ l. take 44 l) (append-nil new))
        ∙ ap (λ n. take n (new ++ []))
            (sym (length-header_bytes (header_for rate (length samples))))
        ∙ take-length new [] in
      let data_kept : drop 44 file ≡ samples =
        ap (λ n. drop n file) (sym (length-header_bytes h))
        ∙ drop-length (header_bytes h) samples in
      rw
        (
          counted,
          last_header-header_for rate (length samples) small fits,
          all file new,
          length-header_bytes (header_for rate (length samples)),
          kept,
          data_kept,
        )
        refl

  module _ (F : Floats) where
    -- Where a whole number of samples is asked for whose bytes and header have a size below 2^32, at a
    -- sample rate below 2^30, every write takes all bytes, and each transfer has the bytes that it
    -- counts, the file at the end is a header and then the bytes of the transfers up to the number asked for.
    -- The header has the number of those bytes as the size of the data chunk, and 36 more as its first size;
    -- format 3, two channels of 32 bits, blocks of 8 bytes, the rate, and four times the rate as the bytes
    -- per second.
    pub record_wav-file :
        (samples_to_xfer rate : ℕ) (blocks : List (Timeval × Transfer)) (g : Globals F)
        → samples_to_xfer * 8 + header_size < 2 ^ 32
        → rate < 2 ^ 30
        → AreWhole blocks
        → Ensures
            (λ file.
              let samples = take (samples_to_xfer * 8) (bytes_of blocks) in
              file ≡ header_bytes (header_for rate (length samples)) ++ samples)
            (record_wav fwrite F samples_to_xfer rate blocks g)
    unfolding record_wav close_wav
    record_wav-file samples_to_xfer rate blocks g fits small whole =
        let asked : bytes_for samples_to_xfer ≡ samples_to_xfer * 8 =
          bytes_for-small samples_to_xfer (omega (arith, fits)) in
        let samples = take (samples_to_xfer * 8) (bytes_of blocks) in
        let ready = record g {
          fd = some (header_bytes first_header);
          limit_num_samples = true;
          bytes_to_xfer = samples_to_xfer * 8;
        } in
        let size : length samples + header_size < 2 ^ 32 =
          omega (arith, fits, length-take (samples_to_xfer * 8) (bytes_of blocks)) in
        rw (open_wav-all, asked)
          (>>=-Ensures
            (IsWritten F (header_bytes first_header) (bytes_of blocks) (samples_to_xfer * 8)) _
            (receive_all F fwrite blocks ready) _
            (receive_all-IsWritten F fwrite all blocks (header_bytes first_header) ready whole refl
              refl)
            (λ done w.
              let closed : close_wav fwrite rate done.fd
                  ≡ some (finish_wav fwrite rate (header_bytes first_header ++ samples)) =
                ap (close_wav fwrite rate) w.fd_eq in
              rw closed (finish_wav-all rate first_header samples small size)))
