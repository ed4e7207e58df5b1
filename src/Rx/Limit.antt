-- ===== src/Rx/Limit.antt =====
-- What the callback of tools/src/airspyhf_rx.c has written when the number of samples is limited.
use airspyhf.Prelude.{
  ℕ, zero, suc, ◌-◌, ◌*◌, ◌%◌, ◌^◌, ◌<◌, ◌≤◌, ◌≡◌, refl, sym, ap, ◌∙◌, Bool, true, false, not, ◌&&◌,
  Option, none, some, List, [], ◌∷◌, ◌++◌, ltb, leb, ◌==◌, length, length-append, take, length-take,
  arith, if◌then◌else◌, Bool-cases, inl, inr,
}
use mathlib.Core.List.{append-nil, append_assoc}
use airspyhf.Prelude.Int.{ℤ, pos, negsuc}
use airspyhf.Prelude.Checked.{Ensures, >>=-Ensures, Ensures-weaken}
use airspyhf.Floats.{Floats}
use airspyhf.Rx.{
  Timeval, Transfer, Globals, update_rate, measure, limit_bytes, write_samples, write_transfer,
  write_opened, rx_callback, after, receive_all,
}

-- the bytes of a transfer
abbrev pub samples_of : Option (List ℕ) → List ℕ
samples_of none = []
samples_of (some bytes) = bytes

-- the bytes of all transfers, one after the other
abbrev pub bytes_of : List (Timeval × Transfer) → List ℕ
bytes_of [] = []
bytes_of ((now, t) ∷ blocks) = samples_of t.samples ++ bytes_of blocks

-- A transfer has the bytes that it counts, and they are fewer than 2^32.
pub record IsWhole (t : Transfer) : Type 0 where
  pub bytes : List ℕ
  pub samples_eq : t.samples ≡ some bytes
  pub bytes_length : length bytes ≡ t.sample_count * 8
  pub bytes_lt : t.sample_count * 8 < 2 ^ 32

abbrev pub AreWhole : List (Timeval × Transfer) → Type 0
AreWhole [] = Unit {0}
AreWhole ((now, t) ∷ blocks) = IsWhole t × AreWhole blocks

take-append :
    {A : Type 0} (n : ℕ) (xs ys : List A) → take n (xs ++ ys) ≡ take n xs ++ take (n - length xs) ys
take-append zero xs ys = let none_left : 0 - length xs ≡ 0 = omega arith in rw none_left refl
take-append (suc n) [] ys = let all_left : suc n - 0 ≡ suc n = omega arith in rw all_left refl
take-append (suc n) (x ∷ xs) ys =
    let one_less : suc n - suc (length xs) ≡ n - length xs = omega arith in
    rw one_less (ap (λ l. x ∷ l) (take-append n xs ys))

take_all : {A : Type 0} (n : ℕ) (xs : List A) → length xs ≤ n → take n xs ≡ xs
take_all zero [] h = refl
take_all zero (x ∷ xs) h = absurd (omega arith)
take_all (suc n) [] h = refl
take_all (suc n) (x ∷ xs) h = ap (λ l. x ∷ l) (take_all n xs (omega arith))

-- as many bytes as are allowed, of the bytes of one transfer
take-allowed :
    (left n : ℕ) (xs : List ℕ)
    → length xs ≡ n
    → take (if leb left n then left else n) xs ≡ take left xs
take-allowed left n xs h = elim (Bool-cases (leb left n)) [
  | inl le ↦ rw le refl
  | inr gt ↦ rw gt (take_all n xs (omega (arith, h)) ∙ sym (take_all left xs (ground (arith, h))))
]

-- the answer of the callback, where all bytes were written
answer-limited :
    (written left : ℕ) (limit : Bool)
    → limit ≡ true
    → (if written == written && not (limit && left == 0) then pos 0 else negsuc 0)
      ≡ (if left == 0 then negsuc 0 else pos 0)
answer-limited written left limit h = ground arith

module _ (F : Floats) where
  -- The measurement of the rate has no part in what is written.
  pub measure-kept :
      (now : Timeval) (n : ℕ) (g : Globals F)
      → ((measure F now n g).fd ≡ g.fd)
        × ((measure F now n g).limit_num_samples ≡ g.limit_num_samples)
        × ((measure F now n g).bytes_to_xfer ≡ g.bytes_to_xfer)
  unfolding measure update_rate
  measure-kept now n g = ground arith

  -- A run that may write `left` more bytes to `file`, with the bytes of `blocks` to come.
  pub record IsWritten (file bytes : List ℕ) (left : ℕ) (g : Globals F) : Type 0 where
    pub fd_eq : g.fd ≡ some (file ++ take left bytes)
    pub limited : g.limit_num_samples ≡ true
    pub left_eq : g.bytes_to_xfer ≡ left - length bytes

  -- and then the answer is 0 while there is more to write
  abbrev pub IsAnswered : List ℕ → List ℕ → ℕ → ℤ × Globals F → Type 0
  IsAnswered file bytes left r =
      IsWritten file bytes left r.1 × (r.0 ≡ (if r.1.bytes_to_xfer == 0 then negsuc 0 else pos 0))

  -- The first bytes of a list, and then those of the rest, are the first bytes of both.
  IsWritten-rest :
      (file xs ys : List ℕ) (left : ℕ) (g : Globals F)
      → IsWritten (file ++ take left xs) ys (left - length xs) g
      → IsWritten file (xs ++ ys) left g
  IsWritten-rest file xs ys left g w = record {
    fd_eq =
        w.fd_eq
        ∙ ap some (
            append_assoc file (take left xs) (take (left - length xs) ys)
            ∙ ap (λ l. file ++ l) (sym (take-append left xs ys)));
    limited = w.limited;
    left_eq = omega (arith, w.left_eq, length-append xs ys);
  }

  module _ (fwrite : List ℕ → List ℕ → ℕ)
      (all : (file bytes : List ℕ) → fwrite file bytes ≡ length bytes) where
    write_samples-all :
        (file xs : List ℕ) (n : ℕ) (g : Globals F)
        → n ≤ length xs
        → write_samples F fwrite file (some xs) n g
          ≡ some (n, record g { fd = some (file ++ take n xs) })
    unfolding write_samples
    write_samples-all file xs n g h =
        let counted : length (take n xs) ≡ n = omega (arith, length-take n xs) in
        let there : ltb (length xs) n ≡ false = ground arith in
        let kept : take n (take n xs) ≡ take n xs =
          take_all n (take n xs) (omega (arith, counted)) in
        rw (there, all file (take n xs), counted, kept) refl

    limit_bytes-allowed :
        (n : ℕ) (g : Globals F)
        → n < 2 ^ 32
        → g.limit_num_samples ≡ true
        → let allowed = if leb g.bytes_to_xfer n then g.bytes_to_xfer else n in
          limit_bytes F n g ≡ (allowed, record g { bytes_to_xfer = g.bytes_to_xfer - allowed })
    unfolding limit_bytes
    limit_bytes-allowed n g lt limited = elim (Bool-cases (leb g.bytes_to_xfer n)) [
      | inl le ↦
          let small : g.bytes_to_xfer % 2 ^ 32 ≡ g.bytes_to_xfer = ground arith in
          rw (limited, le, small) refl
      | inr gt ↦ rw (limited, gt) refl
    ]

    -- A transfer is written as far as the limit allows; the answer is 0 while there is more to write.
    write_transfer-IsWritten :
        (now : Timeval) (t : Transfer) (file : List ℕ) (g : Globals F) (whole : IsWhole t)
        → g.limit_num_samples ≡ true
        → Ensures
            (IsAnswered file whole.bytes g.bytes_to_xfer)
            (write_transfer F fwrite now t file g)
    unfolding write_transfer
    write_transfer-IsWritten now t file g whole limited =
        let n = t.sample_count * 4 * 2 in
        let xs = whole.bytes in
        let (_, same_limit, same_left) = measure-kept now t.sample_count g in
        let m = measure F now t.sample_count g in
        let allowed = if leb m.bytes_to_xfer n then m.bytes_to_xfer else n in
        let wrapped : n % 2 ^ 32 ≡ n = omega (arith, whole.bytes_lt) in
        let enough : allowed ≤ length xs = ground (arith, whole.bytes_length) in
        let same_bytes : take allowed xs ≡ take g.bytes_to_xfer xs =
          take-allowed m.bytes_to_xfer n xs (omega (arith, whole.bytes_length))
          ∙ ap (λ b. take b xs) same_left in
        rw
          (
            wrapped,
            limit_bytes-allowed n m (omega (arith, whole.bytes_lt)) (same_limit ∙ limited),
            whole.samples_eq,
            write_samples-all file xs allowed
                (record m { bytes_to_xfer = m.bytes_to_xfer - allowed }) enough,
          )
          (
            record {
              fd_eq = ap (λ l. some (file ++ l)) same_bytes;
              limited = same_limit ∙ limited;
              left_eq = ground (arith, same_left, whole.bytes_length);
            },
            answer-limited allowed (m.bytes_to_xfer - allowed) m.limit_num_samples
                (same_limit ∙ limited),
          )

    -- the same of the whole callback, with the bytes of the transfer as they are
    rx_callback-IsWritten :
        (now : Timeval) (t : Transfer) (file : List ℕ) (g : Globals F)
        → IsWhole t
        → g.fd ≡ some file
        → g.limit_num_samples ≡ true
        → Ensures
            (IsAnswered file (samples_of t.samples) g.bytes_to_xfer)
            (rx_callback F fwrite now t g)
    unfolding rx_callback write_opened
    rx_callback-IsWritten now t file g whole opened limited =
        let called : rx_callback F fwrite now t g ≡ write_transfer F fwrite now t file g =
          ap (λ p. write_opened F fwrite now t p g) opened in
        let bytes : samples_of t.samples ≡ whole.bytes = ap samples_of whole.samples_eq in
        rw (called, bytes) (write_transfer-IsWritten now t file g whole limited)

    -- what follows a transfer: the end where the limit is reached, and else the other transfers
    proceed-IsWritten :
        (xs ys file : List ℕ) (left : ℕ) (r : ℤ × Globals F) (rest : Option (Globals F))
        → IsAnswered file xs left r
        → Ensures (IsWritten (file ++ take left xs) ys r.1.bytes_to_xfer) rest
        → Ensures (IsWritten file (xs ++ ys) left) (after F r.0 rest r.1)
    unfolding after
    proceed-IsWritten xs ys file left r rest (w, answer) h =
        let taken = file ++ take left xs in
        elim (Bool-cases (r.1.bytes_to_xfer == 0)) [
          | inl spent ↦
              let over : r.1.bytes_to_xfer ≡ 0 = ground arith in
              let nothing : left - length xs ≡ 0 = sym w.left_eq ∙ over in
              let ends : IsWritten taken ys (left - length xs) r.1 = rw nothing record {
                fd_eq = w.fd_eq ∙ ap some (sym (append-nil taken));
                limited = w.limited;
                left_eq = omega (arith, over);
              } in
              rw (answer, spent) (IsWritten-rest file xs ys left r.1 ends)
          | inr more ↦
              let h₂ = rw w.left_eq at h in
              rw (answer, more)
                (Ensures-weaken (IsWritten taken ys (left - length xs))
                  (IsWritten file (xs ++ ys) left) rest h₂ (IsWritten-rest file xs ys left))
        ]

    -- Where the number of samples is limited, every write takes all bytes, and each transfer has the
    -- bytes that it counts, the receiver ends with the file extended by the bytes of the
    -- transfers up to the limit, in their order, and with the limit reduced by what was written.
    pub receive_all-IsWritten :
        (blocks : List (Timeval × Transfer)) (file : List ℕ) (g : Globals F)
        → AreWhole blocks
        → g.fd ≡ some file
        → g.limit_num_samples ≡ true
        → Ensures (IsWritten file (bytes_of blocks) g.bytes_to_xfer) (receive_all F fwrite blocks g)
    unfolding receive_all
    receive_all-IsWritten [] file g whole opened limited = record {
      fd_eq =
          opened
          ∙ ap some (
              sym (
                ap (λ l. file ++ l) (take_all g.bytes_to_xfer [] (omega arith)) ∙ append-nil file));
      limited = limited;
      left_eq = omega arith;
    }
    receive_all-IsWritten ((now, t) ∷ blocks) file g (whole, rest) opened limited =
        let xs = samples_of t.samples in
        >>=-Ensures (IsAnswered file xs g.bytes_to_xfer)
          (IsWritten file (xs ++ bytes_of blocks) g.bytes_to_xfer) (rx_callback F fwrite now t g) _
          (rx_callback-IsWritten now t file g whole opened limited)
          (λ r k.
            proceed-IsWritten xs (bytes_of blocks) file g.bytes_to_xfer r
              (receive_all F fwrite blocks r.1) k
              (receive_all-IsWritten blocks (file ++ take g.bytes_to_xfer xs) r.1 rest k.0.fd_eq
                k.0.limited))
