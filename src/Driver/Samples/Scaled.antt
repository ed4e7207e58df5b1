-- ===== src/Driver/Samples/Scaled.antt =====
-- The first loop of `convert_samples` in libairspyhf/src/airspyhf.c, from array to array, against the
-- samples of a block scaled all at once.
use airspyhf.Prelude.{
  ℕ, zero, suc, ◌+◌, ◌<◌, ◌≤◌, ◌≡◌, refl, ap, Option, none, some, List, [], ◌∷◌, ◌++◌, map, arith,
  length, length-map, length-append, length-take, length-drop, take, drop, set, lt→ltb,
}
use airspyhf.Prelude.Int.{ℤ}
use airspyhf.Prelude.Checked.{read, write, for_up, Ensures, read-Ensures, for_up-Ensures_next}
use airspyhf.Floats.{Floats}
use airspyhf.Balancer.{Complex}
use airspyhf.Driver.Samples.{scale_sample, scale_round, scale_samples}

module _ {A B : Type 0} (f : A → B) where
  -- the array after `j` rounds
  abbrev scaled : ℕ → List A → List B → List B
  scaled j src dest = map f (take j src) ++ drop j dest

  length-scaled :
      (j : ℕ) (src : List A) (dest : List B)
      → j ≤ length src
      → j ≤ length dest
      → length (scaled j src dest) ≡ length dest
  length-scaled j src dest in_src in_dest = omega (
    arith,
    length-append (map f (take j src)) (drop j dest),
    length-map (take j src) f,
    length-take j src,
    length-drop j dest,
    in_src,
    in_dest,
  )

  set-scaled :
      (j : ℕ) (src : List A) (dest : List B) (s : A)
      → j < length dest
      → read src j ≡ some s
      → set (scaled j src dest) j (f s) ≡ scaled (suc j) src dest
  set-scaled j [] dest s inside e = cc
  set-scaled j (x ∷ src) [] s inside e = absurd (omega arith)
  set-scaled zero (x ∷ src) (y ∷ dest) s inside e = cc
  set-scaled (suc j) (x ∷ src) (y ∷ dest) s inside e =
      ap (λ l. f x ∷ l) (set-scaled j src dest s (omega arith) e)

module _ {A : Type 0} where
  Ensures-eq : (P : A → Type 0) (o : Option A) → Ensures P o → (a : A) × (o ≡ some a)
  Ensures-eq P none h = absurd h
  Ensures-eq P (some a) h = (a, refl)

  Ensures-some : (goal : A) (o : Option A) → Ensures (λ a. a ≡ goal) o → o ≡ some goal
  Ensures-some goal none h = absurd h
  Ensures-some goal (some a) h = ap some h

module _ (F : Floats) where
  open F use {Float}

  scale_round-scaled :
      (gain : Float) (src : List (Complex ℤ)) (dest now : List (Complex Float)) (j : ℕ)
      → j < length src
      → j < length dest
      → now ≡ scaled (scale_sample F gain) j src dest
      → Ensures
          (λ next. next ≡ scaled (scale_sample F gain) (suc j) src dest)
          (scale_round F gain src j now)
  unfolding scale_round write
  scale_round-scaled gain src dest now j in_src in_dest e =
      let f = scale_sample F gain in
      let (s, here) = Ensures-eq (λ a. Unit {0}) (read src j) (read-Ensures src j in_src) in
      let inside : j < length (scaled f j src dest) =
        omega (arith, length-scaled f j src dest (omega arith) (omega arith), in_dest) in
      rw (here, e, lt→ltb j (length (scaled f j src dest)) inside)
        (set-scaled f j src dest s in_dest here)

  -- Where neither array is shorter than the count, the loop comes to an end with no access outside of
  -- them, and leaves the first samples of the block, scaled, in front of what was behind the count.
  pub scale_samples-scaled :
      (gain : Float) (src : List (Complex ℤ)) (dest : List (Complex Float)) (count : ℕ)
      → count ≤ length src
      → count ≤ length dest
      → scale_samples F gain src dest count
        ≡ some (map (scale_sample F gain) (take count src) ++ drop count dest)
  unfolding scale_samples
  scale_samples-scaled gain src dest count in_src in_dest =
      let f = scale_sample F gain in
      let same : 0 + count ≡ count = omega arith in
      let done =
        for_up-Ensures_next (λ j now. now ≡ scaled f j src dest) (scale_round F gain src) 0 count
          dest refl
          (λ j now low below e.
            scale_round-scaled gain src dest now j (omega arith) (omega arith) e) in
      Ensures-some (scaled f count src dest) (for_up (scale_round F gain src) 0 count dest)
        (rw same at done)
