-- ===== src/Prelude/Outcome.antt =====
-- State passing with early returns: what a C function with a status code becomes.
use mathlib.Core.Path.{◌≡◌, refl}
use mathlib.Core.Bool.{Bool, true, false}

-- `enum airspyhf_error`
pub data Status : Type 0 where
  success error unsupported : Status

-- `ok a`: the code goes on with `a`. `fail s`: it has returned `s`. `fault`: it does not
-- come back. It has left the behaviour that C defines, as by an access outside of an array, or it waits for
-- a thread that does not end.
pub data Outcome {ℓ} (A : Type ℓ) : Type ℓ where
  ok : A → Outcome A
  fail : Status → Outcome A
  fault : Outcome A

module _ {ℓ κ μ} {S : Type ℓ} {A : Type κ} {B : Type μ} where
  abbrev pub and_then : Outcome A × S → (A → S → Outcome B × S) → Outcome B × S
  and_then (ok a, s) k = k a s
  and_then (fail e, s) k = (fail e, s)
  and_then (fault, s) k = (fault, s)

  -- A chain that ends well has gone through its first part.
  pub and_then-eq-ok :
      (r : Outcome A × S) (k : A → S → Outcome B × S) {b : B} {v : S}
      → and_then r k ≡ (ok b, v)
      → (a : A) × (s : S) × (r ≡ (ok a, s)) × (k a s ≡ (ok b, v))
  and_then-eq-ok (ok a, s) k e = (a, s, refl, e)
  and_then-eq-ok (fail x, s) k e = cc
  and_then-eq-ok (fault, s) k e = cc

  infixl 5 ◌>>=◌ ◌>>◌
  abbrev pub ◌>>=◌ : (S → Outcome A × S) → (A → S → Outcome B × S) → S → Outcome B × S
  ◌>>=◌ m k s = and_then (m s) k

  abbrev pub ◌>>◌ : (S → Outcome A × S) → (S → Outcome B × S) → S → Outcome B × S
  ◌>>◌ m k s = and_then (m s) (λ _. k)

module _ {ℓ} {S : Type ℓ} where
  abbrev pub pure {κ} : {A : Type κ} → A → S → Outcome A × S
  pure a s = (ok a, s)

  -- `if (test) return status;`
  abbrev pub return_if : Bool → Status → S → Outcome (Unit {0}) × S
  return_if true e s = (fail e, s)
  return_if false e s = (ok tt, s)

  abbrev pub modify : (S → S) → S → Outcome (Unit {0}) × S
  modify f s = (ok tt, f s)

  -- a call whose status the caller ignores
  abbrev pub ignored : Outcome (Unit {0}) × S → Outcome (Unit {0}) × S
  ignored (ok _, s) = (ok tt, s)
  ignored (fail _, s) = (ok tt, s)
  ignored (fault, s) = (fault, s)

  abbrev pub ignore : (S → Outcome (Unit {0}) × S) → S → Outcome (Unit {0}) × S
  ignore m s = ignored (m s)
