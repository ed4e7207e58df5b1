-- ===== src/Stream/Window.antt =====
-- The part of the eight slots between the tail and the head, as a list of entries.
use airspyhf.Prelude.{
  ℕ, zero, suc, ◌+◌, ◌%◌, ◌<◌, ◌≡◌, ◌≢◌, refl, ap, List, [], ◌∷◌, ◌++◌, arith, length, set, get_or,
  get_or-set_self, get_or-set_ne,
}
use airspyhf.Stream.{raw_buffer_count, next_slot}
use airspyhf.Stream.System.{Entry}

-- the `n` entries from slot `i` on, oldest first
unfoldable pub window : List ℕ → List ℕ → ℕ → ℕ → List Entry
window slots drops i zero = []
window slots drops i (suc n) =
    (get_or slots i 0, get_or drops i 0) ∷ window slots drops (next_slot i) n

pub window-suc :
    (slots drops : List ℕ) (i n : ℕ)
    → n ≢ 0
    → (m : ℕ) → n ≡ m + 1
    → window slots drops i n
      ≡ (get_or slots i 0, get_or drops i 0) ∷ window slots drops (next_slot i) m
unfolding window
window-suc slots drops i zero h m e = absurd (h refl)
window-suc slots drops i (suc n) h m e = let same : n ≡ m = omega arith in rw same

-- Writing the slot just past a window extends the window by that entry.
pub window-set :
    (slots drops : List ℕ) (b d i n j : ℕ)
    → length slots ≡ raw_buffer_count
    → length drops ≡ raw_buffer_count
    → i < raw_buffer_count
    → n < raw_buffer_count
    → j ≡ (i + n) % raw_buffer_count
    → window (set slots j b) (set drops j d) i (suc n) ≡ window slots drops i n ++ ((b, d) ∷ [])
unfolding window
window-set slots drops b d i zero j hs hd hi hn e =
    let same : j ≡ i = omega arith in
    rw (same, get_or-set_self slots i b 0 (omega arith), get_or-set_self drops i d 0 (omega arith))
window-set slots drops b d i (suc n) j hs hd hi hn e =
    let ne : j ≢ i = omega arith in
    rw (get_or-set_ne slots b 0 ne, get_or-set_ne drops d 0 ne)
      (ap (◌∷◌ (get_or slots i 0, get_or drops i 0)) (
        window-set slots drops b d (next_slot i) n j hs hd (omega arith) (omega arith)
          (omega arith)))
