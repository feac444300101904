-- ===== src/Storage/BitField/Wrap.antt =====
-- What WRAP stores is in the range of the encoding and has the bits of the number it was made from.
use postkeys.Base.{
  ℕ, zero, suc, ◌-◌, ◌*◌, ◌%◌, ◌^◌, ◌≤◌, ◌<◌, ◌≡◌, refl, ap, ◌∙◌, arith, Bool, true, false, inl,
  inr, Bool-cases,
}
use postkeys.Base.{leb, compare_numbers}
use native.Mathlib.Nat.{mod-eq-sub-mod, mod-eq_of_lt, mod-lt}
use postkeys.Base.Int.{ℤ, pos, negsuc, ltb_ℤ}
use postkeys.Storage.BitField.{
  bitfield_min, bitfield_max, wrap_down, wrap_up, wrap_signed, low_bits, wrap_bitfield,
}

-- Neither below the least nor above the greatest value of an encoding.
abbrev pub IsWithin : ℕ → Bool → ℤ → Type 0
IsWithin w signed v =
    (ltb_ℤ v (bitfield_min w signed) ≡ false) × (ltb_ℤ (bitfield_max w signed) v ≡ false)

-- The numbers -max to max - 1.
abbrev pub Fits : ℕ → ℤ → Type 0
Fits max (pos n) = n < max
Fits max (negsuc n) = n < max

Fits-wrap_down : (f max v : ℕ) → 0 < max → v ≤ f → Fits max (wrap_down f max v)
unfolding wrap_down
Fits-wrap_down zero max v h le = omega arith
Fits-wrap_down (suc f) max v h le = elim (Bool-cases (leb max v)) [
  | inl a ↦ elim (Bool-cases (leb (max * 2) v)) [
    | inl b ↦ rw (a, b) (Fits-wrap_down f max (v - max * 2) h (omega arith))
    | inr b ↦ rw (a, b) (ground arith)
  ]
  | inr a ↦ rw a (ground arith)
]

Fits-wrap_up : (f max v : ℕ) → 0 < max → v ≤ f → Fits max (wrap_up f max v)
unfolding wrap_up
Fits-wrap_up zero max v h le = omega arith
Fits-wrap_up (suc f) max v h le = elim (Bool-cases (leb max v)) [
  | inl a ↦ elim (Bool-cases (leb (max * 2) v)) [
    | inl b ↦ rw (a, b) (Fits-wrap_up f max (v - max * 2) h (ground arith))
    | inr b ↦ rw (a, b) (ground arith)
  ]
  | inr a ↦ rw a (ground arith)
]

low_bits-wrap_down : (f k v : ℕ) → low_bits (suc k) (wrap_down f (2 ^ k) v) ≡ v % 2 ^ suc k
unfolding wrap_down low_bits
low_bits-wrap_down zero k v = refl
low_bits-wrap_down (suc f) k v = elim (Bool-cases (leb (2 ^ k) v)) [
  | inl a ↦ elim (Bool-cases (leb (2 ^ k * 2) v)) [
    | inl b ↦
        rw (a, b)
          (low_bits-wrap_down f k (v - 2 ^ k * 2)
            ∙ ground (arith, mod-eq-sub-mod {n = v} {m = 2 ^ suc k} (ground arith)))
    | inr b ↦
        rw (a, b)
          (ground (
            arith,
            mod-eq_of_lt {n = v} {m = 2 ^ suc k} (ground arith),
            mod-eq_of_lt {n = 2 ^ k * 2 - v - 1} {m = 2 ^ suc k} (ground arith),
          ))
  ]
  | inr a ↦ rw a refl
]

low_bits-wrap_up :
    (f k v : ℕ) → low_bits (suc k) (wrap_up f (2 ^ k) v) ≡ low_bits (suc k) (negsuc v)
unfolding wrap_up low_bits
low_bits-wrap_up zero k v = refl
low_bits-wrap_up (suc f) k v = elim (Bool-cases (leb (2 ^ k) v)) [
  | inl a ↦ elim (Bool-cases (leb (2 ^ k * 2) v)) [
    | inl b ↦
        rw (a, b)
          (low_bits-wrap_up f k (v - 2 ^ k * 2)
            ∙ ground (arith, mod-eq-sub-mod {n = v} {m = 2 ^ suc k} (ground arith)))
    | inr b ↦
        rw (a, b)
          (ground (
            arith,
            mod-eq_of_lt {n = v} {m = 2 ^ suc k} (ground arith),
            mod-eq_of_lt {n = 2 ^ k * 2 - v - 1} {m = 2 ^ suc k} (ground arith),
          ))
  ]
  | inr a ↦ rw a refl
]

pub pow_pos : (k : ℕ) → 0 < 2 ^ k
pow_pos zero = omega arith
pow_pos (suc k) = omega (arith, pow_pos k)

pub low_bits-lt : (w : ℕ) (v : ℤ) → low_bits w v < 2 ^ w
unfolding low_bits
low_bits-lt w (pos n) = mod-lt n {m = 2 ^ w} (pow_pos w)
low_bits-lt w (negsuc n) = omega (arith, pow_pos w)

low_bits-pos : (w : ℕ) (v : ℤ) → low_bits w (pos (low_bits w v)) ≡ low_bits w v
unfolding low_bits
low_bits-pos w (pos n) = mod-eq_of_lt (low_bits-lt w (pos n))
low_bits-pos w (negsuc n) = mod-eq_of_lt (low_bits-lt w (negsuc n))

Fits-IsWithin : (k : ℕ) (v : ℤ) → Fits (2 ^ k) v → IsWithin (suc k) true v
unfolding bitfield_min bitfield_max
Fits-IsWithin k (pos n) h = (ground arith, ground arith)
Fits-IsWithin k (negsuc n) h = (ground arith, ground arith)

signed-IsWithin : (k : ℕ) (v : ℤ) → IsWithin (suc k) true (wrap_signed (2 ^ k) v)
unfolding wrap_signed
signed-IsWithin k (pos n) =
    Fits-IsWithin k (wrap_down n (2 ^ k) n) (Fits-wrap_down n (2 ^ k) n (pow_pos k) (omega arith))
signed-IsWithin k (negsuc n) =
    Fits-IsWithin k (wrap_up n (2 ^ k) n) (Fits-wrap_up n (2 ^ k) n (pow_pos k) (omega arith))

signed-low_bits : (k : ℕ) (v : ℤ) → low_bits (suc k) (wrap_signed (2 ^ k) v) ≡ low_bits (suc k) v
unfolding wrap_signed low_bits
signed-low_bits k (pos n) = low_bits-wrap_down n k n
signed-low_bits k (negsuc n) = low_bits-wrap_up n k n

wrap_bitfield-signed :
    (k : ℕ) (v : ℤ) → k < 63 → wrap_bitfield v (suc k) true ≡ wrap_signed (2 ^ k) v
unfolding wrap_bitfield
wrap_bitfield-signed k v h = ground arith

wrap_bitfield-unsigned :
    (k : ℕ) (v : ℤ) → k < 63 → wrap_bitfield v (suc k) false ≡ pos (low_bits (suc k) v)
unfolding wrap_bitfield
wrap_bitfield-unsigned k v h = ground arith

unsigned-IsWithin : (k r : ℕ) → k < 63 → r < 2 ^ suc k → IsWithin (suc k) false (pos r)
unfolding bitfield_min bitfield_max
unsigned-IsWithin k r small h = (ground arith, ground arith)

-- For an encoding of 1 to 63 bits, `wrapBitfield` gives a number in the range of the encoding whose
-- lowest bits, as many as the encoding has, are those of the number it was given.
pub wrap_bitfield-IsWithin :
    (v : ℤ) (w : ℕ) (signed : Bool)
    → 0 < w
    → w < 64
    → IsWithin w signed (wrap_bitfield v w signed)
      × (low_bits w (wrap_bitfield v w signed) ≡ low_bits w v)
wrap_bitfield-IsWithin v zero signed h small = absurd (omega arith)
wrap_bitfield-IsWithin v (suc k) true h small =
    rw (wrap_bitfield-signed k v (omega arith)) (signed-IsWithin k v, signed-low_bits k v)
wrap_bitfield-IsWithin v (suc k) false h small = rw (wrap_bitfield-unsigned k v (omega arith)) (
  unsigned-IsWithin k (low_bits (suc k) v) (omega arith) (low_bits-lt (suc k) v),
  low_bits-pos (suc k) v,
)

wrap_signed-inside : (k : ℕ) (v : ℤ) → Fits (2 ^ k) v → wrap_signed (2 ^ k) v ≡ v
unfolding wrap_signed wrap_down wrap_up
wrap_signed-inside k (pos zero) h = refl
wrap_signed-inside k (pos (suc n)) h = ground arith
wrap_signed-inside k (negsuc zero) h = refl
wrap_signed-inside k (negsuc (suc n)) h = ground arith

pub within-Fits : (k : ℕ) (v : ℤ) → IsWithin (suc k) true v → Fits (2 ^ k) v
unfolding bitfield_min bitfield_max
within-Fits k (pos n) h = ground (arith, pow_pos k)
within-Fits k (negsuc n) h = ground (arith, pow_pos k)

pub low_bits-inside :
    (k : ℕ) (v : ℤ) → k < 63 → IsWithin (suc k) false v → pos (low_bits (suc k) v) ≡ v
unfolding bitfield_min bitfield_max low_bits
low_bits-inside k (pos n) small h = ap pos (mod-eq_of_lt (ground (arith, pow_pos (suc k))))
low_bits-inside k (negsuc n) small h = absurd (ground arith)

pub wrap_bitfield-wide : (v : ℤ) (w : ℕ) (signed : Bool) → 64 ≤ w → wrap_bitfield v w signed ≡ v
unfolding wrap_bitfield
wrap_bitfield-wide v w signed h = ground arith

-- The encodings of BITFIELD but for u64.
abbrev pub IsEncoding : ℕ → Bool → Type 0
IsEncoding w signed = (0 < w) × ((w ≤ 64) × ((w ≡ 64) → signed ≡ true))

pub wrap_bitfield-inside :
    (v : ℤ) (w : ℕ) (signed : Bool)
    → IsEncoding w signed
    → IsWithin w signed v
    → wrap_bitfield v w signed ≡ v
wrap_bitfield-inside v zero signed e h = absurd (omega (arith, e.0))
wrap_bitfield-inside v (suc k) true e h = elim (Bool-cases (leb 64 (suc k))) [
  | inl wide ↦ wrap_bitfield-wide v (suc k) true (ground arith)
  | inr narrow ↦
      wrap_bitfield-signed k v (ground arith) ∙ wrap_signed-inside k v (within-Fits k v h)
]
wrap_bitfield-inside v (suc k) false e h = elim (Bool-cases (leb 64 (suc k))) [
  | inl wide ↦ wrap_bitfield-wide v (suc k) false (ground arith)
  | inr narrow ↦ wrap_bitfield-unsigned k v (ground arith) ∙ low_bits-inside k v (ground arith) h
]
