-- ===== src/Storage/BitField/Overflow.antt =====
-- INCRBY of BITFIELD against the sum as it would be without bounds.
use native.Mathlib.Nat.{pow-le-pow_right}
use postkeys.Base.{
  ℕ, ◌+◌, ◌-◌, ◌^◌, ◌≤◌, ◌<◌, ◌≡◌, refl, ap, ◌∙◌, arith, Bool, true, false, ◌||◌, inl, inr,
  Bool-cases, Option, none, some,
}
use postkeys.Base.{ltb, ◌==◌, compare_numbers, if◌then◌else◌}
use postkeys.Base.Int.{ℤ, pos, negsuc, ltb_ℤ, ◌+ℤ◌, IsI64}
use postkeys.Storage.BitField.{
  sat, fail, bitfield_min, bitfield_max, wrap64, resolve_overflow, wrap_bitfield,
}
use postkeys.Storage.BitField.Apply.{add_overflow, is_high, is_low, incr_value}
use postkeys.Storage.BitField.Wrap.{IsEncoding, wrap_bitfield-inside}

pub wrap64-fits : (s : ℤ) → IsI64 s → wrap64 s ≡ s
unfolding wrap64
wrap64-fits (pos n) h = ground arith
wrap64-fits (negsuc n) h = ground arith

wrap64-above : (n : ℕ) → 2 ^ 63 ≤ n → n < 2 ^ 64 → wrap64 (pos n) ≡ negsuc (2 ^ 64 - n - 1)
unfolding wrap64
wrap64-above n h small = ground arith

wrap64-below : (n : ℕ) → 2 ^ 63 ≤ n → n < 2 ^ 64 → wrap64 (negsuc n) ≡ pos (2 ^ 64 - n - 1)
unfolding wrap64
wrap64-below n h small = ground arith

-- `over` is set where the sum is beyond an int64, and what is added tells on which side.
pub data Sum (old v : ℤ) : Type 0 where
  fits : wrap64 (old +ℤ v) ≡ old +ℤ v → add_overflow old v ≡ false → IsI64 (old +ℤ v) → Sum old v
  above :
      (n : ℕ)
      → old +ℤ v ≡ pos n
      → 2 ^ 63 ≤ n
      → add_overflow old v ≡ true
      → ltb_ℤ (pos 0) v ≡ true
      → ltb_ℤ v (pos 0) ≡ false
      → Sum old v
  below :
      (n : ℕ)
      → old +ℤ v ≡ negsuc n
      → 2 ^ 63 ≤ n
      → add_overflow old v ≡ true
      → ltb_ℤ (pos 0) v ≡ false
      → ltb_ℤ v (pos 0) ≡ true
      → Sum old v

no_overflow : (old v : ℤ) → wrap64 (old +ℤ v) ≡ old +ℤ v → add_overflow old v ≡ false
unfolding add_overflow ◌+ℤ◌
no_overflow (pos a) (pos b) e = rw e (ground arith)
no_overflow (pos a) (negsuc b) e = rw e (ground arith)
no_overflow (negsuc a) (pos b) e = rw e (ground arith)
no_overflow (negsuc a) (negsuc b) e = rw e (ground arith)

fits_in : (old v : ℤ) → IsI64 (old +ℤ v) → Sum old v
fits_in old v h = fits (wrap64-fits (old +ℤ v) h) (no_overflow old v (wrap64-fits (old +ℤ v) h)) h

add_overflow-Sum : (old v : ℤ) → IsI64 old → IsI64 v → Sum old v
unfolding add_overflow ◌+ℤ◌
add_overflow-Sum (pos a) (pos b) ho hv = elim (Bool-cases (ltb (a + b) (2 ^ 63))) [
  | inl e ↦ fits_in (pos a) (pos b) (ground arith)
  | inr e ↦
      above (a + b) (ground arith) (ground arith)
        (ground (arith, wrap64-above (a + b) (ground arith) (ground arith))) (ground arith)
        (ground arith)
]
add_overflow-Sum (pos a) (negsuc b) ho hv = fits_in (pos a) (negsuc b) (ground arith)
add_overflow-Sum (negsuc a) (pos b) ho hv = fits_in (negsuc a) (pos b) (ground arith)
add_overflow-Sum (negsuc a) (negsuc b) ho hv = elim (Bool-cases (ltb (a + b + 1) (2 ^ 63))) [
  | inl e ↦ fits_in (negsuc a) (negsuc b) (ground arith)
  | inr e ↦
      below (a + b + 1) (ground arith) (ground arith)
        (ground (arith, wrap64-below (a + b + 1) (ground arith) (ground arith))) (ground arith)
        (ground arith)
]

is_high-eq :
    (bound old v : ℤ) → IsI64 bound → Sum old v → is_high bound old v ≡ ltb_ℤ bound (old +ℤ v)
unfolding is_high
is_high-eq bound old v h (fits e o i) = rw (e, o) refl
is_high-eq (pos b) old v h (above n e le o p m) = rw (e, o, p) (ground arith)
is_high-eq (negsuc b) old v h (above n e le o p m) = rw (e, o, p) (ground arith)
is_high-eq (pos b) old v h (below n e le o p m) = rw (e, o, p) (ground arith)
is_high-eq (negsuc b) old v h (below n e le o p m) = rw (e, o, p) (ground arith)

is_low-eq :
    (bound old v : ℤ) → IsI64 bound → Sum old v → is_low bound old v ≡ ltb_ℤ (old +ℤ v) bound
unfolding is_low
is_low-eq bound old v h (fits e o i) = rw (e, o) refl
is_low-eq (pos b) old v h (above n e le o p m) = rw (e, o, m) (ground arith)
is_low-eq (negsuc b) old v h (above n e le o p m) = rw (e, o, m) (ground arith)
is_low-eq (pos b) old v h (below n e le o p m) = rw (e, o, m) (ground arith)
is_low-eq (negsuc b) old v h (below n e le o p m) = rw (e, o, m) (ground arith)

pub pow_le : (k j : ℕ) → k ≤ j → 2 ^ k ≤ 2 ^ j
pow_le k j h = pow-le-pow_right (omega arith) h

pub half_le : (w : ℕ) → 0 < w → w ≤ 64 → 2 ^ (w - 1) ≤ 2 ^ 63
half_le w h le = ground (arith, pow_le (w - 1) 63 (omega arith))

pub bitfield_min-IsI64 : (w : ℕ) (signed : Bool) → 0 < w → w ≤ 64 → IsI64 (bitfield_min w signed)
unfolding bitfield_min
bitfield_min-IsI64 w true h le = omega (arith, half_le w h le)
bitfield_min-IsI64 w false h le = omega arith

pub bitfield_max-IsI64 : (w : ℕ) (signed : Bool) → 0 < w → w ≤ 64 → IsI64 (bitfield_max w signed)
unfolding bitfield_max
bitfield_max-IsI64 w true h le = omega (arith, half_le w h le)
bitfield_max-IsI64 w false h le = elim (Bool-cases (w == 64)) [
  | inl e ↦ rw e (omega arith)
  | inr e ↦ rw e (ground (arith, pow_le w 63 (ground arith)))
]

-- The number of a range that is nearest to one.
abbrev pub clamp : ℤ → ℤ → ℤ → ℤ
clamp low high s = if ltb_ℤ high s then high else if ltb_ℤ s low then low else s

-- The number, if it is in the range.
abbrev pub in_range : ℤ → ℤ → ℤ → Option ℤ
in_range low high s = if ltb_ℤ high s || ltb_ℤ s low then none else some s

pub within-IsI64 :
    (low high s : ℤ) → IsI64 low → IsI64 high → ltb_ℤ high s ≡ false → ltb_ℤ s low ≡ false → IsI64 s
within-IsI64 (pos a) (pos b) (pos n) l h e f = ground arith
within-IsI64 (pos a) (negsuc b) (pos n) l h e f = absurd (ground arith)
within-IsI64 (negsuc a) (pos b) (pos n) l h e f = ground arith
within-IsI64 (negsuc a) (negsuc b) (pos n) l h e f = absurd (ground arith)
within-IsI64 (pos a) high (negsuc n) l h e f = absurd (ground arith)
within-IsI64 (negsuc a) high (negsuc n) l h e f = ground arith

wrapped-inside :
    (w : ℕ) (signed : Bool) (s : ℤ)
    → IsEncoding w signed
    → ltb_ℤ (bitfield_max w signed) s ≡ false
    → ltb_ℤ s (bitfield_min w signed) ≡ false
    → wrap_bitfield (wrap64 s) w signed ≡ s
wrapped-inside w signed s e h l =
    ap (λ t. wrap_bitfield t w signed)
      (wrap64-fits s (
        within-IsI64 (bitfield_min w signed) (bitfield_max w signed) s
          (bitfield_min-IsI64 w signed e.0 e.1.0) (bitfield_max-IsI64 w signed e.0 e.1.0) h l))
    ∙ wrap_bitfield-inside s w signed e (l, h)

resolve_sat :
    (high low : Bool) (wrapped min max s : ℤ)
    → (high ≡ false → low ≡ false → wrapped ≡ s)
    → resolve_overflow sat high low wrapped min max
      ≡ some (if high then max else if low then min else s)
unfolding resolve_overflow
resolve_sat true low wrapped min max s h = refl
resolve_sat false true wrapped min max s h = refl
resolve_sat false false wrapped min max s h = ap some (h refl refl)

resolve_fail :
    (high low : Bool) (wrapped min max s : ℤ)
    → (high ≡ false → low ≡ false → wrapped ≡ s)
    → resolve_overflow fail high low wrapped min max ≡ (if high || low then none else some s)
unfolding resolve_overflow
resolve_fail true low wrapped min max s h = refl
resolve_fail false true wrapped min max s h = refl
resolve_fail false false wrapped min max s h = ap some (h refl refl)

-- INCRBY of a field that is not u64, with values of an int64: SAT gives what is nearest to the sum in the
-- range of the encoding, and FAIL gives the sum if it is in the range, and rejects it if not.
pub incr_value-clamp :
    (w : ℕ) (signed : Bool) (old v : ℤ)
    → IsEncoding w signed
    → IsI64 old
    → IsI64 v
    → (incr_value sat w signed old v
        ≡ some (clamp (bitfield_min w signed) (bitfield_max w signed) (old +ℤ v)))
      × (incr_value fail w signed old v
          ≡ in_range (bitfield_min w signed) (bitfield_max w signed) (old +ℤ v))
unfolding incr_value
incr_value-clamp w signed old v e ho hv =
    let sum = add_overflow-Sum old v ho hv in
    let min = bitfield_min w signed in
    let max = bitfield_max w signed in
    let s = old +ℤ v in
    let inside = wrapped-inside w signed s e in
    rw
      (
        is_high-eq max old v (bitfield_max-IsI64 w signed e.0 e.1.0) sum,
        is_low-eq min old v (bitfield_min-IsI64 w signed e.0 e.1.0) sum,
      )
      (
        resolve_sat (ltb_ℤ max s) (ltb_ℤ s min) (wrap_bitfield (wrap64 s) w signed) min max s
            inside,
        resolve_fail (ltb_ℤ max s) (ltb_ℤ s min) (wrap_bitfield (wrap64 s) w signed) min max s
            inside,
      )
