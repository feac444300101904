-- ===== src/Storage/BitField/RoundTrip.antt =====
-- A field read after a field was stored.
use native.Mathlib.Nat.{mod-eq_of_lt}
use postkeys.Base.{
  ◌⊎◌, ℕ, zero, suc, ◌+◌, ◌-◌, ◌*◌, ◌^◌, ◌≤◌, ◌<◌, ◌≡◌, refl, sym, ap, ◌∙◌, arith, Bool, true,
  false, inl, inr, Bool-cases,
}
use postkeys.Base.{ltb, ◌==◌, compare_numbers, length}
use postkeys.Base.Int.{ℤ, pos, negsuc, IsI64}
use postkeys.Base.Bytes.{Bytes}
use postkeys.Storage.BitField.{
  bitfield_min, bitfield_max, low_bits, get_loop, set_loop, get_bit_field, set_bit_field, value_of,
  wrap_bitfield,
}
use postkeys.Storage.BitField.Wrap.{
  IsWithin, IsEncoding, Fits, within-Fits, low_bits-inside, low_bits-lt, wrap_bitfield-IsWithin,
  wrap_bitfield-wide,
}
use postkeys.Storage.BitField.Access.{get_loop-set_loop, set_loop-outside}
use postkeys.Storage.BitField.Overflow.{wrap64-fits, pow_le}

low_bits-pos_small : (w n : ℕ) → n < 2 ^ w → low_bits w (pos n) ≡ n
unfolding low_bits
low_bits-pos_small w n h = mod-eq_of_lt h

low_bits-neg_small : (w n : ℕ) → n < 2 ^ w → low_bits w (negsuc n) ≡ 2 ^ w - 1 - n
unfolding low_bits
low_bits-neg_small w n h = ap (λ t. 2 ^ w - 1 - t) (mod-eq_of_lt h)

value_of-positive : (k n : ℕ) → k < 64 → n < 2 ^ k → value_of (suc k) true n ≡ pos n
unfolding value_of
value_of-positive k n h small =
    ground (arith, wrap64-fits (pos n) (ground (arith, pow_le k 63 (omega arith))))

value_of-negative : (k n : ℕ) → n < 2 ^ k → value_of (suc k) true (2 ^ suc k - 1 - n) ≡ negsuc n
unfolding value_of
value_of-negative k n small = ground arith

value_of-unsigned : (w n : ℕ) → w < 64 → n < 2 ^ w → value_of w false n ≡ pos n
unfolding value_of
value_of-unsigned w n h small = wrap64-fits (pos n) (omega (arith, pow_le w 63 (omega arith)))

signed-value :
    (k : ℕ) (v : ℤ) → k < 64 → Fits (2 ^ k) v → value_of (suc k) true (low_bits (suc k) v) ≡ v
signed-value k (pos n) h f =
    rw (low_bits-pos_small (suc k) n (omega arith)) (value_of-positive k n h f)
signed-value k (negsuc n) h f =
    rw (low_bits-neg_small (suc k) n (omega arith)) (value_of-negative k n f)

value_of-low_bits :
    (w : ℕ) (signed : Bool) (v : ℤ)
    → IsEncoding w signed
    → IsWithin w signed v
    → value_of w signed (low_bits w v) ≡ v
value_of-low_bits zero signed v e h = absurd (omega (arith, e.0))
value_of-low_bits (suc k) true v e h = signed-value k v (omega (arith, e.1.0)) (within-Fits k v h)
value_of-low_bits (suc k) false v e h = elim (Bool-cases (suc k == 64)) [
  | inl u ↦ absurd (ground (arith, e.1.1 (ground arith)))
  | inr u ↦
      let narrow : k < 63 = ground (arith, e.1.0) in
      value_of-unsigned (suc k) (low_bits (suc k) v) (omega arith) (low_bits-lt (suc k) v)
      ∙ low_bits-inside k v narrow h
]

i64-IsWithin : (v : ℤ) → IsI64 v → IsWithin 64 true v
unfolding bitfield_min bitfield_max
i64-IsWithin (pos n) h = (ground arith, ground arith)
i64-IsWithin (negsuc n) h = (ground arith, ground arith)

full_range :
    (w : ℕ) (signed : Bool) (v : ℤ) → w ≡ 64 → signed ≡ true → IsI64 v → IsWithin w signed v
full_range w signed v full negative i = rw (full, negative) (i64-IsWithin v i)

wrapped-value :
    (w : ℕ) (signed : Bool) (v : ℤ)
    → IsEncoding w signed
    → IsI64 v
    → value_of w signed (low_bits w v) ≡ wrap_bitfield v w signed
wrapped-value w signed v e i = elim (Bool-cases (ltb w 64)) [
  | inl narrow ↦
      let kept = wrap_bitfield-IsWithin v w signed e.0 (ground arith) in
      sym (ap (value_of w signed) kept.1)
      ∙ value_of-low_bits w signed (wrap_bitfield v w signed) e kept.0
  | inr wide ↦
      let full : w ≡ 64 = ground (arith, e.1.0) in
      value_of-low_bits w signed v e (full_range w signed v full (e.1.1 full) i)
      ∙ sym (wrap_bitfield-wide v w signed (ground arith))
]

-- The field is within the string.
abbrev pub IsInside : Bytes → ℕ → ℕ → Type 0
IsInside bytes p w = p + w ≤ 8 * length bytes

get_loop-outside :
    (bytes : Bytes) (p w q n : ℕ) (v : ℤ)
    → IsInside bytes p w
    → (q + n ≤ p) ⊎ (p + w ≤ q)
    → get_loop (set_loop bytes p w v) q n ≡ get_loop bytes q n
unfolding get_loop
get_loop-outside bytes p w q zero v le apart = refl
get_loop-outside bytes p w q (suc n) v le apart =
    rw
      (
        set_loop-outside bytes p w q v le
            (elim apart [ inl h ↦ inl (omega arith) | inr h ↦ inr h ]),
        get_loop-outside bytes p w (q + 1) n v le
            (elim apart [ inl h ↦ inl (omega arith) | inr h ↦ inr (omega arith) ]),
      )
      refl

-- Where the field is within the string and its encoding is not u64, reading it after an int64 was
-- stored gives what WRAP makes of that number, and a field that shares no bit with it reads as before.
pub get_bit_field-set_bit_field :
    (bytes : Bytes) (p w q n : ℕ) (signed other : Bool) (v : ℤ)
    → IsEncoding w signed
    → IsI64 v
    → IsInside bytes p w
    → (q + n ≤ p) ⊎ (p + w ≤ q)
    → (get_bit_field (set_bit_field bytes p w v) p w signed ≡ wrap_bitfield v w signed)
      × (get_bit_field (set_bit_field bytes p w v) q n other ≡ get_bit_field bytes q n other)
unfolding get_bit_field set_bit_field
get_bit_field-set_bit_field bytes p w q n signed other v e i le apart = (
  ap (value_of w signed) (get_loop-set_loop bytes p w v le) ∙ wrapped-value w signed v e i,
  ap (value_of n other) (get_loop-outside bytes p w q n v le apart),
)
