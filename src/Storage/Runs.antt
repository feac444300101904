-- ===== src/Storage/Runs.antt =====
-- Runs of internal/storage on concrete values.
use postkeys.Base.{ℕ, ◌+◌, ◌*◌, ◌%◌, ◌^◌, ◌<◌, ◌≡◌, arith, true, false, inl, inr, some}
use postkeys.Base.{[], ◌∷◌}
use postkeys.Base.Int.{pos, negsuc, ◌+ℤ◌}
use postkeys.Base.Bytes.{Bytes, codes, parse_int, non_negative, parse_nat, parse_digits}
use postkeys.Storage.HyperLogLog.{new_sketch, merge, add, add_hash, murmur64}
use postkeys.Storage.HyperLogLog.Bounds.{
  add-add_hash, created, added, merged, Reachable-IsBounded, IsBounded,
}
use postkeys.Storage.BitField.{
  sat, fail, bitfield_min, bitfield_max, wrap_bitfield, low_bits, get_bit_field, set_bit_field,
  value_of, bit_at, bit_of, wrap64,
}
use postkeys.Storage.BitField.Wrap.{wrap_bitfield-IsWithin, IsWithin}
use postkeys.Storage.BitField.Apply.{incr_value, bit_field, grow, bit_width, is_signed}
use postkeys.Storage.BitField.Overflow.{incr_value-clamp, clamp, in_range}
use postkeys.Storage.BitField.RoundTrip.{get_bit_field-set_bit_field}
use postkeys.Storage.BitField.Saturate.{bit_field-saturates, incr_op, read_op}

-- A hash of 64 bits.
abbrev sum_hash : Bytes → ℕ
sum_hash [] = 14695981039346656037
sum_hash (c ∷ rest) = (sum_hash rest * 1099511628211 + c) % 2 ^ 64

sum_hash-lt : (element : Bytes) → sum_hash element < 2 ^ 64
sum_hash-lt [] = omega arith
sum_hash-lt (c ∷ rest) = omega arith

add-add_hash_example :
    add sum_hash (codes "user:1") new_sketch
    ≡ add_hash (murmur64 sum_hash (codes "user:1")) new_sketch
add-add_hash_example =
    add-add_hash sum_hash (codes "user:1") new_sketch (sum_hash-lt (codes "user:1"))

Reachable-IsBounded_example : IsBounded (merge (add sum_hash (codes "a") new_sketch).0 new_sketch)
Reachable-IsBounded_example =
    Reachable-IsBounded sum_hash sum_hash-lt
      (merge (add sum_hash (codes "a") new_sketch).0 new_sketch)
      (merged (add sum_hash (codes "a") new_sketch).0 new_sketch
        (added (codes "a") new_sketch created) created)

wrap_bitfield-IsWithin_example :
    IsWithin 8 true (wrap_bitfield (pos 200) 8 true)
    × (low_bits 8 (wrap_bitfield (pos 200) 8 true) ≡ low_bits 8 (pos 200))
wrap_bitfield-IsWithin_example = wrap_bitfield-IsWithin (pos 200) 8 true (omega arith) (omega arith)

incr_value-clamp_example :
    (incr_value sat 8 true (pos 100) (pos 100)
      ≡ some (clamp (bitfield_min 8 true) (bitfield_max 8 true) (pos 100 +ℤ pos 100)))
    × (incr_value fail 8 true (pos 100) (pos 100)
        ≡ in_range (bitfield_min 8 true) (bitfield_max 8 true) (pos 100 +ℤ pos 100))
incr_value-clamp_example =
    incr_value-clamp 8 true (pos 100) (pos 100)
      (omega arith, (omega arith, λ e. absurd (omega (arith, e)))) (omega arith) (omega arith)

abbrev two_bytes : Bytes
two_bytes = 17 ∷ 255 ∷ []

get_bit_field-set_bit_field_example :
    (get_bit_field (set_bit_field two_bytes 3 5 (negsuc 2)) 3 5 true
      ≡ wrap_bitfield (negsuc 2) 5 true)
    × (get_bit_field (set_bit_field two_bytes 3 5 (negsuc 2)) 8 8 false
        ≡ get_bit_field two_bytes 8 8 false)
get_bit_field-set_bit_field_example =
    get_bit_field-set_bit_field two_bytes 3 5 8 8 true false (negsuc 2)
      (omega arith, (omega arith, λ e. absurd (omega (arith, e)))) (omega arith) (omega arith)
      (inr (omega arith))

bit_field-saturates_example :
    let (buffer, answer) =
      bit_field (incr_op (codes "i8") 8 (pos 100) ∷ read_op (codes "i8") 8 ∷ []) (0 ∷ 100 ∷ []) in
    (answer ≡ (some (pos 127) ∷ some (pos 127) ∷ [], true))
    × ((get_bit_field buffer 8 8 true ≡ pos 127) × (get_bit_field buffer 0 8 false ≡ pos 0))
unfolding bit_width parse_int non_negative parse_nat parse_digits bitfield_max is_signed ◌+ℤ◌
    get_bit_field value_of bit_at bit_of grow wrap64
bit_field-saturates_example =
    bit_field-saturates (0 ∷ 100 ∷ []) (codes "i8") 8 0 8 false (pos 100)
      (omega arith, (omega arith, λ e. absurd (omega (arith, e)))) (omega arith) (inl (omega arith))
