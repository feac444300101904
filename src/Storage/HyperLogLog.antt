-- ===== src/Storage/HyperLogLog.antt =====
-- internal/storage/hyperloglog.go, but for the estimate, which is a computation on floats.
pub mod Merge
pub mod Bounds
pub mod Commands
use Prim.Native.Nat.{bit_xor}
use postkeys.Base.{
  ℕ, zero, suc, ◌+◌, ◌-◌, ◌*◌, ◌/◌, ◌%◌, ◌^◌, Bool, true, false, List, [], ◌∷◌, ◌++◌,
}
use postkeys.Base.{leb, ltb, ◌==◌, compare_numbers, if◌then◌else◌, length, get_or, set, replicate}
use postkeys.Base.Bytes.{Bytes}

abbrev pub precision : ℕ
precision = 14

abbrev pub registers : ℕ
registers = 2 ^ 14

-- The registers, of which there are 16384, each a byte.
abbrev pub Sketch : Type 0
Sketch = List ℕ

unfoldable pub new_sketch : Sketch
new_sketch = replicate registers 0

-- A stored value of another length is read as the empty sketch.
unfoldable pub from_bytes : Bytes → Sketch
from_bytes bytes = if length bytes == registers then bytes else new_sketch

unfoldable pub to_bytes : Sketch → Bytes
to_bytes h = h

-- `bits.LeadingZeros64` is 64 less the number of binary digits; the fuel is a bound on these.
binary_digits : ℕ → ℕ → ℕ
binary_digits zero x = 0
binary_digits (suc f) x = let rest = binary_digits f (x / 2) in if x == 0 then 0 else suc rest

unfoldable pub leading_zeros : ℕ → ℕ
unfolding binary_digits
leading_zeros x = 64 - binary_digits 64 x

-- `fnv` is the FNV-1a hash of Go's library. The finalizer works modulo 2 ^ 64.
unfoldable pub murmur64 : (Bytes → ℕ) → Bytes → ℕ
murmur64 fnv bytes =
    let k1 : ℕ = bit_xor (fnv bytes) (fnv bytes / 2 ^ 33) in
    let k2 : ℕ = (k1 * 0xff51afd7ed558ccd) % 2 ^ 64 in
    let k3 : ℕ = bit_xor k2 (k2 / 2 ^ 33) in
    let k4 : ℕ = (k3 * 0xc4ceb9fe1a85ec53) % 2 ^ 64 in bit_xor k4 (k4 / 2 ^ 33)

-- A byte.
abbrev uint8 : ℕ → ℕ
uint8 x = x % 256

at_least_one : ℕ → ℕ
at_least_one r = if ltb r 1 then 1 else r

-- The rank as `Add` computes it.
unfoldable pub add_rank : ℕ → ℕ
unfolding at_least_one
add_rank hash =
    let upper : ℕ = hash / registers in
    at_least_one (
      if upper == 0
      then uint8 (64 - precision + 1)
      else uint8 (leading_zeros upper + 1 - precision))

-- The rank as `getRegisterFromHash` computes it.
unfoldable pub register_rank : ℕ → ℕ
unfolding at_least_one
register_rank hash =
    let upper : ℕ = hash / registers in
    let zeros : ℕ = leading_zeros upper in
    at_least_one (
      if upper == 0
      then uint8 (64 - precision + 1)
      else if ltb precision zeros
      then uint8 (zeros - precision + 1)
      else 1)

unfoldable pub register_index : ℕ → ℕ
register_index hash = hash % registers

-- The last lines of `Add` and `AddHash`: the register takes a higher rank.
raise : ℕ → ℕ → Sketch → Sketch × Bool
raise index rank h = if ltb (get_or h index 0) rank then (set h index rank, true) else (h, false)

unfoldable pub add : (Bytes → ℕ) → Bytes → Sketch → Sketch × Bool
unfolding raise
add fnv element h =
    raise (register_index (murmur64 fnv element)) (add_rank (murmur64 fnv element)) h

unfoldable pub add_hash : ℕ → Sketch → Sketch × Bool
unfolding raise
add_hash hash h = raise (register_index hash) (register_rank hash) h

unfoldable pub merge : Sketch → Sketch → Sketch
merge [] other = []
merge (x ∷ h) [] = x ∷ h
merge (x ∷ h) (y ∷ other) = (if ltb x y then y else x) ∷ merge h other

unfoldable pub is_empty : Sketch → Bool
is_empty [] = true
is_empty (x ∷ h) = let rest = is_empty h in if ltb 0 x then false else rest
