-- ===== src/Storage/HyperLogLog/Bounds.antt =====
-- Ranks and registers stay within what a hash of 64 bits can give, and the two ways to add agree.
use Prim.Native.Nat.{bit_xor, bit_xor-bitwise, digits, differ}
use postkeys.Base.{
  Bool-cases, inl, inr, ◌%◌, ℕ, zero, suc, ◌*◌, ◌/◌, ◌^◌, ◌≤◌, ◌<◌, ◌≡◌, refl, [], ◌∷◌, arith,
}
use postkeys.Base.{ltb, compare_numbers, get_or, set, replicate, All}
use postkeys.Base.Bytes.{Bytes}
use postkeys.Storage.HyperLogLog.{
  Sketch, new_sketch, add, add_hash, raise, merge, registers, register_index, add_rank,
  register_rank, murmur64, leading_zeros, binary_digits, at_least_one,
}

digits-le : (f k x : ℕ) → x < 2 ^ k → binary_digits f x ≤ k
unfolding binary_digits
digits-le zero k x h = omega arith
digits-le (suc f) zero x h = ground arith
digits-le (suc f) (suc k) x h = ground (arith, digits-le f k (x / 2))

-- The digits above the index are at most 50.
zeros-upper : (hash : ℕ) → hash < 2 ^ 64 → 14 ≤ leading_zeros (hash / registers)
unfolding leading_zeros
zeros-upper hash h = omega (arith, digits-le 64 50 (hash / registers) (omega arith))

zeros-le : (x : ℕ) → leading_zeros x ≤ 64
unfolding leading_zeros
zeros-le x = omega arith

add_rank-bounds : (hash : ℕ) → hash < 2 ^ 64 → (1 ≤ add_rank hash) × (add_rank hash ≤ 51)
unfolding add_rank at_least_one
add_rank-bounds hash h = ground (arith, zeros-upper hash h, zeros-le (hash / registers))

differ-le : (x y : ℕ) → x < 2 → y < 2 → differ x y ≤ 1
differ-le zero y hx hy = omega arith
differ-le (suc x) zero hx hy = omega arith
differ-le (suc x) (suc y) hx hy = differ-le x y (omega arith) (omega arith)

digits-lt : (n k a b : ℕ) → a < 2 ^ k → b < 2 ^ k → digits (λ x. x) differ n a b < 2 ^ k
digits-lt zero k a b ha hb = hb
digits-lt (suc n) k zero b ha hb = hb
digits-lt (suc n) zero (suc a) b ha hb = absurd (omega arith)
digits-lt (suc n) (suc k) (suc a) b ha hb = omega (
  arith,
  digits-lt n k (suc a / 2) (b / 2) (omega arith) (omega arith),
  differ-le (suc a % 2) (b % 2) (omega arith) (omega arith),
)

bit_xor-lt : (k a b : ℕ) → a < 2 ^ k → b < 2 ^ k → bit_xor a b < 2 ^ k
bit_xor-lt k a b ha hb = omega (arith, bit_xor-bitwise a b, digits-lt a k a b ha hb)

murmur64-lt :
    (fnv : Bytes → ℕ) (element : Bytes) → fnv element < 2 ^ 64 → murmur64 fnv element < 2 ^ 64
unfolding murmur64
murmur64-lt fnv element h =
    let k1 : ℕ = bit_xor (fnv element) (fnv element / 2 ^ 33) in
    let k2 : ℕ = (k1 * 0xff51afd7ed558ccd) % 2 ^ 64 in
    let k3 : ℕ = bit_xor k2 (k2 / 2 ^ 33) in
    let k4 : ℕ = (k3 * 0xc4ceb9fe1a85ec53) % 2 ^ 64 in
    bit_xor-lt 64 k4 (k4 / 2 ^ 33) (omega arith) (omega arith)

add_rank-eq-register_rank : (hash : ℕ) → hash < 2 ^ 64 → add_rank hash ≡ register_rank hash
unfolding add_rank register_rank at_least_one
add_rank-eq-register_rank hash h = ground (arith, zeros-upper hash h, zeros-le (hash / registers))

-- For a hash of 64 bits, `AddHash` of the hash of an element does what `Add` does with the element.
pub add-add_hash :
    (fnv : Bytes → ℕ) (element : Bytes) (h : Sketch)
    → fnv element < 2 ^ 64
    → add fnv element h ≡ add_hash (murmur64 fnv element) h
unfolding add add_hash
add-add_hash fnv element h small =
    rw (add_rank-eq-register_rank (murmur64 fnv element) (murmur64-lt fnv element small)) refl

-- Every register is a rank or 0, and so fits a byte many times over.
abbrev pub IsBounded : Sketch → Type 0
IsBounded h = All (λ r. r ≤ 51) h

IsBounded-set : (h : Sketch) (i r : ℕ) → r ≤ 51 → IsBounded h → IsBounded (set h i r)
IsBounded-set [] i r le b = b
IsBounded-set (x ∷ h) zero r le b = (le, b.1)
IsBounded-set (x ∷ h) (suc i) r le b = (b.0, IsBounded-set h i r le b.1)

IsBounded-raise : (h : Sketch) (i r : ℕ) → r ≤ 51 → IsBounded h → IsBounded (raise i r h).0
unfolding raise
IsBounded-raise h i r le b = elim (Bool-cases (ltb (get_or h i 0) r)) [
  | inl e ↦ rw e (IsBounded-set h i r le b)
  | inr e ↦ rw e b
]

IsBounded-merge : (h other : Sketch) → IsBounded h → IsBounded other → IsBounded (merge h other)
unfolding merge
IsBounded-merge [] other b c = b
IsBounded-merge (x ∷ h) [] b c = b
IsBounded-merge (x ∷ h) (y ∷ other) b c = (ground arith, IsBounded-merge h other b.1 c.1)

IsBounded-zeros : (n : ℕ) → IsBounded (replicate n 0)
IsBounded-zeros zero = tt
IsBounded-zeros (suc n) = (omega arith, IsBounded-zeros n)

-- A sketch that PFADD and PFMERGE can make, each on sketches so made.
pub data Reachable (fnv : Bytes → ℕ) : Sketch → Type 0 where
  created : Reachable fnv new_sketch
  added : (element : Bytes) (h : Sketch) → Reachable fnv h → Reachable fnv (add fnv element h).0
  merged :
      (h other : Sketch) → Reachable fnv h → Reachable fnv other → Reachable fnv (merge h other)

-- With a hash of 64 bits, no register of a sketch that was made by adding and merging is above 51.
pub Reachable-IsBounded :
    (fnv : Bytes → ℕ)
    → ((element : Bytes) → fnv element < 2 ^ 64)
    → (h : Sketch) → Reachable fnv h
    → IsBounded h
unfolding add new_sketch
Reachable-IsBounded fnv small h created = IsBounded-zeros registers
Reachable-IsBounded fnv small _ (added element h r) =
    IsBounded-raise h (register_index (murmur64 fnv element)) (add_rank (murmur64 fnv element))
      (add_rank-bounds (murmur64 fnv element) (murmur64-lt fnv element (small element))).1
      (Reachable-IsBounded fnv small h r)
Reachable-IsBounded fnv small _ (merged h other r s) =
    IsBounded-merge h other (Reachable-IsBounded fnv small h r)
      (Reachable-IsBounded fnv small other s)
