-- ===== src/Storage/BitField/Access.antt =====
-- Reading a field gives what was stored in it, and storing changes no bit outside of the field.
use native.Mathlib.Nat.{mod-eq_of_lt, mod-lt, div-add-mod, add-mul-mod_self_left, pow-succ'}
use postkeys.Base.{
  ◌⊎◌, ℕ, zero, suc, ◌+◌, ◌-◌, ◌*◌, ◌/◌, ◌%◌, ◌^◌, ◌≤◌, ◌<◌, ◌≡◌, refl, sym, ap, ◌∙◌, arith, true,
  inl, inr, Bool-cases,
}
use postkeys.Base.{[], ◌∷◌, ◌==◌, compare_numbers, length, get_or, set, length-set}
use postkeys.Base.Int.{ℤ, pos, negsuc}
use postkeys.Base.Bytes.{Bytes}
use postkeys.Storage.BitField.Wrap.{pow_pos}
use postkeys.Storage.BitField.{
  low_bits, bit_of, put_bit_of, bit_at, put_bit_at, get_loop, bit_of_int, set_loop,
}

bit_of-put_same : (k x b : ℕ) → b < 2 → bit_of (put_bit_of x k b) k ≡ b
unfolding bit_of put_bit_of
bit_of-put_same zero x b h = omega arith
bit_of-put_same (suc k) x b h = ground (arith, bit_of-put_same k (x / 2) b h)

bit_of-put_other : (j k x b : ℕ) → b < 2 → ((j ≡ k) → ⊥) → bit_of (put_bit_of x k b) j ≡ bit_of x j
unfolding bit_of put_bit_of
bit_of-put_other zero zero x b h ne = absurd (ne refl)
bit_of-put_other zero (suc k) x b h ne = omega arith
bit_of-put_other (suc j) zero x b h ne = ap (λ t. bit_of t j) (omega arith)
bit_of-put_other (suc j) (suc k) x b h ne =
    ap (λ t. bit_of t j) (omega arith) ∙ bit_of-put_other j k (x / 2) b h (λ e. ne (ap suc e))

get_or-set_same : (xs : Bytes) (i v : ℕ) → i < length xs → get_or (set xs i v) i 0 ≡ v
get_or-set_same [] i v h = absurd (omega arith)
get_or-set_same (x ∷ xs) zero v h = refl
get_or-set_same (x ∷ xs) (suc i) v h = get_or-set_same xs i v (omega arith)

get_or-set_other :
    (xs : Bytes) (i j v : ℕ) → ((j ≡ i) → ⊥) → get_or (set xs i v) j 0 ≡ get_or xs j 0
get_or-set_other [] i j v ne = refl
get_or-set_other (x ∷ xs) zero zero v ne = absurd (ne refl)
get_or-set_other (x ∷ xs) zero (suc j) v ne = refl
get_or-set_other (x ∷ xs) (suc i) zero v ne = refl
get_or-set_other (x ∷ xs) (suc i) (suc j) v ne = get_or-set_other xs i j v (λ e. ne (ap suc e))

bit_at-put_same :
    (bytes : Bytes) (p b : ℕ) → b < 2 → p < 8 * length bytes → bit_at (put_bit_at bytes p b) p ≡ b
unfolding bit_at put_bit_at
bit_at-put_same bytes p b h le =
    ap (λ t. bit_of t (7 - p % 8))
      (get_or-set_same bytes (p / 8) (put_bit_of (get_or bytes (p / 8) 0) (7 - p % 8) b)
        (omega arith))
    ∙ bit_of-put_same (7 - p % 8) (get_or bytes (p / 8) 0) b h

same_number_eq : (a b : ℕ) → (a == b) ≡ true → a ≡ b
same_number_eq a b e = ground arith

bit_at-put_other :
    (bytes : Bytes) (p q b : ℕ)
    → b < 2
    → p < 8 * length bytes
    → ((q ≡ p) → ⊥)
    → bit_at (put_bit_at bytes p b) q ≡ bit_at bytes q
unfolding bit_at put_bit_at
bit_at-put_other bytes p q b h le ne = elim (Bool-cases (q / 8 == p / 8)) [
  | inl e ↦ rw (same_number_eq (q / 8) (p / 8) e) (
      ap (λ t. bit_of t (7 - q % 8))
        (get_or-set_same bytes (p / 8) (put_bit_of (get_or bytes (p / 8) 0) (7 - p % 8) b)
          (omega arith))
      ∙ bit_of-put_other (7 - q % 8) (7 - p % 8) (get_or bytes (p / 8) 0) b h
          (λ i. ne (ground arith)))
  | inr e ↦
      ap (λ t. bit_of t (7 - q % 8))
        (get_or-set_other bytes (p / 8) (q / 8) (put_bit_of (get_or bytes (p / 8) 0) (7 - p % 8) b)
          (λ i. ground (arith, i)))
]

pub length-set_loop :
    (bytes : Bytes) (p n : ℕ) (v : ℤ) → length (set_loop bytes p n v) ≡ length bytes
unfolding set_loop put_bit_at
length-set_loop bytes p zero v = refl
length-set_loop bytes p (suc n) v =
    length-set_loop (put_bit_at bytes p (bit_of_int v n)) (p + 1) n v
    ∙ length-set bytes (p / 8) (put_bit_of (get_or bytes (p / 8) 0) (7 - p % 8) (bit_of_int v n))

length-put : (bytes : Bytes) (p b : ℕ) → length (put_bit_at bytes p b) ≡ length bytes
unfolding put_bit_at
length-put bytes p b = length-set bytes (p / 8) (put_bit_of (get_or bytes (p / 8) 0) (7 - p % 8) b)

bit_of_int-lt : (v : ℤ) (n : ℕ) → bit_of_int v n < 2
unfolding bit_of_int
bit_of_int-lt (pos m) n = omega arith
bit_of_int-lt (negsuc m) n = omega arith

-- Outside of the field.
abbrev pub IsOutside : ℕ → ℕ → ℕ → Type 0
IsOutside p n q = (q < p) ⊎ (p + n ≤ q)

pub set_loop-outside :
    (bytes : Bytes) (p n q : ℕ) (v : ℤ)
    → p + n ≤ 8 * length bytes
    → IsOutside p n q
    → bit_at (set_loop bytes p n v) q ≡ bit_at bytes q
unfolding set_loop
set_loop-outside bytes p zero q v le out = refl
set_loop-outside bytes p (suc n) q v le out =
    set_loop-outside (put_bit_at bytes p (bit_of_int v n)) (p + 1) n q v
      (omega (arith, length-put bytes p (bit_of_int v n)))
      (elim out [ inl h ↦ inl (omega arith) | inr h ↦ inr (omega arith) ])
    ∙ bit_at-put_other bytes p q (bit_of_int v n) (bit_of_int-lt v n) (omega arith)
        (elim out [ inl h ↦ (λ e. omega arith) | inr h ↦ (λ e. omega arith) ])

doubled : (e c p r : ℕ) → p * (2 * e + c) + r ≡ (c * p + r) + (2 * p) * e
doubled e c p r = grind arith

small_mod : (c p r : ℕ) → c < 2 → r < p → (c * p + r) % (2 * p) ≡ c * p + r
small_mod zero p r hc hr = mod-eq_of_lt (omega arith)
small_mod (suc zero) p r hc hr = mod-eq_of_lt (omega arith)
small_mod (suc (suc c)) p r hc hr = absurd (omega arith)

mod-double : (m p : ℕ) → 0 < p → m % (2 * p) ≡ m / p % 2 * p + m % p
mod-double m p h =
    let d : ℕ = m / p in
    ap (λ t. t % (2 * p))
      (sym (div-add-mod m p)
        ∙ (ap (λ t. p * t + m % p) (sym (div-add-mod d 2)) ∙ doubled (d / 2) (d % 2) p (m % p)))
    ∙ (add-mul-mod_self_left (d % 2 * p + m % p) (2 * p) (d / 2)
        ∙ small_mod (d % 2) p (m % p) (omega arith) (mod-lt m h))

mod-split : (m n : ℕ) → m / 2 ^ n % 2 * 2 ^ n + m % 2 ^ n ≡ m % 2 ^ suc n
mod-split m n = sym (ap (λ t. m % t) (pow-succ' 2 n) ∙ mod-double m (2 ^ n) (pow_pos n))

flip_bit : (c p r q : ℕ) → c < 2 → r < p → c * p + r ≡ q → (1 - c) * p + (p - 1 - r) ≡ 2 * p - 1 - q
flip_bit zero p r q hc hr e = omega arith
flip_bit (suc zero) p r q hc hr e = omega arith
flip_bit (suc (suc c)) p r q hc hr e = absurd (omega arith)

low_bits-split : (n : ℕ) (v : ℤ) → bit_of_int v n * 2 ^ n + low_bits n v ≡ low_bits (suc n) v
unfolding low_bits bit_of_int
low_bits-split n (pos m) = mod-split m n
low_bits-split n (negsuc m) =
    flip_bit (m / 2 ^ n % 2) (2 ^ n) (m % 2 ^ n) (m % 2 ^ suc n) (omega arith)
      (mod-lt m (pow_pos n)) (mod-split m n)
    ∙ ap (λ t. t - 1 - m % 2 ^ suc n) (sym (pow-succ' 2 n))

low_bits-none : (v : ℤ) → 0 ≡ low_bits 0 v
unfolding low_bits
low_bits-none (pos n) = omega arith
low_bits-none (negsuc n) = omega arith

pub get_loop-set_loop :
    (bytes : Bytes) (p n : ℕ) (v : ℤ)
    → p + n ≤ 8 * length bytes
    → get_loop (set_loop bytes p n v) p n ≡ low_bits n v
unfolding set_loop get_loop
get_loop-set_loop bytes p zero v le = low_bits-none v
get_loop-set_loop bytes p (suc n) v le =
    let b : ℕ = bit_of_int v n in
    let after : Bytes = put_bit_at bytes p b in
    rw
      (
        set_loop-outside after (p + 1) n p v (omega (arith, length-put bytes p b))
            (inl (omega arith)),
        bit_at-put_same bytes p b (bit_of_int-lt v n) (omega arith),
        get_loop-set_loop after (p + 1) n v (omega (arith, length-put bytes p b)),
      )
      (low_bits-split n v)
