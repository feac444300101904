-- ===== src/Storage/BitField/Saturate.antt =====
-- A saturating counter: INCRBY under SAT followed by GET, as one BITFIELD command runs them.
use postkeys.Base.{
  ℕ, zero, suc, ◌+◌, ◌-◌, ◌/◌, ◌%◌, ◌^◌, ◌≤◌, ◌<◌, ◌≡◌, ◌⊎◌, refl, ap, ◌∙◌, arith, Bool, true,
  false, inl, inr, Bool-cases, some,
}
use postkeys.Base.{
  [], ◌∷◌, ◌++◌, leb, ltb, ◌==◌, compare_numbers, length, length-append, replicate, append-nil,
}
use postkeys.Base.Int.{ℤ, pos, negsuc, IsI64, ltb_ℤ, ◌+ℤ◌}
use postkeys.Base.Bytes.{Bytes}
use postkeys.Storage.BitField.{
  sat, bitfield_min, bitfield_max, set_loop, get_bit_field, set_bit_field, value_of, wrap64,
  get_loop,
}
use postkeys.Storage.BitField.Wrap.{IsEncoding, wrap_bitfield-inside}
use postkeys.Storage.BitField.Access.{length-set_loop}
use postkeys.Storage.BitField.RoundTrip.{IsInside, get_bit_field-set_bit_field}
use postkeys.Storage.BitField.Overflow.{
  clamp, incr_value-clamp, within-IsI64, bitfield_min-IsI64, bitfield_max-IsI64, half_le,
}
use postkeys.Storage.BitField.Apply.{
  BitFieldOp, incr_by, get_op, grow, run_op, stored, value_or, apply_op, bit_field, bit_width,
  is_signed,
}

wrap64-IsI64 : (v : ℤ) → IsI64 (wrap64 v)
unfolding wrap64
wrap64-IsI64 (pos n) = ground arith
wrap64-IsI64 (negsuc n) = ground arith

positive : (w : ℕ) → 0 < w → ltb 0 w ≡ true
positive w h = ground arith

negative-size : (w r : ℕ) → 0 < w → w ≤ 64 → 2 ^ (w - 1) ≤ r → 2 ^ w - r - 1 < 2 ^ 63
negative-size zero r h le e = absurd (omega arith)
negative-size (suc k) r h le e = ground (arith, half_le (suc k) h le)

value_of-IsI64 : (w r : ℕ) (signed : Bool) → 0 < w → w ≤ 64 → IsI64 (value_of w signed r)
unfolding value_of
value_of-IsI64 w r false h le = wrap64-IsI64 (pos r)
value_of-IsI64 w r true h le = elim (Bool-cases (leb (2 ^ (w - 1)) r)) [
  | inl e ↦ rw (e, positive w h) (negative-size w r h le (ground arith))
  | inr e ↦ rw (e, positive w h) (wrap64-IsI64 (pos r))
]

get_bit_field-IsI64 :
    (bytes : Bytes) (p w : ℕ) (signed : Bool)
    → 0 < w
    → w ≤ 64
    → IsI64 (get_bit_field bytes p w signed)
unfolding get_bit_field
get_bit_field-IsI64 bytes p w signed = value_of-IsI64 w (get_loop bytes p w) signed

length-zeros : (n : ℕ) → let zeros : Bytes = replicate n 0 in length zeros ≡ n
length-zeros zero = refl
length-zeros (suc n) = ap suc (length-zeros n)

length-grow : (p w : ℕ) (bytes : Bytes) → p / 8 + (w + p % 8 + 7) / 8 ≤ length (grow p w bytes)
unfolding grow
length-grow p w bytes =
    let missing : ℕ = p / 8 + (w + p % 8 + 7) / 8 - length bytes in
    omega (arith, length-append bytes (replicate missing 0), length-zeros missing)

grow-IsInside : (p w : ℕ) (bytes : Bytes) → IsInside (grow p w bytes) p w
grow-IsInside p w bytes = omega (arith, length-grow p w bytes)

grow-enough :
    (p w : ℕ) (bytes : Bytes) → p / 8 + (w + p % 8 + 7) / 8 ≤ length bytes → grow p w bytes ≡ bytes
unfolding grow
grow-enough p w bytes h =
    ap (λ n. bytes ++ replicate n 0) (nothing (p / 8 + (w + p % 8 + 7) / 8) (length bytes) h)
    ∙ append-nil bytes
  where
    nothing : (a b : ℕ) → a ≤ b → a - b ≡ 0
    nothing a b le = omega arith

clamp-between :
    (low high s : ℤ)
    → ltb_ℤ high low ≡ false
    → (ltb_ℤ (clamp low high s) low ≡ false) × (ltb_ℤ high (clamp low high s) ≡ false)
clamp-between low high s h = elim (Bool-cases (ltb_ℤ high s)) [
  | inl e ↦ rw e (h, ground arith)
  | inr e ↦ elim (Bool-cases (ltb_ℤ s low)) [
    | inl f ↦ rw (e, f) (ground arith, h)
    | inr f ↦ rw (e, f) (f, e)
  ]
]

bounds-ordered :
    (w : ℕ) (signed : Bool)
    → IsEncoding w signed
    → ltb_ℤ (bitfield_max w signed) (bitfield_min w signed) ≡ false
unfolding bitfield_max bitfield_min
bounds-ordered w true e = ground arith
bounds-ordered w false e = elim (Bool-cases (w == 64)) [
  | inl u ↦ absurd (ground (arith, e.1.1 (ground arith)))
  | inr u ↦ rw u (ground arith)
]

clamp-IsI64 :
    (w : ℕ) (signed : Bool) (s : ℤ)
    → IsEncoding w signed
    → IsI64 (clamp (bitfield_min w signed) (bitfield_max w signed) s)
clamp-IsI64 w signed s e =
    let min = bitfield_min w signed in
    let max = bitfield_max w signed in
    let between = clamp-between min max s (bounds-ordered w signed e) in
    within-IsI64 min max (clamp min max s) (bitfield_min-IsI64 w signed e.0 e.1.0)
      (bitfield_max-IsI64 w signed e.0 e.1.0) between.1 between.0

-- The operation, and a GET of the same field.
abbrev pub incr_op : Bytes → ℕ → ℤ → BitFieldOp
incr_op encoding offset v = record {
  op_type = incr_by;
  encoding = encoding;
  offset = offset;
  value = v;
  overflow = sat;
}

abbrev pub read_op : Bytes → ℕ → BitFieldOp
read_op encoding offset = record {
  op_type = get_op;
  encoding = encoding;
  offset = offset;
  value = pos 0;
  overflow = sat;
}

-- The field is in the string that was stored, which does not grow again.
stored-grow :
    (bytes : Bytes) (p w : ℕ) (c : ℤ)
    → grow p w (set_bit_field (grow p w bytes) p w c) ≡ set_bit_field (grow p w bytes) p w c
unfolding set_bit_field
stored-grow bytes p w c =
    let grown : Bytes = grow p w bytes in
    grow-enough p w (set_loop grown p w c)
      (omega (arith, length-set_loop grown p w c, length-grow p w bytes))

-- INCRBY under SAT of a field that is not u64, and then GET of it, both reply with what is nearest to the
-- sum of the old value and the increment in the range of the encoding. The string that is written back
-- holds that number in the field, and every field that shares no bit with it reads as it did before.
pub bit_field-saturates :
    (bytes encoding : Bytes) (p q n : ℕ) (other : Bool) (v : ℤ)
    → IsEncoding (bit_width encoding) (is_signed encoding)
    → IsI64 v
    → (q + n ≤ p) ⊎ (p + bit_width encoding ≤ q)
    → let w = bit_width encoding in
      let signed = is_signed encoding in
      let grown = grow p w bytes in
      let new =
        clamp
          (bitfield_min w signed)
          (bitfield_max w signed)
          (get_bit_field grown p w signed +ℤ v) in
      let (buffer, answer) = bit_field (incr_op encoding p v ∷ read_op encoding p ∷ []) bytes in
      (answer ≡ (some new ∷ some new ∷ [], true))
      × ((get_bit_field buffer p w signed ≡ new)
          × (get_bit_field buffer q n other ≡ get_bit_field grown q n other))
unfolding bit_field apply_op run_op stored value_or
bit_field-saturates bytes encoding p q n other v e i apart =
    let w = bit_width encoding in
    let signed = is_signed encoding in
    let grown = grow p w bytes in
    let new =
      clamp (bitfield_min w signed) (bitfield_max w signed) (get_bit_field grown p w signed +ℤ v) in
    let between =
      clamp-between (bitfield_min w signed) (bitfield_max w signed)
        (get_bit_field grown p w signed +ℤ v) (bounds-ordered w signed e) in
    let (at, rest) =
      get_bit_field-set_bit_field grown p w q n signed other new e
        (clamp-IsI64 w signed (get_bit_field grown p w signed +ℤ v) e) (grow-IsInside p w bytes)
        apart in
    let read : get_bit_field (set_bit_field grown p w new) p w signed ≡ new =
      at ∙ wrap_bitfield-inside new w signed e between in
    rw
      (
        (incr_value-clamp w signed (get_bit_field grown p w signed) v e
            (get_bit_field-IsI64 grown p w signed e.0 e.1.0) i).0,
        stored-grow bytes p w new,
      )
      (ap (λ t. (some new ∷ some t ∷ [], true)) read, (read, rest))
