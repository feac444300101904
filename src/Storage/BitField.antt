-- ===== src/Storage/BitField.antt =====
-- BITFIELD of internal/storage/querier.go, between the read of the string and its write back. A byte is a
-- number; an int64 is an integer, and what overflows it is wrapped by `wrap64`.
pub mod Access
pub mod Wrap
pub mod RoundTrip
pub mod Apply
pub mod Overflow
pub mod Saturate
use postkeys.Base.{
  ℕ, zero, suc, ◌+◌, ◌-◌, ◌*◌, ◌/◌, ◌%◌, ◌^◌, Bool, true, false, not, ◌&&◌, ◌||◌, Option, none,
  some,
}
use postkeys.Base.{
  List, [], ◌∷◌, ◌++◌, leb, ltb, ◌==◌, compare_numbers, if◌then◌else◌, length, get_or, set,
  replicate,
}
use postkeys.Base.Int.{ℤ, pos, negsuc, ◌+ℤ◌, ltb_ℤ, sub_ℕ}
use postkeys.Base.Bytes.{Bytes, codes, parse_int, compare_bytes}

-- What an int64 keeps of a result.
unfoldable pub wrap64 : ℤ → ℤ
wrap64 (pos n) = let r : ℕ = n % 2 ^ 64 in if ltb r (2 ^ 63) then pos r else negsuc (2 ^ 64 - r - 1)
wrap64 (negsuc n) =
    let r : ℕ = n % 2 ^ 64 in if ltb r (2 ^ 63) then negsuc r else pos (2 ^ 64 - r - 1)

-- `bitfieldBounds`; the unsigned width 64 has the upper bound -1, as 1 << 64 is 0.
unfoldable pub bitfield_min : ℕ → Bool → ℤ
bitfield_min w signed = if signed then negsuc (2 ^ (w - 1) - 1) else pos 0

unfoldable pub bitfield_max : ℕ → Bool → ℤ
bitfield_max w signed =
    if signed then pos (2 ^ (w - 1) - 1) else if w == 64 then negsuc 0 else pos (2 ^ w - 1)

-- `for v >= max { v -= max * 2 }`, on a number that is not negative, and `for v < min { v += max * 2 }` on
-- -(n + 1), which is below -max if n is not below max. Each takes the number itself as fuel.
unfoldable pub wrap_down : ℕ → ℕ → ℕ → ℤ
wrap_down zero max v = pos v
wrap_down (suc f) max v =
    let rest = wrap_down f max (v - max * 2) in
    if leb max v then (if leb (max * 2) v then rest else negsuc (max * 2 - v - 1)) else pos v

unfoldable pub wrap_up : ℕ → ℕ → ℕ → ℤ
wrap_up zero max n = negsuc n
wrap_up (suc f) max n =
    let rest = wrap_up f max (n - max * 2) in
    if leb max n then (if leb (max * 2) n then rest else pos (max * 2 - n - 1)) else negsuc n

wrap_signed : ℕ → ℤ → ℤ
wrap_signed max (pos v) = wrap_down v max v
wrap_signed max (negsuc n) = wrap_up n max n

-- The `w` lowest bits in two's complement, `v & mask`.
unfoldable pub low_bits : ℕ → ℤ → ℕ
low_bits w (pos n) = n % 2 ^ w
low_bits w (negsuc n) = 2 ^ w - 1 - n % 2 ^ w

unfoldable pub wrap_bitfield : ℤ → ℕ → Bool → ℤ
unfolding wrap_signed
wrap_bitfield v w signed =
    if leb 64 w then v else if signed then wrap_signed (2 ^ (w - 1)) v else pos (low_bits w v)

pub data Mode : Type 0 where
  wrap : Mode
  sat : Mode
  fail : Mode

-- `bitfieldResolveOverflow`; `none` is the false of FAIL. An unknown mode is WRAP.
unfoldable pub resolve_overflow : Mode → Bool → Bool → ℤ → ℤ → ℤ → Option ℤ
resolve_overflow wrap high low wrapped min max = some wrapped
resolve_overflow sat high low wrapped min max =
    if not high && not low then some wrapped else if high then some max else some min
resolve_overflow fail high low wrapped min max = if not high && not low then some wrapped else none

-- The bit of a byte at a place counted from the lowest, and the byte with it set or cleared.
unfoldable pub bit_of : ℕ → ℕ → ℕ
bit_of x zero = x % 2
bit_of x (suc k) = bit_of (x / 2) k

unfoldable pub put_bit_of : ℕ → ℕ → ℕ → ℕ
put_bit_of x zero b = x / 2 * 2 + b
put_bit_of x (suc k) b = put_bit_of (x / 2) k b * 2 + x % 2

-- Bits are counted from the highest of the first byte; there are none behind the last byte.
unfoldable pub bit_at : Bytes → ℕ → ℕ
bit_at bytes p = bit_of (get_or bytes (p / 8) 0) (7 - p % 8)

unfoldable pub put_bit_at : Bytes → ℕ → ℕ → Bytes
put_bit_at bytes p b = set bytes (p / 8) (put_bit_of (get_or bytes (p / 8) 0) (7 - p % 8) b)

-- The loop of `getBitField`, with the number of bits that are left.
unfoldable pub get_loop : Bytes → ℕ → ℕ → ℕ
get_loop bytes p zero = 0
get_loop bytes p (suc n) = bit_at bytes p * 2 ^ n + get_loop bytes (p + 1) n

-- `(value >> n) & 1`.
bit_of_int : ℤ → ℕ → ℕ
bit_of_int (pos m) n = m / 2 ^ n % 2
bit_of_int (negsuc m) n = 1 - m / 2 ^ n % 2

unfoldable pub set_loop : Bytes → ℕ → ℕ → ℤ → Bytes
unfolding bit_of_int
set_loop bytes p zero v = bytes
set_loop bytes p (suc n) v = set_loop (put_bit_at bytes p (bit_of_int v n)) (p + 1) n v

-- The value of `w` bits: negative with a sign bit, and where 64 bits fill the sign of the int64.
unfoldable pub value_of : ℕ → Bool → ℕ → ℤ
value_of w signed r =
    if signed && (ltb 0 w && leb (2 ^ (w - 1)) r) then negsuc (2 ^ w - r - 1) else wrap64 (pos r)

unfoldable pub get_bit_field : Bytes → ℕ → ℕ → Bool → ℤ
unfolding get_loop
get_bit_field bytes p w signed = value_of w signed (get_loop bytes p w)

unfoldable pub set_bit_field : Bytes → ℕ → ℕ → ℤ → Bytes
unfolding set_loop
set_bit_field bytes p w v = set_loop bytes p w v
