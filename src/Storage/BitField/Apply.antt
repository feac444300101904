-- ===== src/Storage/BitField/Apply.antt =====
-- The operations of one BITFIELD command, `bitField` of internal/storage/querier.go without its queries. An
-- offset is a number of bits from the start of the string, and not negative.
use postkeys.Base.{ℕ, ◌+◌, ◌-◌, ◌/◌, ◌%◌, Bool, true, false, not, ◌&&◌, ◌||◌, Option, none, some}
use postkeys.Base.{
  List, [], ◌∷◌, ◌++◌, leb, ltb, ◌==◌, compare_numbers, if◌then◌else◌, length, drop, replicate,
}
use postkeys.Base.Int.{ℤ, pos, negsuc, ◌+ℤ◌, ltb_ℤ}
use postkeys.Base.Bytes.{Bytes, parse_int, compare_bytes}
use postkeys.Storage.BitField.{
  Mode, wrap64, bitfield_min, bitfield_max, wrap_bitfield, resolve_overflow, get_bit_field,
  set_bit_field,
}

pub data OpType : Type 0 where
  get_op : OpType
  set_op : OpType
  incr_by : OpType

pub record BitFieldOp : Type 0 where
  pub op_type : OpType
  pub encoding : Bytes
  pub offset : ℕ
  pub value : ℤ
  pub overflow : Mode

unfoldable pub is_signed : Bytes → Bool
is_signed [] = false
is_signed (c ∷ rest) = c == b'i'

-- A width that does not parse, is not positive or is above 64 is 8.
unfoldable pub width_of : Option ℤ → ℕ
width_of (some (pos n)) = if ltb 0 n && leb n 64 then n else 8
width_of (some (negsuc n)) = 8
width_of none = 8

unfoldable pub bit_width : Bytes → ℕ
unfolding width_of
bit_width encoding = if ltb 1 (length encoding) then width_of (parse_int (drop 1 encoding)) else 8

-- The buffer, with zero bytes up to the end of the field.
unfoldable pub grow : ℕ → ℕ → Bytes → Bytes
grow offset w bytes = bytes ++ replicate (offset / 8 + (w + offset % 8 + 7) / 8 - length bytes) 0

-- The new value of the field, before it is stored; `none` where FAIL rejects it.
unfoldable pub set_value : Mode → ℕ → Bool → ℤ → Option ℤ
set_value mode w signed v =
    let low = bitfield_min w signed in
    let high = bitfield_max w signed in
    resolve_overflow mode (ltb_ℤ high v) (ltb_ℤ v low) v low high

unfoldable pub add_overflow : ℤ → ℤ → Bool
add_overflow old v =
    let sum = wrap64 (old +ℤ v) in
    (ltb_ℤ (pos 0) v && ltb_ℤ sum old) || (ltb_ℤ v (pos 0) && ltb_ℤ old sum)

-- The flags `high` and `low` of INCRBY.
unfoldable pub is_high : ℤ → ℤ → ℤ → Bool
is_high high old v =
    let over = add_overflow old v in
    (over && ltb_ℤ (pos 0) v) || (not over && ltb_ℤ high (wrap64 (old +ℤ v)))

unfoldable pub is_low : ℤ → ℤ → ℤ → Bool
is_low low old v =
    let over = add_overflow old v in
    (over && ltb_ℤ v (pos 0)) || (not over && ltb_ℤ (wrap64 (old +ℤ v)) low)

unfoldable pub incr_value : Mode → ℕ → Bool → ℤ → ℤ → Option ℤ
incr_value mode w signed old v =
    let low = bitfield_min w signed in
    let high = bitfield_max w signed in
    resolve_overflow mode (is_high high old v) (is_low low old v)
      (wrap_bitfield (wrap64 (old +ℤ v)) w signed) low high

-- What an operation leaves of the buffer, its reply and whether it changed the value.
pub record Outcome : Type 0 where
  pub buffer : Bytes
  pub reply : Option ℤ
  pub modified : Bool

-- The value is stored, or FAIL leaves the buffer and replies nil.
unfoldable pub stored : Bytes → ℕ → ℕ → Option ℤ → ℤ → Outcome
stored bytes offset w none reply = record { buffer = bytes; reply = none; modified = false }
stored bytes offset w (some v) reply = record {
  buffer = set_bit_field bytes offset w v;
  reply = some reply;
  modified = true;
}

unfoldable pub value_or : Option ℤ → ℤ → ℤ
value_or (some v) d = v
value_or none d = d

unfoldable pub run_op : OpType → Mode → Bytes → ℕ → ℕ → Bool → ℤ → Outcome
unfolding stored value_or
run_op get_op mode bytes offset w signed v = record {
  buffer = bytes;
  reply = some (get_bit_field bytes offset w signed);
  modified = false;
}
run_op set_op mode bytes offset w signed v =
    stored bytes offset w (set_value mode w signed v) (get_bit_field bytes offset w signed)
run_op incr_by mode bytes offset w signed v =
    let new = incr_value mode w signed (get_bit_field bytes offset w signed) v in
    stored bytes offset w new (value_or new v)

unfoldable pub apply_op : BitFieldOp → Bytes → Outcome
apply_op op bytes =
    let w = bit_width (BitFieldOp.encoding op) in
    run_op (BitFieldOp.op_type op) (BitFieldOp.overflow op) (grow (BitFieldOp.offset op) w bytes)
      (BitFieldOp.offset op) w (is_signed (BitFieldOp.encoding op)) (BitFieldOp.value op)

-- The loop over the operations: the buffer at the end, the replies in order, and whether to write it back.
unfoldable pub bit_field : List BitFieldOp → Bytes → Bytes × (List (Option ℤ) × Bool)
bit_field [] bytes = (bytes, ([], false))
bit_field (op ∷ ops) bytes =
    let first = apply_op op bytes in
    let rest = bit_field ops (Outcome.buffer first) in
    (rest.0, (Outcome.reply first ∷ rest.1.0, Outcome.modified first || rest.1.1))
