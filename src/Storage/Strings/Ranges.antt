-- ===== src/Storage/Strings/Ranges.antt =====
-- GETRANGE and SETRANGE of internal/storage/querier.go, with an int64 offset that is not negative; the memory of
-- the process is not bounded here.
use mathlib.Core.Option
use postkeys.Base.{
  ℕ, ◌+◌, ◌-◌, ltb, ◌^◌, if◌then◌else◌, Option, none, some, [], ◌++◌, length, take, drop, replicate,
}
use postkeys.Base.Int.{ℤ}
use postkeys.Base.Bytes.{Bytes}
use postkeys.Storage.Tables.{type_string, Db, set_meta}
use postkeys.Storage.Lists.Access.{bounded_range}
use postkeys.Storage.Strings.{get, upsert_value}

value_or_empty : Option Bytes → Bytes
value_or_empty none = []
value_or_empty (some v) = v

-- `value[start : end+1]`.
substring : Option (ℕ × ℕ) → Bytes → Bytes
substring none v = []
substring (some (first, last)) v = take (last + 1 - first) (drop first v)

unfoldable pub get_range : ℕ → Bytes → ℤ → ℤ → Db → Bytes
unfolding value_or_empty substring
get_range now key start stop db =
    let v = value_or_empty (get now key db) in substring (bounded_range (length v) start stop) v

-- Zero bytes up to the end of what is written.
padded : ℕ → Bytes → Bytes
padded end v = v ++ replicate (end - length v) 0

-- Where `offset + int64(len(value))` is not an int64, it wraps round to a negative number, which no string is
-- shorter than.
extended : ℕ → Bytes → Bytes → Bytes
unfolding padded
extended offset value v =
    if ltb (offset + length value) (2 ^ 63) then padded (offset + length value) v else v

-- `copy(existing[offset:], value)`, which copies what there is room for; `none` where the slice is out of range
-- and the process panics.
copied : ℕ → Bytes → Bytes → Option Bytes
copied offset value buffer =
    if ltb (length buffer) offset
    then none
    else some (
        take offset buffer
        ++ (take (length buffer - offset) value ++ drop (offset + length value) buffer))

-- `none` where it panics.
unfoldable pub set_range : ℕ → Bytes → ℕ → Bytes → Db → Option (ℕ × Db)
unfolding value_or_empty extended copied
set_range now key offset value db =
    Option.map (λ new. (length new, upsert_value key new (set_meta key type_string none db)))
      (copied offset value (extended offset value (value_or_empty (get now key db))))

-- The string behind a SETRANGE that fits.
overwritten : ℕ → Bytes → Bytes → Bytes
overwritten offset value v =
    let buffer : Bytes = padded (offset + length value) v in
    take offset buffer ++ (value ++ drop (offset + length value) buffer)
