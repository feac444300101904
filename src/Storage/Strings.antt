-- ===== src/Storage/Strings.antt =====
-- The string commands of internal/storage/querier.go, but for GETEX and those on floats, several keys and single bits. An error is
-- followed by a rollback, so it comes without tables.
pub mod Counter
pub mod Ranges
use postkeys.Base.{
  ℕ, ◌+◌, ◌-◌, Bool, true, false, not, ◌&&◌, ◌||◌, Option, none, some, List, [], ◌∷◌, ◌++◌, ltb,
  leb, ◌==◌, compare_numbers, if◌then◌else◌, length, take, drop, replicate,
}
use postkeys.Base.Int.{ℤ, pos, negsuc, ◌+ℤ◌, ltb_ℤ, pos_part}
use postkeys.Base.Bytes.{Bytes, parse_int, format_int}
use postkeys.Storage.BitField.{wrap64}
use postkeys.Storage.Tables.{
  Table, Columns, Expiry, is_live, KeyType, type_none, type_string, type_hash, type_list, type_set,
  type_zset, type_hyperloglog, same_type, Meta, Db, put_at, get_key_type, set_meta,
  delete_key_from_all_tables,
}

-- kv_strings has one row at most for a key.
abbrev pub StringRow : Type 0
StringRow = Bytes × Expiry

put_string_rows :
    ((type : KeyType) → Table (Columns type))
    → Bytes
    → List StringRow
    → (type : KeyType) → Table (Columns type)
put_string_rows rows key new type_none = rows type_none
put_string_rows rows key new type_string = put_at key new (rows type_string)
put_string_rows rows key new type_hash = rows type_hash
put_string_rows rows key new type_list = rows type_list
put_string_rows rows key new type_set = rows type_set
put_string_rows rows key new type_zset = rows type_zset
put_string_rows rows key new type_hyperloglog = rows type_hyperloglog

unfoldable pub string_row : Bytes → Db → List StringRow
string_row key db = db.rows type_string key

unfoldable pub set_string : Bytes → StringRow → Db → Db
unfolding put_string_rows
set_string key row db = record db { rows = put_string_rows db.rows key (row ∷ []) }

unfoldable pub live_value : ℕ → List StringRow → Option Bytes
live_value now [] = none
live_value now ((v, e) ∷ rows) = if is_live now e then some v else none

unfoldable pub get : ℕ → Bytes → Db → Option Bytes
get now key db = live_value now (string_row key db)

expiry_of : ℕ → ℕ → Expiry
expiry_of now ttl = if ltb 0 ttl then some (now + ttl) else none

unfoldable pub set : ℕ → Bytes → Bytes → ℕ → Db → Db
unfolding expiry_of
set now key value ttl db =
    let e = expiry_of now ttl in
    set_string key (value, e) (set_meta key type_string e (delete_key_from_all_tables key db))

unfoldable pub set_nx : ℕ → Bytes → Bytes → ℕ → Db → Bool × Db
set_nx now key value ttl db =
    if same_type (get_key_type now key db) type_none
    then (true, set now key value ttl db)
    else (false, db)

-- `ON CONFLICT (key) DO UPDATE SET value = $2`: a row that is there keeps its expiry.
unfoldable pub row_expiry : List StringRow → Expiry
row_expiry [] = none
row_expiry ((v, e) ∷ rows) = e

unfoldable pub upsert_value : Bytes → Bytes → Db → Db
unfolding row_expiry
upsert_value key value db = set_string key (value, row_expiry (string_row key db)) db

-- A missing value counts as 0, and one that is no integer is an error.
current_number : Option Bytes → Option ℤ
current_number none = some (pos 0)
current_number (some v) = parse_int v

counted : Bytes → ℤ → Option ℤ → Db → Option (ℤ × Db)
counted key delta none db = none
counted key delta (some current) db =
    let result = wrap64 (current +ℤ delta) in
    some (result, upsert_value key (format_int result) (set_meta key type_string none db))

-- `none` is the error that the value is no integer.
unfoldable pub incr : ℕ → Bytes → ℤ → Db → Option (ℤ × Db)
unfolding current_number counted
incr now key delta db = counted key delta (current_number (get now key db)) db

row_value : List StringRow → Bytes
row_value [] = []
row_value ((v, e) ∷ rows) = v

unfoldable pub append_str : Bytes → Bytes → Db → ℕ × Db
unfolding row_value
append_str key value db =
    let new = row_value (string_row key db) ++ value in
    (length new, upsert_value key new (set_meta key type_string none db))

unfoldable pub str_len : ℕ → Bytes → Db → ℕ
str_len now key db = value_length (get now key db)
  where
    value_length : Option Bytes → ℕ
    value_length none = 0
    value_length (some v) = length v

unfoldable pub get_set : ℕ → Bytes → Bytes → Db → Option Bytes × Db
get_set now key value db =
    (get now key db, set_string key (value, none) (set_meta key type_string none db))

taken : Bytes → Option Bytes → Db → Option Bytes × Db
taken key none db = (none, db)
taken key (some v) db =
    (some v, record db { meta = put_at key none db.meta; rows = put_string_rows db.rows key [] })

unfoldable pub get_del : ℕ → Bytes → Db → Option Bytes × Db
unfolding taken put_string_rows
get_del now key db = taken key (get now key db) db
