-- ===== src/Storage/Lists.antt =====
-- The list commands of internal/storage/querier.go. The indices are not bounded here: kv_lists holds them as
-- bigint, of which no list uses more than its pushes. An error is followed by a rollback, so it comes without tables.
pub mod Access
pub mod Multi
pub mod Order
pub mod Deque
pub mod Pop
pub mod Ends
pub mod Trim
pub mod Assign
pub mod Refinement
use postkeys.Base.{
  ℕ, zero, suc, ◌+◌, ◌-◌, Bool, true, false, ◌&&◌, ◌||◌, not, Option, none, some, List, [], ◌∷◌,
  ◌++◌, map, ltb, leb, ◌==◌, compare_numbers, if◌then◌else◌, length, take, drop,
}
use postkeys.Base.Int.{ℤ, pos, negsuc, ◌+ℤ◌, ltb_ℤ, pos_part}
use postkeys.Base.Bytes.{Bytes, compare_bytes}
use postkeys.Storage.Tables.{
  Table, Columns, Expiry, is_live, KeyType, type_none, type_string, type_hash, type_list, type_set,
  type_zset, type_hyperloglog, same_type, Meta, Db, put_at, get_key_type, set_meta,
}

abbrev pub Row : Type 0
Row = (ℤ × Bytes) × Expiry

abbrev pub index_of : Row → ℤ
index_of r = r.0.0

abbrev pub value_of : Row → Bytes
value_of r = r.0.1

pub data ListError : Type 0 where
  wrong_type : ListError
  no_such_key : ListError
  index_out_of_range : ListError
  unique_violation : ListError

pub data Result (A : Type 0) : Type 0 where
  failed : ListError → Result A
  ok : A → Result A

put_list_rows :
    ((type : KeyType) → Table (Columns type))
    → Bytes
    → List Row
    → (type : KeyType) → Table (Columns type)
put_list_rows rows key new type_none = rows type_none
put_list_rows rows key new type_string = rows type_string
put_list_rows rows key new type_hash = rows type_hash
put_list_rows rows key new type_list = put_at key new (rows type_list)
put_list_rows rows key new type_set = rows type_set
put_list_rows rows key new type_zset = rows type_zset
put_list_rows rows key new type_hyperloglog = rows type_hyperloglog

unfoldable pub list_rows : Bytes → Db → List Row
list_rows key db = db.rows type_list key

unfoldable pub set_list : Bytes → List Row → Db → Db
unfolding put_list_rows
set_list key new db = record db { rows = put_list_rows db.rows key new }

-- `COALESCE(MIN(idx), $1)` and `COALESCE(MAX(idx), $1)`.
unfoldable pub min_index : ℤ → List Row → ℤ
min_index d [] = d
min_index d (r ∷ rows) = index_of r

unfoldable pub max_index : ℤ → List Row → ℤ
max_index d [] = d
max_index d (r ∷ rows) = max_index (index_of r) rows

prepend : Row → Option (List Row) → Option (List Row)
prepend r none = none
prepend r (some rows) = some (r ∷ rows)

-- `INSERT`, where the primary key admits an index once.
unfoldable pub insert_row : Row → List Row → Option (List Row)
unfolding prepend
insert_row r [] = some (r ∷ [])
insert_row r (s ∷ rows) =
    let rest = insert_row r rows in
    if ltb_ℤ (index_of r) (index_of s)
    then some (r ∷ s ∷ rows)
    else if ltb_ℤ (index_of s) (index_of r)
    then prepend s rest
    else none

insert_into : Row → Option (List Row) → Option (List Row)
insert_into r none = none
insert_into r (some rows) = insert_row r rows

unfoldable pub insert_rows : List Row → Option (List Row) → Option (List Row)
unfolding insert_into
insert_rows [] rows = rows
insert_rows (r ∷ new) rows = insert_rows new (insert_into r rows)

-- The rows that LPUSH inserts below an index, and RPUSH above one.
unfoldable pub rows_below : ℤ → List Bytes → List Row
rows_below i [] = []
rows_below i (v ∷ values) = ((i +ℤ negsuc 0, v), none) ∷ rows_below (i +ℤ negsuc 0) values

unfoldable pub rows_above : ℤ → List Bytes → List Row
rows_above i [] = []
rows_above i (v ∷ values) = ((i +ℤ pos 1, v), none) ∷ rows_above (i +ℤ pos 1) values

-- The last lines of the pushes: the meta row, the rows, and the new length.
pushed : Bytes → Option (List Row) → Db → Result (ℕ × Db)
pushed key none db = failed unique_violation
pushed key (some rows) db = ok (length rows, set_list key rows (set_meta key type_list none db))

-- Neither missing nor a list.
unfoldable pub is_other_type : ℕ → Bytes → Db → Bool
is_other_type now key db =
    let type = get_key_type now key db in
    not (same_type type type_none) && not (same_type type type_list)

unfoldable pub l_push : ℕ → Bytes → List Bytes → Db → Result (ℕ × Db)
unfolding pushed
l_push now key [] db =
    if is_other_type now key db then failed wrong_type else ok (length (list_rows key db), db)
l_push now key (v ∷ values) db =
    let rows = list_rows key db in
    if is_other_type now key db
    then failed wrong_type
    else pushed key (insert_rows (rows_below (min_index (pos 0) rows) (v ∷ values)) (some rows)) db

unfoldable pub r_push : ℕ → Bytes → List Bytes → Db → Result (ℕ × Db)
unfolding pushed
r_push now key [] db =
    if is_other_type now key db then failed wrong_type else ok (length (list_rows key db), db)
r_push now key (v ∷ values) db =
    let rows = list_rows key db in
    if is_other_type now key db
    then failed wrong_type
    else pushed key (insert_rows (rows_above (max_index (negsuc 0) rows) (v ∷ values)) (some rows))
        db

pop_first : Bytes → List Row → Db → Option Bytes × Db
pop_first key [] db = (none, db)
pop_first key (r ∷ rows) db = (some (value_of r), set_list key rows db)

unfoldable pub l_pop : Bytes → Db → Option Bytes × Db
unfolding pop_first
l_pop key db = pop_first key (list_rows key db) db

-- The row with the greatest index, and the rows without it.
unfoldable pub last_row : Row → List Row → Row
last_row r [] = r
last_row r (s ∷ rows) = last_row s rows

unfoldable pub without_last : Row → List Row → List Row
without_last r [] = []
without_last r (s ∷ rows) = r ∷ without_last s rows

pop_last : Bytes → List Row → Db → Option Bytes × Db
pop_last key [] db = (none, db)
pop_last key (r ∷ rows) db =
    (some (value_of (last_row r rows)), set_list key (without_last r rows) db)

unfoldable pub r_pop : Bytes → Db → Option Bytes × Db
unfolding pop_last
r_pop key db = pop_last key (list_rows key db) db

-- `rPopLPush`: the meta row of the destination is made if there is none, whatever type it has.
unfoldable pub ensure_meta : Bytes → Option Meta → Db → Db
ensure_meta key none db = set_meta key type_list none db
ensure_meta key (some m) db = db

unfoldable pub stored_value : Bytes → Bytes → Option (List Row) → Db → Result (Option Bytes × Db)
unfolding ensure_meta
stored_value key v none db = failed unique_violation
stored_value key v (some rows) db =
    ok (some v, set_list key rows (ensure_meta key (db.meta key) db))

unfoldable pub push_value : Bytes → Bytes → Db → Result (Option Bytes × Db)
unfolding stored_value
push_value key v db =
    let rows = list_rows key db in
    stored_value key v (insert_row ((min_index (pos 0) rows +ℤ negsuc 0, v), none) rows) db

unfoldable pub pushed_left : Bytes → Option Bytes × Db → Result (Option Bytes × Db)
unfolding push_value
pushed_left destination (none, db) = ok (none, db)
pushed_left destination (some v, db) = push_value destination v db

unfoldable pub r_pop_l_push : Bytes → Bytes → Db → Result (Option Bytes × Db)
unfolding pushed_left
r_pop_l_push source destination db = pushed_left destination (r_pop source db)
