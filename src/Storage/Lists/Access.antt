-- ===== src/Storage/Lists/Access.antt =====
-- The list commands of internal/storage/querier.go that count positions: LLEN, LRANGE, LINDEX, LTRIM, LSET, LREM
-- and LPOS.
use postkeys.Base.{
  ℕ, zero, suc, ◌+◌, ◌-◌, Bool, false, ◌||◌, not, Option, none, some, List, [], ◌∷◌, map, ltb, leb,
  ◌==◌, compare_numbers, if◌then◌else◌, length, take, drop,
}
use postkeys.Base.Int.{ℤ, pos, negsuc, ◌+ℤ◌, ltb_ℤ, pos_part}
use postkeys.Base.Bytes.{Bytes, compare_bytes}
use postkeys.Storage.Tables.{is_live, Db, put_at}
use postkeys.Storage.Lists.{
  Row, value_of, index_of, Result, failed, ok, wrong_type, no_such_key, index_out_of_range,
  is_other_type, list_rows, set_list,
}

-- The rows that have not expired.
unfoldable pub live_rows : ℕ → List Row → List Row
live_rows now [] = []
live_rows now (r ∷ rows) =
    let rest = live_rows now rows in if is_live now r.1 then r ∷ rest else rest

unfoldable pub l_len : ℕ → Bytes → Db → Result ℕ
l_len now key db =
    if is_other_type now key db
    then failed wrong_type
    else ok (length (live_rows now (list_rows key db)))

-- A negative index counts from the end.
unfoldable pub from_end : ℕ → ℤ → ℤ
from_end total i = if ltb_ℤ i (pos 0) then pos total +ℤ i else i

-- The first and the last position of a range, if it is not empty, as LRANGE and LTRIM compute them.
unfoldable pub bounded_range : ℕ → ℤ → ℤ → Option (ℕ × ℕ)
bounded_range total start stop =
    let first = if ltb_ℤ (from_end total start) (pos 0) then pos 0 else from_end total start in
    let last =
      if ltb_ℤ (from_end total stop) (pos total)
      then from_end total stop
      else pos total +ℤ negsuc 0 in
    if ltb_ℤ last first then none else some (pos_part first, pos_part last)

-- `ORDER BY idx ASC LIMIT $2 OFFSET $3`.
unfoldable pub limit_offset : ℕ → ℕ → List Row → List Row
limit_offset limit offset rows = take limit (drop offset rows)

unfoldable pub range_values : Option (ℕ × ℕ) → List Row → List Bytes
range_values none rows = []
range_values (some (first, last)) rows = map value_of (limit_offset (last - first + 1) first rows)

unfoldable pub l_range : ℕ → Bytes → ℤ → ℤ → Db → Result (List Bytes)
unfolding range_values
l_range now key start stop db =
    let rows = list_rows key db in
    if is_other_type now key db
    then failed wrong_type
    else ok (range_values (bounded_range (length rows) start stop) rows)

first_value : List Row → Option Bytes
first_value [] = none
first_value (r ∷ rows) = some (value_of r)

-- Both queries of `lIndex`; the second has no row where the index is further from the end than the list is long.
unfoldable pub l_index : ℕ → Bytes → ℤ → Db → Option Bytes
unfolding first_value
l_index now key index db =
    let rows = live_rows now (list_rows key db) in
    if ltb_ℤ index (pos 0)
    then if ltb_ℤ (pos (length rows) +ℤ index) (pos 0)
      then none
      else first_value (limit_offset 1 (pos_part (pos (length rows) +ℤ index)) rows)
    else first_value (limit_offset 1 (pos_part index) rows)

-- `DELETE … WHERE pos < $2 OR pos > $3`, from a position on.
unfoldable pub keep_positions : ℕ → ℕ → ℕ → List Row → List Row
keep_positions p first last [] = []
keep_positions p first last (r ∷ rows) =
    let rest = keep_positions (suc p) first last rows in
    if ltb p first || ltb last p then rest else r ∷ rest

unfoldable pub trimmed : Bytes → Option (ℕ × ℕ) → Db → Db
trimmed key none db = set_list key [] (record db { meta = put_at key none db.meta })
trimmed key (some (first, last)) db =
    set_list key (keep_positions 0 first last (list_rows key db)) db

unfoldable pub l_trim : Bytes → ℤ → ℤ → Db → Db
unfolding trimmed
l_trim key start stop db =
    let total = length (list_rows key db) in
    if total == 0 then db else trimmed key (bounded_range total start stop) db

-- The row at a position gets another value.
unfoldable pub set_value : ℕ → Bytes → List Row → List Row
set_value p v [] = []
set_value zero v (r ∷ rows) = ((index_of r, v), r.1) ∷ rows
set_value (suc p) v (r ∷ rows) = r ∷ set_value p v rows

unfoldable pub l_set : Bytes → ℤ → Bytes → Db → Result Db
l_set key index element db =
    let rows = list_rows key db in
    let i = from_end (length rows) index in
    if length rows == 0
    then failed no_such_key
    else if ltb_ℤ i (pos 0) || not (ltb_ℤ i (pos (length rows)))
    then failed index_out_of_range
    else ok (set_list key (set_value (pos_part i) element rows) db)

-- `DELETE … ORDER BY idx LIMIT $3` of the rows with a value: what is left, and how many were deleted.
unfoldable pub remove_first : ℕ → Bytes → List Row → List Row × ℕ
remove_first n v [] = ([], 0)
remove_first zero v (r ∷ rows) = (r ∷ rows, 0)
remove_first (suc n) v (r ∷ rows) =
    let less = remove_first n v rows in
    let same = remove_first (suc n) v rows in
    if value_of r == v then (less.0, suc less.1) else (r ∷ same.0, same.1)

unfoldable pub reverse_rows : List Row → List Row → List Row
reverse_rows [] acc = acc
reverse_rows (r ∷ rows) acc = reverse_rows rows (r ∷ acc)

unfoldable pub remove_all : Bytes → List Row → List Row × ℕ
remove_all v [] = ([], 0)
remove_all v (r ∷ rows) =
    let rest = remove_all v rows in
    if value_of r == v then (rest.0, suc rest.1) else (r ∷ rest.0, rest.1)

unfoldable pub removed : Bytes → List Row × ℕ → Db → ℕ × Db
removed key left db = (left.1, set_list key left.0 db)

-- `ORDER BY idx DESC`.
unfoldable pub remove_last : ℕ → Bytes → List Row → List Row × ℕ
remove_last n v rows =
    let left = remove_first n v (reverse_rows rows []) in (reverse_rows left.0 [], left.1)

unfoldable pub l_rem : Bytes → ℤ → Bytes → Db → ℕ × Db
unfolding removed remove_last
l_rem key (pos zero) v db = removed key (remove_all v (list_rows key db)) db
l_rem key (pos (suc n)) v db = removed key (remove_first (suc n) v (list_rows key db)) db
l_rem key (negsuc n) v db = removed key (remove_last (suc n) v (list_rows key db)) db

-- What a match does with the rest of the loop: it is skipped, or its position is kept and may be the last.
keep_match : (ℕ → Option ℕ → List ℕ) → ℕ → ℕ → Option ℕ → List ℕ
keep_match rest p (suc skip) want = rest skip want
keep_match rest p zero none = p ∷ rest zero none
keep_match rest p zero (some n) = if leb n 1 then p ∷ [] else p ∷ rest zero (some (n - 1))

is_exhausted : Option ℕ → Bool
is_exhausted none = false
is_exhausted (some n) = n == 0

one_less : Option ℕ → Option ℕ
one_less none = none
one_less (some n) = some (n - 1)

-- The loop of `lPos`, with the number of matches to skip, the number of positions that are wanted and the number
-- of rows that may be scanned, where there is a limit.
unfoldable pub positions : ℕ → ℕ → Option ℕ → Option ℕ → Bytes → List Row → List ℕ
unfolding keep_match is_exhausted one_less
positions p skip want scan v [] = []
positions p skip want scan v (r ∷ rows) =
    let rest : ℕ → Option ℕ → List ℕ =
      λ skip want. positions (suc p) skip want (one_less scan) v rows in
    if is_exhausted scan
    then []
    else if value_of r == v
    then keep_match rest p skip want
    else rest skip want

limit_of : ℤ → Option ℕ
limit_of (pos zero) = none
limit_of (pos (suc n)) = some (suc n)
limit_of (negsuc n) = none

unfoldable pub l_pos : Bytes → Bytes → ℤ → ℤ → ℤ → Db → List ℕ
unfolding limit_of
l_pos key element rank count maxlen db =
    positions 0 (pos_part rank - 1) (limit_of count) (limit_of maxlen) element (list_rows key db)
