-- ===== src/Storage/HyperLogLog/Commands.antt =====
-- PFADD and PFMERGE of internal/storage/querier.go, on the tables. An error is followed by a rollback, so it comes
-- without tables.
pub mod Union
use postkeys.Base.{
  ℕ, Bool, true, false, not, ◌&&◌, ◌||◌, Option, none, some, List, [], ◌∷◌, if◌then◌else◌,
}
use postkeys.Base.Bytes.{Bytes}
use postkeys.Storage.HyperLogLog.{Sketch, new_sketch, from_bytes, to_bytes, add, merge}
use postkeys.Storage.Tables.{
  Table, Columns, Expiry, is_live, KeyType, type_none, type_string, type_hash, type_list, type_set,
  type_zset, type_hyperloglog, same_type, Db, put_at, get_key_type, set_meta,
}

-- kv_hyperloglog has one row at most for a key.
abbrev pub SketchRow : Type 0
SketchRow = Bytes × Expiry

put_sketch_rows :
    ((type : KeyType) → Table (Columns type))
    → Bytes
    → List SketchRow
    → (type : KeyType) → Table (Columns type)
put_sketch_rows rows key new type_none = rows type_none
put_sketch_rows rows key new type_string = rows type_string
put_sketch_rows rows key new type_hash = rows type_hash
put_sketch_rows rows key new type_list = rows type_list
put_sketch_rows rows key new type_set = rows type_set
put_sketch_rows rows key new type_zset = rows type_zset
put_sketch_rows rows key new type_hyperloglog = put_at key new (rows type_hyperloglog)

unfoldable pub sketch_row : Bytes → Db → List SketchRow
sketch_row key db = db.rows type_hyperloglog key

unfoldable pub live_sketch : ℕ → List SketchRow → Option Sketch
live_sketch now [] = none
live_sketch now ((bytes, e) ∷ rows) = if is_live now e then some (from_bytes bytes) else none

unfoldable pub sketch_or_new : Option Sketch → Sketch
sketch_or_new none = new_sketch
sketch_or_new (some h) = h

-- The sketch of a key, empty where there is none.
unfoldable pub sketch_at : ℕ → Bytes → Db → Sketch
unfolding sketch_or_new live_sketch
sketch_at now key db = sketch_or_new (live_sketch now (sketch_row key db))

unfoldable pub row_expiry : List SketchRow → Expiry
row_expiry [] = none
row_expiry ((bytes, e) ∷ rows) = e

-- `ON CONFLICT (key) DO UPDATE SET registers = $2`: a row that is there keeps its expiry.
unfoldable pub upsert_sketch : Bytes → Sketch → Db → Db
unfolding put_sketch_rows row_expiry to_bytes
upsert_sketch key h db = record db {
  rows = put_sketch_rows db.rows key ((to_bytes h, row_expiry (sketch_row key db)) ∷ []);
}

-- Neither missing nor a sketch.
unfoldable pub is_not_sketch : ℕ → Bytes → Db → Bool
is_not_sketch now key db =
    let type = get_key_type now key db in
    not (same_type type type_none) && not (same_type type type_hyperloglog)

-- The loop over the elements, and whether some register changed.
unfoldable pub add_elements : (Bytes → ℕ) → List Bytes → Sketch → Bool → Sketch × Bool
add_elements fnv [] h changed = (h, changed)
add_elements fnv (x ∷ xs) h changed =
    let (h', raised) = add fnv x h in add_elements fnv xs h' (raised || changed)

-- `none` is WRONGTYPE.
unfoldable pub pf_add : (Bytes → ℕ) → ℕ → Bytes → List Bytes → Db → Option (ℕ × Db)
pf_add fnv now key elements db =
    let (h, changed) = add_elements fnv elements (sketch_at now key db) false in
    if is_not_sketch now key db
    then none
    else some
        (if changed then 1 else 0, upsert_sketch key h (set_meta key type_hyperloglog none db))

-- A source that is missing is passed over.
merge_found : Option Sketch → Sketch → Sketch
merge_found none merged = merged
merge_found (some h) merged = merge merged h

merge_sources : ℕ → List Bytes → Sketch → Db → Sketch
unfolding merge_found live_sketch
merge_sources now [] merged db = merged
merge_sources now (key ∷ keys) merged db =
    merge_sources now keys (merge_found (live_sketch now (sketch_row key db)) merged) db

unfoldable pub pf_merge : ℕ → Bytes → List Bytes → Db → Option Db
unfolding merge_sources
pf_merge now dest sources db =
    let merged = merge_sources now sources (sketch_at now dest db) db in
    if is_not_sketch now dest db
    then none
    else some (upsert_sketch dest merged (set_meta dest type_hyperloglog none db))
