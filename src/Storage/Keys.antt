-- ===== src/Storage/Keys.antt =====
-- The key commands of internal/storage/querier.go: DEL, EXISTS, TYPE, EXPIRE and its kin, PERSIST and RENAME.
pub mod Rename
pub mod Expire
pub mod Delete
use postkeys.Base.{
  ℕ, ◌+◌, ◌-◌, ◌/◌, suc, Bool, true, false, ◌&&◌, ◌||◌, not, Option, none, some, List, [], ◌∷◌, ltb,
  ◌==◌, if◌then◌else◌,
}
use postkeys.Base.Int.{ℤ, pos, negsuc}
use postkeys.Base.Set.{contains}
use postkeys.Base.Bytes.{Bytes, compare_bytes}
use postkeys.Storage.Tables.{
  Expiry, is_live, KeyType, type_none, same_type, Meta, Db, put_at, set_expiry, move_rows,
  live_type, get_key_type, set_meta, delete_key_from_all_tables, update_table, has_table,
}

-- The loop of `del`, over the keys in sorted order, which is an argument.
unfoldable pub del_loop : ℕ → List Bytes → ℕ → Db → ℕ × Db
del_loop now [] deleted db = (deleted, db)
del_loop now (key ∷ keys) deleted db =
    let rest = del_loop now keys (suc deleted) (delete_key_from_all_tables key db) in
    let skipped = del_loop now keys deleted db in
    if same_type (get_key_type now key db) type_none then skipped else rest

unfoldable pub del : (List Bytes → List Bytes) → ℕ → List Bytes → Db → ℕ × Db
del sort now keys db = del_loop now (sort keys) 0 db

unfoldable pub is_live_meta : ℕ → Option Meta → Bool
is_live_meta now none = false
is_live_meta now (some m) = is_live now m.expires_at

-- `COUNT(*) … WHERE key = ANY($1)` counts a row once, however often its key was named.
unfoldable pub exists : ℕ → List Bytes → Db → ℕ
unfolding is_live_meta
exists now [] db = 0
exists now (key ∷ keys) db =
    let rest = exists now keys db in
    if is_live_meta now (db.meta key) && not (contains key keys) then suc rest else rest

pub record ExpireOptions : Type 0 where
  pub nx : Bool
  pub xx : Bool
  pub gt : Bool
  pub lt : Bool

-- `expireWhereClause`, on the expires_at of the key's row and the new one.
unfoldable pub expire_applies : ExpireOptions → ℕ → ℕ → Expiry → Bool
expire_applies o now new none = o.nx || not o.xx && not o.gt
expire_applies o now new (some old) =
    if o.nx
    then false
    else if o.xx
    then ltb now old
    else if o.gt
    then ltb now old && ltb old new
    else if o.lt
    then ltb now old && ltb new old
    else ltb now old

-- The `UPDATE kv_meta … RETURNING key_type`, and the update of the data table of that type.
expire_row : ExpireOptions → ℕ → Bytes → ℕ → Option Meta → Db → Bool × Db
expire_row o now key t none db = (false, db)
expire_row o now key t (some m) db =
    if expire_applies o now t m.expires_at
    then (true, expire_data m.key_type key t (set_meta key m.key_type (some t) db))
    else (false, db)
  where
    expire_data : KeyType → Bytes → ℕ → Db → Db
    expire_data type key t db =
        if has_table type then update_table type (λ A. set_expiry key (some t)) db else db

-- `expireAt`; `expire` is the same at the time from now.
unfoldable pub expire_at : ExpireOptions → ℕ → Bytes → ℕ → Db → Bool × Db
unfolding expire_row
expire_at o now key t db = expire_row o now key t (db.meta key) db

-- A time to live that is negative lies before the present.
after : ℕ → ℤ → ℕ
after now (pos ttl) = now + ttl
after now (negsuc n) = now - suc n

unfoldable pub expire : ExpireOptions → ℕ → Bytes → ℤ → Db → Bool × Db
unfolding after
expire o now key ttl db = expire_at o now key (after now ttl) db

ttl_of : ℕ → Option Meta → ℤ
ttl_of now none = negsuc 1
ttl_of now (some m) = if is_live now m.expires_at then left now m.expires_at else negsuc 1
  where
    left : ℕ → Expiry → ℤ
    left now none = negsuc 0
    left now (some t) = pos (t - now)

-- `pttl`: what is left, -1 without an expiry and -2 without a key. A tick of the clock is a millisecond.
unfoldable pub pttl : ℕ → Bytes → Db → ℤ
unfolding ttl_of
pttl now key db = ttl_of now (db.meta key)

-- `persist`: the meta row of a key that has an expiry, and then the rows of every data table.
persist_row : ℕ → Bytes → Option Meta → Db → Bool × Db
persist_row now key none db = (false, db)
persist_row now key (some m) db =
    if has_expiry now m.expires_at
    then (
      true,
      record {
        meta = put_at key (some (record { key_type = m.key_type; expires_at = none })) db.meta;
        rows = λ t. set_expiry key none (db.rows t);
      },
    )
    else (false, db)
  where
    has_expiry : ℕ → Expiry → Bool
    has_expiry now none = false
    has_expiry now (some t) = ltb now t

unfoldable pub persist : ℕ → Bytes → Db → Bool × Db
unfolding persist_row
persist now key db = persist_row now key (db.meta key) db

pub data RenameError : Type 0 where
  no_such_key : RenameError
  unsupported_type : KeyType → RenameError

move_meta : Bytes → Bytes → Db → Db
move_meta old new db = record db { meta = put_at new (db.meta old) (put_at old none db.meta) }

-- What `rename` returns, with the tables as they are when it does; an error is followed by a rollback.
unfoldable pub rename : ℕ → Bytes → Bytes → Db → Option RenameError × Db
unfolding move_meta
rename now old new db =
    let type = get_key_type now old db in
    let cleared = delete_key_from_all_tables new db in
    if same_type type type_none
    then (some no_such_key, db)
    else if has_table type
    then (none, update_table type (λ A. move_rows old new) (move_meta old new cleared))
    else (some (unsupported_type type), cleared)
