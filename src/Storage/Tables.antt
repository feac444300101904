-- ===== src/Storage/Tables.antt =====
-- The tables of internal/storage/storage.go, and the helpers of internal/storage/querier.go on them. A table is
-- a function from keys, as `encodeKey` writes them, to the rows of the key; a row ends with its expires_at. The
-- statements of one transaction run one after the other, so the advisory locks do nothing here.
use postkeys.Base.{
  ℕ, Bool, true, false, Option, none, some, List, [], map, ltb, ◌==◌, if◌then◌else◌, ◌≡◌, ◌≢◌, refl,
  ap, Bool-cases, Option-cases, inl, inr,
}
use postkeys.Base.Int.{ℤ}
use postkeys.Base.Bytes.{Bytes, compare_bytes, same_bytes_iff}
use postkeys.Base.Set.{same_refl}

-- A time, or NULL.
abbrev pub Expiry : Type 0
Expiry = Option ℕ

-- `expires_at IS NULL OR expires_at > NOW()`.
unfoldable pub is_live : ℕ → Expiry → Bool
is_live now none = true
is_live now (some t) = ltb now t

pub data KeyType : Type 0 where
  type_none : KeyType
  type_string : KeyType
  type_hash : KeyType
  type_list : KeyType
  type_set : KeyType
  type_zset : KeyType
  type_hyperloglog : KeyType

unfoldable pub same_type : KeyType → KeyType → Bool
same_type type_none type_none = true
same_type type_string type_string = true
same_type type_hash type_hash = true
same_type type_list type_list = true
same_type type_set type_set = true
same_type type_zset type_zset = true
same_type type_hyperloglog type_hyperloglog = true
same_type a b = false

-- A row of kv_meta.
pub record Meta : Type 0 where
  pub key_type : KeyType
  pub expires_at : Expiry

-- The rows of each key.
abbrev pub Table : Type 0 → Type 0
Table A = Bytes → List (A × Expiry)

-- The columns of a data table beside key and expires_at: a field and a value for hashes, an index and a value
-- for lists, a member for sets, and a member and the bits of its score for sorted sets.
abbrev pub Columns : KeyType → Type 0
Columns type_none = Unit
Columns type_string = Bytes
Columns type_hash = Bytes × Bytes
Columns type_list = ℤ × Bytes
Columns type_set = Bytes
Columns type_zset = Bytes × ℕ
Columns type_hyperloglog = Bytes

-- kv_meta, and the data table of every type. The rows of a list stand in the order of their indices.
pub record Db : Type 0 where
  pub meta : Bytes → Option Meta
  pub rows : (type : KeyType) → Table (Columns type)

module _ {ℓ} {A : Type ℓ} where
  -- The rows of one key are replaced.
  unfoldable pub put_at : Bytes → A → (Bytes → A) → Bytes → A
  put_at key a t k = if k == key then a else t k

module _ {A : Type 0} where
  -- `UPDATE … SET expires_at = $2 WHERE key = $1`.
  unfoldable pub set_expiry : Bytes → Expiry → Table A → Table A
  unfolding put_at
  set_expiry key e t = put_at key (map (λ r. (r.0, e)) (t key)) t

  -- `UPDATE … SET key = $2 WHERE key = $1`, where no row has the new key.
  unfoldable pub move_rows : Bytes → Bytes → Table A → Table A
  unfolding put_at
  move_rows old new t = put_at new (t old) (put_at old [] t)

unfoldable pub live_type : ℕ → Option Meta → KeyType
live_type now none = type_none
live_type now (some m) = if is_live now m.expires_at then m.key_type else type_none

unfoldable pub get_key_type : ℕ → Bytes → Db → KeyType
get_key_type now key db = live_type now (db.meta key)

unfoldable pub set_meta : Bytes → KeyType → Expiry → Db → Db
set_meta key type e db = record db {
  meta = put_at key (some (record { key_type = type; expires_at = e })) db.meta;
}

unfoldable pub delete_key_from_all_tables : Bytes → Db → Db
delete_key_from_all_tables key db = record {
  meta = put_at key none db.meta;
  rows = λ t. put_at key [] (db.rows t);
}

-- `dataTableForType`: whether a type has a data table there.
unfoldable pub has_table : KeyType → Bool
has_table type_none = false
has_table type_hyperloglog = false
has_table type_string = true
has_table type_hash = true
has_table type_list = true
has_table type_set = true
has_table type_zset = true

-- An `UPDATE` of the data table of a type.
unfoldable pub update_table : KeyType → ((A : Type 0) → Table A → Table A) → Db → Db
update_table type f db = record db {
  rows = λ t. if same_type t type then f (Columns t) (db.rows t) else db.rows t;
}

-- What is stored at a key: its row of kv_meta, and its rows of the table of its type.
abbrev pub Content : Type 0
Content = Option ((m : Meta) × List (Columns m.key_type × Expiry))

unfoldable pub content_of :
    Option Meta → ((type : KeyType) → List (Columns type × Expiry)) → Content
content_of none rows = none
content_of (some m) rows = some (m, rows m.key_type)

unfoldable pub content : Bytes → Db → Content
content key db = content_of (db.meta key) (λ t. db.rows t key)

-- Nothing is left of a key, in any table.
abbrev pub IsGone : Bytes → Db → Type 0
IsGone key db = (db.meta key ≡ none) × ((t : KeyType) → db.rows t key ≡ [])

-- Only the table of one type has rows of a key.
abbrev pub IsOnlyIn : KeyType → Bytes → Db → Type 0
IsOnlyIn type key db = (t : KeyType) → same_type t type ≡ false → db.rows t key ≡ []

-- No table was changed at a key.
abbrev pub IsKept : Bytes → Db → Db → Type 0
IsKept key db after =
    (after.meta key ≡ db.meta key) × ((t : KeyType) → after.rows t key ≡ db.rows t key)

module _ {ℓ} {A : Type ℓ} where
  pub put_at-same : (key : Bytes) (a : A) (t : Bytes → A) → put_at key a t key ≡ a
  unfolding put_at
  put_at-same key a t = rw (same_refl key) refl

  pub put_at-other : (key k : Bytes) (a : A) (t : Bytes → A) → k ≢ key → put_at key a t k ≡ t k
  unfolding put_at
  put_at-other key k a t ne = elim (Bool-cases (k == key)) [
    | inl e ↦ absurd (ne ((same_bytes_iff k key).0 e))
    | inr e ↦ rw e refl
  ]

pub content-at :
    (db : Db) (k : Bytes) (m : Meta)
    → db.meta k ≡ some m
    → content k db ≡ some (m, db.rows m.key_type k)
unfolding content content_of
content-at db k m e = rw e refl

-- Two databases that agree at a key.
pub content-same :
    (k : Bytes) (db other : Db)
    → other.meta k ≡ db.meta k
    → ((t : KeyType) → other.rows t k ≡ db.rows t k)
    → content k other ≡ content k db
unfolding content content_of
content-same k db other e r = elim (Option-cases (db.meta k)) [
  | inl n ↦ rw (e, n) refl
  | inr (m, n) ↦ rw (e, n) (ap (λ x. some (m, x)) (r m.key_type))
]

pub same_type_self : (t : KeyType) → same_type t t ≡ true
unfolding same_type
same_type_self type_none = refl
same_type_self type_string = refl
same_type_self type_hash = refl
same_type_self type_list = refl
same_type_self type_set = refl
same_type_self type_zset = refl
same_type_self type_hyperloglog = refl
