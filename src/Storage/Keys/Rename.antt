-- ===== src/Storage/Keys/Rename.antt =====
-- What RENAME leaves at the two keys and at every other.
use postkeys.Base.{
  ℕ, true, false, ◌≡◌, ◌≢◌, refl, sym, ap, ◌∙◌, none, some, [], Bool-cases, inl, inr,
}
use postkeys.Base.Bytes.{Bytes, compare_bytes}
use postkeys.Storage.Tables.{
  Table, is_live, KeyType, type_none, type_string, type_hash, type_list, type_set, type_zset,
  type_hyperloglog, same_type, same_type_self, Meta, Db, put_at, put_at-same, put_at-other,
  move_rows, live_type, get_key_type, delete_key_from_all_tables, update_table, has_table, content,
  content-at, IsGone, IsOnlyIn, IsKept,
}
use postkeys.Storage.Keys.{move_meta, rename}

module _ {A : Type 0} where
  move_rows-new : (old new : Bytes) (t : Table A) → move_rows old new t new ≡ t old
  unfolding move_rows
  move_rows-new old new t = put_at-same new (t old) (put_at old [] t)

  move_rows-old : (old new : Bytes) (t : Table A) → old ≢ new → move_rows old new t old ≡ []
  unfolding move_rows
  move_rows-old old new t ne =
      put_at-other new old (t old) (put_at old [] t) ne ∙ put_at-same old [] t

  move_rows-other :
      (old new k : Bytes) (t : Table A) → k ≢ old → k ≢ new → move_rows old new t k ≡ t k
  unfolding move_rows
  move_rows-other old new k t a b =
      put_at-other new k (t old) (put_at old [] t) b ∙ put_at-other old k [] t a

-- The key that is renamed is live, and its type has a table.
abbrev pub IsNamed : ℕ → Meta → Type 0
IsNamed now m = (is_live now m.expires_at ≡ true) × (has_table m.key_type ≡ true)

key_type-named :
    (now : ℕ) (old : Bytes) (db : Db) (m : Meta)
    → db.meta old ≡ some m
    → IsNamed now m
    → get_key_type now old db ≡ m.key_type
unfolding get_key_type live_type
key_type-named now old db m e h = rw (e, h.0) refl

table-not_none : (t : KeyType) → has_table t ≡ true → same_type t type_none ≡ false
unfolding has_table same_type
table-not_none type_none h = cc
table-not_none type_string h = refl
table-not_none type_hash h = refl
table-not_none type_list h = refl
table-not_none type_set h = refl
table-not_none type_zset h = refl
table-not_none type_hyperloglog h = cc

-- The tables after the rename.
renamed : KeyType → Bytes → Bytes → Db → Db
renamed t old new db =
    update_table t (λ A. move_rows old new) (move_meta old new (delete_key_from_all_tables new db))

rename-eq :
    (now : ℕ) (old new : Bytes) (db : Db) (m : Meta)
    → db.meta old ≡ some m
    → IsNamed now m
    → rename now old new db ≡ (none, renamed m.key_type old new db)
unfolding rename renamed
rename-eq now old new db m e h =
    rw (key_type-named now old db m e h, table-not_none m.key_type h.1, h.1) refl

renamed-new :
    (t : KeyType) (old new : Bytes) (db : Db)
    → old ≢ new
    → ((renamed t old new db).meta new ≡ db.meta old)
      × ((renamed t old new db).rows t new ≡ db.rows t old)
unfolding renamed update_table move_meta delete_key_from_all_tables
renamed-new t old new db ne = (
  put_at-same new (put_at new none db.meta old) (put_at old none (put_at new none db.meta))
      ∙ put_at-other new old none db.meta ne,
  rw (same_type_self t)
      (move_rows-new old new (put_at new [] (db.rows t)) ∙ put_at-other new old [] (db.rows t) ne),
)

renamed-old :
    (t : KeyType) (old new : Bytes) (db : Db) → old ≢ new → (renamed t old new db).meta old ≡ none
unfolding renamed update_table move_meta delete_key_from_all_tables
renamed-old t old new db ne =
    put_at-other new old (put_at new none db.meta old) (put_at old none (put_at new none db.meta))
      ne
    ∙ put_at-same old none (put_at new none db.meta)

-- The rows of the two keys in every table.
renamed-rows-old :
    (t u : KeyType) (old new : Bytes) (db : Db)
    → old ≢ new
    → IsOnlyIn t old db
    → (renamed t old new db).rows u old ≡ []
unfolding renamed update_table move_meta delete_key_from_all_tables
renamed-rows-old t u old new db ne only = elim (Bool-cases (same_type u t)) [
  | inl e ↦ rw e (move_rows-old old new (put_at new [] (db.rows u)) ne)
  | inr e ↦ rw e (put_at-other new old [] (db.rows u) ne ∙ only u e)
]

renamed-rows-new : (t : KeyType) (old new : Bytes) (db : Db) → IsOnlyIn t new (renamed t old new db)
unfolding renamed update_table move_meta delete_key_from_all_tables
renamed-rows-new t old new db u e = rw e (put_at-same new [] (db.rows u))

renamed-other :
    (t u : KeyType) (old new k : Bytes) (db : Db)
    → k ≢ old
    → k ≢ new
    → ((renamed t old new db).meta k ≡ db.meta k) × ((renamed t old new db).rows u k ≡ db.rows u k)
unfolding renamed update_table move_meta delete_key_from_all_tables
renamed-other t u old new k db a b = (
  put_at-other new k (put_at new none db.meta old) (put_at old none (put_at new none db.meta)) b
      ∙ (put_at-other old k none (put_at new none db.meta) a ∙ put_at-other new k none db.meta b),
  elim (Bool-cases (same_type u t)) [
    | inl e ↦ rw e (
        move_rows-other old new k (put_at new [] (db.rows u)) a b
        ∙ put_at-other new k [] (db.rows u) b)
    | inr e ↦ rw e (put_at-other new k [] (db.rows u) b)
  ],
)

-- RENAME of a live key with a data table, the only one with rows of the key, to another key succeeds. Then
-- the content of the old key, with its type and its expiry, is at the new key and no other table has rows
-- of it; no table has a row of the old key; and every other key has in every table what it had.
pub rename-content :
    (now : ℕ) (old new k : Bytes) (db : Db) (m : Meta)
    → db.meta old ≡ some m
    → IsNamed now m
    → IsOnlyIn m.key_type old db
    → old ≢ new
    → k ≢ old
    → k ≢ new
    → let (answer, after) = rename now old new db in
      (answer ≡ none)
      × ((content new after ≡ content old db)
          × (IsOnlyIn m.key_type new after × (IsGone old after × IsKept k db after)))
rename-content now old new k db m e h only ne a b =
    let fresh = renamed-new m.key_type old new db ne in
    let other = renamed-other m.key_type m.key_type old new k db a b in
    rw (rename-eq now old new db m e h) (
      refl,
      (
        content-at (renamed m.key_type old new db) new m (fresh.0 ∙ e)
            ∙ (ap (λ r. some (m, r)) fresh.1 ∙ sym (content-at db old m e)),
        (
          renamed-rows-new m.key_type old new db,
          (
            (
              renamed-old m.key_type old new db ne,
              λ u. renamed-rows-old m.key_type u old new db ne only,
            ),
            (other.0, λ u. (renamed-other m.key_type u old new k db a b).1),
          ),
        ),
      ),
    )

renamed-same_key : (t : KeyType) (key : Bytes) (db : Db) → IsGone key (renamed t key key db)
unfolding renamed update_table move_meta delete_key_from_all_tables
renamed-same_key t key db = (
  put_at-same key (put_at key none db.meta key) (put_at key none (put_at key none db.meta))
      ∙ put_at-same key none db.meta,
  λ u. elim (Bool-cases (same_type u t)) [
    | inl e ↦
        rw e (move_rows-new key key (put_at key [] (db.rows u)) ∙ put_at-same key [] (db.rows u))
    | inr e ↦ rw e (put_at-same key [] (db.rows u))
  ],
)

-- RENAME of a live key with a data table to itself succeeds and deletes the key from every table.
pub rename-same_key :
    (now : ℕ) (key : Bytes) (db : Db) (m : Meta)
    → db.meta key ≡ some m
    → IsNamed now m
    → ((rename now key key db).0 ≡ none) × IsGone key (rename now key key db).1
rename-same_key now key db m e h =
    rw (rename-eq now key key db m e h) (refl, renamed-same_key m.key_type key db)
