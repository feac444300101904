-- ===== src/Storage/Keys/Delete.antt =====
-- DEL against EXISTS: what it counts, and what it leaves.
mod Order
use mathlib.Core.Path.{subst}
use mathlib.Core.List.{Permᴰ}
use postkeys.Base.{
  ℕ, suc, ◌+◌, ◌≡◌, ◌≢◌, refl, sym, ◌∙◌, arith, Bool, true, false, not, ◌&&◌, ◌||◌, inl, inr,
  Bool-cases, Option, none, some, List, [], ◌∷◌, ◌==◌, if◌then◌else◌, All,
}
use postkeys.Base.Set.{contains, same_refl}
use postkeys.Base.Bytes.{Bytes, compare_bytes, same_bytes_iff}
use postkeys.Storage.Tables.{
  Meta, Db, type_none, same_type, is_live, live_type, get_key_type, put_at-same, put_at-other,
  delete_key_from_all_tables, IsGone, IsKept,
}
use postkeys.Storage.Keys.Delete.Order.{contains-perm, exists-perm}
use postkeys.Storage.Keys.{del_loop, del, exists, is_live_meta}

-- kv_meta has a row of no type for no key.
abbrev is_typed : Option Meta → Bool
is_typed none = true
is_typed (some m) = not (same_type m.key_type type_none)

abbrev pub IsTyped : Db → Type 0
IsTyped db = (k : Bytes) → is_typed (db.meta k) ≡ true

abbrev live : ℕ → Bytes → Db → Bool
live now key db = is_live_meta now (db.meta key)

none-dead :
    (now : ℕ) (m : Option Meta)
    → is_typed m ≡ true
    → same_type (live_type now m) type_none ≡ not (is_live_meta now m)
unfolding live_type is_live_meta same_type
none-dead now none h = refl
none-dead now (some m) h = elim (Bool-cases (is_live now m.expires_at)) [
  | inl e ↦ rw e (flipped (same_type m.key_type type_none) h)
  | inr e ↦ rw e refl
]
  where
    flipped : (b : Bool) → not b ≡ true → b ≡ false
    flipped true h = h' h
      where
        h' : false ≡ true → true ≡ false
        h' e = sym e
    flipped false h = refl

deleted-meta :
    (key k : Bytes) (db : Db) → k ≢ key → (delete_key_from_all_tables key db).meta k ≡ db.meta k
unfolding delete_key_from_all_tables
deleted-meta key k db ne = put_at-other key k none db.meta ne

deleted-none : (key : Bytes) (db : Db) → (delete_key_from_all_tables key db).meta key ≡ none
unfolding delete_key_from_all_tables
deleted-none key db = put_at-same key none db.meta

deleted-dead :
    (now : ℕ) (key : Bytes) (db : Db) → live now key (delete_key_from_all_tables key db) ≡ false
unfolding is_live_meta
deleted-dead now key db = rw (deleted-none key db) refl

unequal : (k key : Bytes) → (k == key) ≡ false → k ≢ key
unequal k key e eq = ground (arith, same_bytes_iff k key)

-- At a key that may be the deleted one.
deleted-live :
    (now : ℕ) (key k : Bytes) (db : Db)
    → live now k (delete_key_from_all_tables key db) ≡ (if k == key then false else live now k db)
deleted-live now key k db = elim (Bool-cases (k == key)) [
  | inl e ↦ rw (e, (same_bytes_iff k key).0 e) (deleted-dead now key db)
  | inr e ↦ rw (e, deleted-meta key k db (unequal k key e)) refl
]

deleted-IsTyped : (key : Bytes) (db : Db) → IsTyped db → IsTyped (delete_key_from_all_tables key db)
deleted-IsTyped key db h k = elim (Bool-cases (k == key)) [
  | inl e ↦ rw ((same_bytes_iff k key).0 e, deleted-none key db) refl
  | inr e ↦ rw (deleted-meta key k db (unequal k key e)) (h k)
]

-- A deleted key is one less among the keys that EXISTS counts.
exists-deleted :
    (now : ℕ) (key : Bytes) (ks : List Bytes) (db : Db)
    → exists now ks db
      ≡ exists now ks (delete_key_from_all_tables key db)
        + (if live now key db && contains key ks then 1 else 0)
unfolding exists contains
exists-deleted now key [] db = ground arith
exists-deleted now key (j ∷ ks) db = elim (Bool-cases (j == key)) [
  | inl e ↦
      rw ((same_bytes_iff j key).0 e, same_refl key, deleted-dead now key db)
        (ground (arith, exists-deleted now key ks db))
  | inr e ↦
      rw (deleted-meta key j db (unequal j key e), e) (ground (arith, exists-deleted now key ks db))
]

del_loop-count :
    (now : ℕ) (ks : List Bytes) (n : ℕ) (db : Db)
    → IsTyped db
    → (del_loop now ks n db).0 ≡ n + exists now ks db
unfolding del_loop exists get_key_type
del_loop-count now [] n db h = omega arith
del_loop-count now (k ∷ ks) n db h = elim (Bool-cases (live now k db)) [
  | inl e ↦
      rw (none-dead now (db.meta k) (h k), e)
        (ground (
          arith,
          del_loop-count now ks (suc n) (delete_key_from_all_tables k db) (deleted-IsTyped k db h),
          exists-deleted now k ks db,
          e,
        ))
  | inr e ↦ rw (none-dead now (db.meta k) (h k), e) (del_loop-count now ks n db h)
]

-- What is not live stays so.
del_loop-dead :
    (now : ℕ) (ks : List Bytes) (n : ℕ) (k : Bytes) (db : Db)
    → live now k db ≡ false
    → live now k (del_loop now ks n db).1 ≡ false
unfolding del_loop
del_loop-dead now [] n k db h = h
del_loop-dead now (j ∷ ks) n k db h =
    elim (Bool-cases (same_type (get_key_type now j db) type_none)) [
      | inl e ↦ rw e (del_loop-dead now ks n k db h)
      | inr e ↦ rw e (
          del_loop-dead now ks (suc n) k (delete_key_from_all_tables j db)
            (deleted-live now j k db ∙ ground (arith, h)))
    ]

del_loop-live :
    (now : ℕ) (k : Bytes) (ks : List Bytes) (n : ℕ) (db : Db)
    → IsTyped db
    → live now k db ≡ true
    → del_loop now (k ∷ ks) n db ≡ del_loop now ks (suc n) (delete_key_from_all_tables k db)
unfolding del_loop get_key_type
del_loop-live now k ks n db h e = rw (none-dead now (db.meta k) (h k), e) refl

del_loop-skip :
    (now : ℕ) (k : Bytes) (ks : List Bytes) (n : ℕ) (db : Db)
    → IsTyped db
    → live now k db ≡ false
    → del_loop now (k ∷ ks) n db ≡ del_loop now ks n db
unfolding del_loop get_key_type
del_loop-skip now k ks n db h e = rw (none-dead now (db.meta k) (h k), e) refl

del_loop-All_dead :
    (now : ℕ) (ks : List Bytes) (n : ℕ) (db : Db)
    → IsTyped db
    → All (λ k. live now k (del_loop now ks n db).1 ≡ false) ks
del_loop-All_dead now [] n db h = tt
del_loop-All_dead now (k ∷ ks) n db h = elim (Bool-cases (live now k db)) [
  | inl e ↦
      let after : Db = delete_key_from_all_tables k db in
      subst (λ r. All (λ x. live now x r.1 ≡ false) (k ∷ ks))
        (sym (del_loop-live now k ks n db h e))
        (
          del_loop-dead now ks (suc n) k after (deleted-dead now k db),
          del_loop-All_dead now ks (suc n) after (deleted-IsTyped k db h),
        )
  | inr e ↦
      subst (λ r. All (λ x. live now x r.1 ≡ false) (k ∷ ks))
        (sym (del_loop-skip now k ks n db h e))
        (del_loop-dead now ks n k db e, del_loop-All_dead now ks n db h)
]

exists-All_dead :
    (now : ℕ) (ks : List Bytes) (db : Db)
    → All (λ k. live now k db ≡ false) ks
    → exists now ks db ≡ 0
unfolding exists
exists-All_dead now [] db h = refl
exists-All_dead now (k ∷ ks) db h = rw h.0 (exists-All_dead now ks db h.1)

deleted-IsKept : (j k : Bytes) (db : Db) → k ≢ j → IsKept k db (delete_key_from_all_tables j db)
unfolding delete_key_from_all_tables
deleted-IsKept j k db ne =
    (put_at-other j k none db.meta ne, λ t. put_at-other j k [] (db.rows t) ne)

deleted-IsGone : (k : Bytes) (db : Db) → IsGone k (delete_key_from_all_tables k db)
unfolding delete_key_from_all_tables
deleted-IsGone k db = (put_at-same k none db.meta, λ t. put_at-same k [] (db.rows t))

del_loop-IsKept :
    (now : ℕ) (ks : List Bytes) (n : ℕ) (k : Bytes) (db : Db)
    → contains k ks ≡ false
    → IsKept k db (del_loop now ks n db).1
unfolding del_loop contains
del_loop-IsKept now [] n k db h = (refl, λ t. refl)
del_loop-IsKept now (j ∷ ks) n k db h =
    elim (Bool-cases (same_type (get_key_type now j db) type_none)) [
      | inl e ↦ rw e (del_loop-IsKept now ks n k db (ground arith))
      | inr e ↦
          let after : Db = delete_key_from_all_tables j db in
          let rest = del_loop-IsKept now ks (suc n) k after (ground arith) in
          let this = deleted-IsKept j k db (λ q. ground (arith, same_bytes_iff j k, q)) in
          rw e (rest.0 ∙ this.0, λ t. rest.1 t ∙ this.1 t)
    ]

-- What is gone stays so.
IsGone-del_loop :
    (now : ℕ) (ks : List Bytes) (n : ℕ) (k : Bytes) (db : Db)
    → IsGone k db
    → IsGone k (del_loop now ks n db).1
unfolding del_loop
IsGone-del_loop now [] n k db h = h
IsGone-del_loop now (j ∷ ks) n k db h =
    elim (Bool-cases (same_type (get_key_type now j db) type_none)) [
      | inl e ↦ rw e (IsGone-del_loop now ks n k db h)
      | inr e ↦ rw e (IsGone-del_loop now ks (suc n) k (delete_key_from_all_tables j db) (still e))
    ]
  where
    still :
        same_type (get_key_type now j db) type_none ≡ false
        → IsGone k (delete_key_from_all_tables j db)
    still e = elim (Bool-cases (k == j)) [
      | inl q ↦ rw ((same_bytes_iff k j).0 q) (deleted-IsGone j db)
      | inr q ↦
          let kept = deleted-IsKept j k db (unequal k j q) in (kept.0 ∙ h.0, λ t. kept.1 t ∙ h.1 t)
    ]

del_loop-IsGone :
    (now : ℕ) (ks : List Bytes) (n : ℕ) (k : Bytes) (db : Db)
    → IsTyped db
    → contains k ks ≡ true
    → live now k db ≡ true
    → IsGone k (del_loop now ks n db).1
unfolding contains
del_loop-IsGone now [] n k db typed h l = cc h
del_loop-IsGone now (j ∷ ks) n k db typed h l = elim (Bool-cases (j == k)) [
  | inl e ↦
      let lj : live now j db ≡ true = rw ((same_bytes_iff j k).0 e) l in
      rw (del_loop-live now j ks n db typed lj) (
        IsGone-del_loop now ks (suc n) k (delete_key_from_all_tables j db)
          (rw ((same_bytes_iff j k).0 e) (deleted-IsGone k db)))
  | inr e ↦ elim (Bool-cases (live now j db)) [
    | inl lj ↦ rw (del_loop-live now j ks n db typed lj) (
        del_loop-IsGone now ks (suc n) k (delete_key_from_all_tables j db)
          (deleted-IsTyped j db typed) (ground arith)
          (rw (deleted-meta j k db (λ q. ground (arith, same_bytes_iff j k, q))) l))
    | inr lj ↦
        rw (del_loop-skip now j ks n db typed lj)
          (del_loop-IsGone now ks n k db typed (ground arith) l)
  ]
]

-- Whatever order the keys are put in, with a type for every key in kv_meta: DEL counts what EXISTS counts of
-- the same keys, EXISTS counts none of them afterwards, a live key that was named is gone from every
-- table, and a key that was not named has in every table what it had.
pub del-exists :
    (sort : List Bytes → List Bytes)
    → ((keys : List Bytes) → Permᴰ (sort keys) keys)
    → (now : ℕ) (keys : List Bytes) (db : Db) → IsTyped db
    → let (count, after) = del sort now keys db in
      (count ≡ exists now keys db)
      × ((exists now keys after ≡ 0)
          × ((k : Bytes)
              → (contains k keys ≡ true → is_live_meta now (db.meta k) ≡ true → IsGone k after)
                × (contains k keys ≡ false → IsKept k db after)))
unfolding del
del-exists sort order now keys db h =
    let after = (del_loop now (sort keys) 0 db).1 in
    (
      omega (arith, del_loop-count now (sort keys) 0 db h, exists-perm now db (order keys)),
      (
        sym (exists-perm now after (order keys))
            ∙ exists-All_dead now (sort keys) after (del_loop-All_dead now (sort keys) 0 db h),
        λ k. (
          λ named l.
              del_loop-IsGone now (sort keys) 0 k db h (contains-perm k (order keys) ∙ named) l,
          λ absent. del_loop-IsKept now (sort keys) 0 k db (contains-perm k (order keys) ∙ absent),
        ),
      ),
    )
