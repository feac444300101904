-- ===== src/Storage/Keys/Expire.antt =====
-- What EXPIRE and its kin leave at the key and at every other, and what their flags ask for.
use postkeys.Base.{
  ℕ, Bool, true, false, not, ◌&&◌, ◌||◌, ◌≡◌, ◌≢◌, refl, ap, ◌∙◌, none, some, List, map, ltb,
  if◌then◌else◌, arith, Bool-cases, inl, inr,
}
use postkeys.Base.Bytes.{Bytes, compare_bytes}
use postkeys.Storage.Tables.{
  Table, Columns, Expiry, is_live, KeyType, same_type, same_type_self, has_table, Meta, Db,
  put_at-same, put_at-other, set_expiry, set_meta, update_table, Content, content, content-at,
  content-same,
}
use postkeys.Storage.Keys.{ExpireOptions, expire_applies, expire_at, expire_row}

-- An expiry that is NULL is later than every time.
abbrev pub is_earlier : Expiry → Expiry → Bool
is_earlier none b = false
is_earlier (some a) none = true
is_earlier (some a) (some b) = ltb a b

abbrev has_expiry : Expiry → Bool
has_expiry none = false
has_expiry (some t) = true

-- Every flag that is given holds of the key's expiry and the new one.
abbrev pub allowed : ExpireOptions → Expiry → Expiry → Bool
allowed o old new =
    (not o.nx || not (has_expiry old))
    && ((not o.xx || has_expiry old)
        && ((not o.gt || is_earlier old new) && (not o.lt || is_earlier new old)))

-- At most one flag is given.
abbrev pub IsSingle : ExpireOptions → Type 0
IsSingle o =
    ((o.nx && (o.xx || (o.gt || o.lt))) ≡ false)
    × (((o.xx && (o.gt || o.lt)) ≡ false) × ((o.gt && o.lt) ≡ false))

-- On a key that is live, and with at most one flag, the update of EXPIRE applies just where the flag allows it.
pub expire_applies-allowed :
    (o : ExpireOptions) (now new : ℕ) (old : Expiry)
    → IsSingle o
    → is_live now old ≡ true
    → expire_applies o now new old ≡ allowed o old (some new)
unfolding expire_applies is_live
expire_applies-allowed o now new none s h = ground arith
expire_applies-allowed o now new (some t) s h = ground arith

set_expiry-other :
    {A : Type 0} (key k : Bytes) (e : Expiry) (t : Table A) → k ≢ key → set_expiry key e t k ≡ t k
unfolding set_expiry
set_expiry-other key k e t ne = put_at-other key k (map (λ r. (r.0, e)) (t key)) t ne

-- The rows of a key, all with one expiry.
abbrev pub expiring : {A : Type 0} → Expiry → List (A × Expiry) → List (A × Expiry)
expiring e rows = map (λ r. (r.0, e)) rows

-- The tables after an update that applies.
expired_db : Bytes → ℕ → Meta → Db → Db
expired_db key t m db =
    update_table m.key_type (λ A. set_expiry key (some t)) (set_meta key m.key_type (some t) db)

expire_at-applies :
    (o : ExpireOptions) (now : ℕ) (key : Bytes) (t : ℕ) (db : Db) (m : Meta)
    → db.meta key ≡ some m
    → has_table m.key_type ≡ true
    → expire_applies o now t m.expires_at ≡ true
    → expire_at o now key t db ≡ (true, expired_db key t m db)
unfolding expire_at expire_row expired_db
expire_at-applies o now key t db m e h a = rw (e, a, h) refl

expired-meta :
    (key : Bytes) (t : ℕ) (m : Meta) (db : Db)
    → (expired_db key t m db).meta key
      ≡ some (record { key_type = m.key_type; expires_at = some t })
unfolding expired_db update_table set_meta
expired-meta key t m db =
    put_at-same key (some (record { key_type = m.key_type; expires_at = some t })) db.meta

expired-rows :
    (key : Bytes) (t : ℕ) (m : Meta) (db : Db)
    → (expired_db key t m db).rows m.key_type key ≡ expiring (some t) (db.rows m.key_type key)
unfolding expired_db update_table set_meta set_expiry
expired-rows key t m db =
    rw (same_type_self m.key_type)
      (put_at-same key (expiring (some t) (db.rows m.key_type key)) (db.rows m.key_type))

other-meta :
    (key k : Bytes) (t : ℕ) (m : Meta) (db : Db)
    → k ≢ key
    → (expired_db key t m db).meta k ≡ db.meta k
unfolding expired_db update_table set_meta
other-meta key k t m db ne =
    put_at-other key k (some (record { key_type = m.key_type; expires_at = some t })) db.meta ne

other-rows :
    (key k : Bytes) (t : ℕ) (m : Meta) (db : Db)
    → k ≢ key
    → (u : KeyType) → (expired_db key t m db).rows u k ≡ db.rows u k
unfolding expired_db update_table set_meta
other-rows key k t m db ne u = elim (Bool-cases (same_type u m.key_type)) [
  | inl e ↦ rw e (set_expiry-other key k (some t) (db.rows u) ne)
  | inr e ↦ rw e refl
]

expire_at-refused :
    (o : ExpireOptions) (now : ℕ) (key : Bytes) (t : ℕ) (db : Db) (m : Meta)
    → db.meta key ≡ some m
    → expire_applies o now t m.expires_at ≡ false
    → expire_at o now key t db ≡ (false, db)
unfolding expire_at expire_row
expire_at-refused o now key t db m e a = rw (e, a) refl

-- The content of a key with another expiry, on the key and on all of its rows.
abbrev pub renewed : ℕ → (m : Meta) → List (Columns m.key_type × Expiry) → Content
renewed t m rows =
    some (record { key_type = m.key_type; expires_at = some t }, expiring (some t) rows)

-- EXPIRE, with at most one flag, of a live key with a data table replies whether the flag allows it. If so the key
-- and all of its rows have the new expiry, and otherwise the key has what it had. Every other key has what it had.
pub expire_at-content :
    (o : ExpireOptions) (now : ℕ) (key k : Bytes) (t : ℕ) (db : Db) (m : Meta)
    → db.meta key ≡ some m
    → is_live now m.expires_at ≡ true
    → has_table m.key_type ≡ true
    → IsSingle o
    → k ≢ key
    → ((expire_at o now key t db).0 ≡ allowed o m.expires_at (some t))
      × ((content key (expire_at o now key t db).1 ≡ (
            if allowed o m.expires_at (some t)
            then renewed t m (db.rows m.key_type key)
            else content key db))
          × (content k (expire_at o now key t db).1 ≡ content k db))
expire_at-content o now key k t db m e live h s ne =
    let agrees = expire_applies-allowed o now t m.expires_at s live in
    elim (Bool-cases (allowed o m.expires_at (some t))) [
      | inl a ↦
          rw (expire_at-applies o now key t db m e h (agrees ∙ a), a)
            (
              refl,
              (
                content-at (expired_db key t m db) key
                      (record { key_type = m.key_type; expires_at = some t })
                      (expired-meta key t m db)
                    ∙ ap (λ r. some (record { key_type = m.key_type; expires_at = some t }, r))
                        (expired-rows key t m db),
                content-same k db (expired_db key t m db) (other-meta key k t m db ne)
                    (other-rows key k t m db ne),
              ),
            )
      | inr a ↦ rw (expire_at-refused o now key t db m e (agrees ∙ a), a) (refl, (refl, refl))
    ]
