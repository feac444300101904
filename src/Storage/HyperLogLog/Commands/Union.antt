-- ===== src/Storage/HyperLogLog/Commands/Union.antt =====
-- PFMERGE of one key into another, against PFADD of all the elements to the one.
use postkeys.Base.{
  ℕ, ◌≡◌, ◌≢◌, refl, sym, ap, ◌∙◌, arith, Bool, true, false, inl, inr, Bool-cases, Option, none,
  some, List, [], ◌∷◌, ◌++◌, length, ◌==◌, compare_numbers,
}
use postkeys.Base.Bytes.{Bytes, compare_bytes}
use postkeys.Storage.HyperLogLog.{Sketch, new_sketch, from_bytes, to_bytes, add, merge, registers}
use postkeys.Storage.HyperLogLog.Merge.{
  add_all, length-add_all, merge-add_all, merge-new, add_all-append, length-zeros,
}
use postkeys.Storage.Tables.{
  Db, type_hyperloglog, is_live, get_key_type, live_type, same_type, set_meta, put_at-same,
  put_at-other,
}
use postkeys.Storage.HyperLogLog.Commands.{
  SketchRow, sketch_row, live_sketch, sketch_or_new, sketch_at, row_expiry, put_sketch_rows,
  upsert_sketch, is_not_sketch, add_elements, pf_add, merge_found, merge_sources, pf_merge,
}

add_elements-add_all :
    (fnv : Bytes → ℕ) (xs : List Bytes) (h : Sketch) (changed : Bool)
    → (add_elements fnv xs h changed).0 ≡ add_all fnv xs h
unfolding add_elements
add_elements-add_all fnv [] h changed = refl
add_elements-add_all fnv (x ∷ xs) h changed = add_elements-add_all fnv xs (add fnv x h).0 _

length-new : length new_sketch ≡ registers
unfolding new_sketch
length-new = length-zeros registers

length-from_bytes : (bytes : Bytes) → length (from_bytes bytes) ≡ registers
unfolding from_bytes
length-from_bytes bytes = elim (Bool-cases (length bytes == registers)) [
  | inl e ↦ rw e (ground arith)
  | inr e ↦ rw e length-new
]

length-live :
    (now : ℕ) (rows : List SketchRow) → length (sketch_or_new (live_sketch now rows)) ≡ registers
unfolding live_sketch sketch_or_new
length-live now [] = length-new
length-live now ((bytes, e) ∷ rows) = elim (Bool-cases (is_live now e)) [
  | inl h ↦ rw h (length-from_bytes bytes)
  | inr h ↦ rw h length-new
]

length-sketch_at : (now : ℕ) (key : Bytes) (db : Db) → length (sketch_at now key db) ≡ registers
unfolding sketch_at
length-sketch_at now key db = length-live now (sketch_row key db)

from_bytes-to_bytes : (h : Sketch) → length h ≡ registers → from_bytes (to_bytes h) ≡ h
unfolding from_bytes to_bytes
from_bytes-to_bytes h e = let same : (length h == registers) ≡ true = ground arith in rw same refl

-- The tables behind a command that stores a sketch.
stored : Bytes → Sketch → Db → Db
stored key h db = upsert_sketch key h (set_meta key type_hyperloglog none db)

-- A row that is there has not expired.
abbrev pub IsFresh : ℕ → Bytes → Db → Type 0
IsFresh now key db = is_live now (row_expiry (sketch_row key db)) ≡ true

stored-row :
    (key : Bytes) (h : Sketch) (db : Db)
    → sketch_row key (stored key h db) ≡ (h, row_expiry (sketch_row key db)) ∷ []
unfolding stored upsert_sketch put_sketch_rows set_meta sketch_row to_bytes
stored-row key h db =
    put_at-same key ((h, row_expiry (db.rows type_hyperloglog key)) ∷ []) (db.rows type_hyperloglog)

stored-other :
    (key k : Bytes) (h : Sketch) (db : Db)
    → k ≢ key
    → sketch_row k (stored key h db) ≡ sketch_row k db
unfolding stored upsert_sketch put_sketch_rows set_meta sketch_row to_bytes
stored-other key k h db ne =
    put_at-other key k ((h, row_expiry (db.rows type_hyperloglog key)) ∷ [])
      (db.rows type_hyperloglog) ne

stored-live :
    (now : ℕ) (key : Bytes) (h : Sketch) (db : Db)
    → IsFresh now key db
    → length h ≡ registers
    → live_sketch now (sketch_row key (stored key h db)) ≡ some h
unfolding live_sketch
stored-live now key h db fresh e =
    rw (stored-row key h db, fresh) (ap (λ s. some s) (from_bytes-to_bytes' h e))
  where
    from_bytes-to_bytes' : (h : Sketch) → length h ≡ registers → from_bytes h ≡ h
    from_bytes-to_bytes' h e = unfold to_bytes in from_bytes-to_bytes h e

stored-at :
    (now : ℕ) (key : Bytes) (h : Sketch) (db : Db)
    → IsFresh now key db
    → length h ≡ registers
    → sketch_at now key (stored key h db) ≡ h
unfolding sketch_at sketch_or_new
stored-at now key h db fresh e = rw (stored-live now key h db fresh e) refl

stored-IsFresh :
    (now : ℕ) (key : Bytes) (h : Sketch) (db : Db)
    → IsFresh now key db
    → IsFresh now key (stored key h db)
unfolding row_expiry
stored-IsFresh now key h db fresh = rw (stored-row key h db) fresh

stored-type :
    (now : ℕ) (key : Bytes) (h : Sketch) (db : Db) → is_not_sketch now key (stored key h db) ≡ false
unfolding is_not_sketch get_key_type live_type stored upsert_sketch set_meta is_live same_type
stored-type now key h db = rw (put_at-same key _ db.meta) refl

stored-type-other :
    (now : ℕ) (key k : Bytes) (h : Sketch) (db : Db)
    → k ≢ key
    → is_not_sketch now k (stored key h db) ≡ is_not_sketch now k db
unfolding is_not_sketch get_key_type stored upsert_sketch set_meta
stored-type-other now key k h db ne = rw (put_at-other key k _ db.meta ne) refl

pf_add-stored :
    (fnv : Bytes → ℕ) (now : ℕ) (key : Bytes) (xs : List Bytes) (db : Db)
    → is_not_sketch now key db ≡ false
    → (n : ℕ) × (pf_add fnv now key xs db
        ≡ some (n, stored key (add_all fnv xs (sketch_at now key db)) db))
unfolding pf_add stored
pf_add-stored fnv now key xs db h =
    rw (h, add_elements-add_all fnv xs (sketch_at now key db) false) (_, refl)

-- What follows a PFADD that worked.
abbrev pub behind : Option (ℕ × Db) → (Db → Option Db) → Option Db
behind none f = none
behind (some (n, db)) f = f db

-- PFADD to two keys, and then PFMERGE of the second into the first.
abbrev pub add_add_merge :
    (Bytes → ℕ) → ℕ → Bytes → List Bytes → Bytes → List Bytes → Db → Option Db
add_add_merge fnv now a xs b ys db =
    behind (pf_add fnv now a xs db)
      (λ d. behind (pf_add fnv now b ys d) (λ d'. pf_merge now a (b ∷ []) d'))

pf_merge-stored :
    (now : ℕ) (a b : Bytes) (h other : Sketch) (db : Db)
    → is_not_sketch now a db ≡ false
    → sketch_at now a db ≡ h
    → live_sketch now (sketch_row b db) ≡ some other
    → pf_merge now a (b ∷ []) db ≡ some (stored a (merge h other) db)
unfolding pf_merge merge_sources merge_found stored
pf_merge-stored now a b h other db t e f = rw (t, f, e) refl

-- On keys that hold a sketch or nothing, no rows that have expired among them, and with nothing in the sketch of
-- the second: PFADD of some elements to the first key, PFADD of others to the second and PFMERGE of the
-- second into the first succeed, as does PFADD of all the elements to the first. Both leave the same
-- registers at the first key, whatever it held, and the merge leaves those of the second.
pub pf_merge-pf_add :
    (fnv : Bytes → ℕ) (now : ℕ) (a b : Bytes) (xs ys : List Bytes) (db : Db)
    → a ≢ b
    → is_not_sketch now a db ≡ false
    → is_not_sketch now b db ≡ false
    → IsFresh now a db
    → IsFresh now b db
    → sketch_at now b db ≡ new_sketch
    → (merged : Db) × ((n : ℕ) × ((added : Db) × ((add_add_merge fnv now a xs b ys db ≡ some merged)
            × ((pf_add fnv now a (xs ++ ys) db ≡ some (n, added))
                × ((sketch_at now a merged ≡ sketch_at now a added)
                    × (sketch_at now b merged ≡ add_all fnv ys new_sketch))))))
pf_merge-pf_add fnv now a b xs ys db ne ta tb fa fb eb =
    let ha = add_all fnv xs (sketch_at now a db) in
    let hb = add_all fnv ys new_sketch in
    let la = length-add_all fnv xs (sketch_at now a db) ∙ length-sketch_at now a db in
    let lb = length-add_all fnv ys new_sketch ∙ length-new in
    let both = add_all fnv (xs ++ ys) (sketch_at now a db) in
    let lboth = length-add_all fnv (xs ++ ys) (sketch_at now a db) ∙ length-sketch_at now a db in
    let union : merge ha hb ≡ both =
      merge-add_all fnv ys ha new_sketch (la ∙ sym length-new)
      ∙ (ap (add_all fnv ys) (merge-new ha (la ∙ sym length-new))
          ∙ sym (add_all-append fnv xs ys (sketch_at now a db))) in
    let ne' : b ≢ a = λ e. ne (sym e) in
    let d1 = stored a ha db in
    let d2 = stored b hb d1 in
    let row1 = stored-other a b ha db ne' in
    let row2 = stored-other b a hb d1 ne in
    let fa1 = stored-IsFresh now a ha db fa in
    let fb1 : IsFresh now b d1 = rw row1 fb in
    let fa2 : IsFresh now a d2 = rw row2 fa1 in
    let (n1, e1) = pf_add-stored fnv now a xs db ta in
    let at1 : sketch_at now b d1 ≡ new_sketch = same_row now b d1 db row1 ∙ eb in
    let (n2, e2) = pf_add-stored fnv now b ys d1 (stored-type-other now a b ha db ne' ∙ tb) in
    let (n, e) = pf_add-stored fnv now a (xs ++ ys) db ta in
    let e3 =
      pf_merge-stored now a b ha hb d2
        (stored-type-other now b a hb d1 ne ∙ stored-type now a ha db)
        (same_row now a d2 d1 row2 ∙ stored-at now a ha db fa la)
        (stored-live now b hb d1 fb1 lb) in
    (
      stored a (merge ha hb) d2,
      (
        n,
        (
          stored a both db,
          (
            ap
                  (λ o.
                    behind o
                      (λ d. behind (pf_add fnv now b ys d) (λ d'. pf_merge now a (b ∷ []) d')))
                  e1
                ∙ (ap (λ o. behind o (λ d'. pf_merge now a (b ∷ []) d'))
                      (e2 ∙ ap (λ h. some (n2, stored b (add_all fnv ys h) d1)) at1)
                    ∙ e3),
            (
              e,
              (
                stored-at now a (merge ha hb) d2 fa2 (ap length union ∙ lboth)
                    ∙ (union ∙ sym (stored-at now a both db fa lboth)),
                same_row now b (stored a (merge ha hb) d2) d2
                      (stored-other a b (merge ha hb) d2 ne')
                    ∙ stored-at now b hb d1 fb1 lb,
              ),
            ),
          ),
        ),
      ),
    )
  where
    same_row :
        (now : ℕ) (key : Bytes) (d d' : Db)
        → sketch_row key d ≡ sketch_row key d'
        → sketch_at now key d ≡ sketch_at now key d'
    same_row now key d d' e = unfold sketch_at in ap (λ r. sketch_or_new (live_sketch now r)) e
