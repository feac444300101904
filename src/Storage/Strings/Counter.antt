-- ===== src/Storage/Strings/Counter.antt =====
-- INCR of a key that has expired.
use postkeys.Base.{ℕ, false, ◌≡◌, refl, ap, ◌∙◌, none, some, [], ◌∷◌, if◌then◌else◌}
use postkeys.Base.Int.{ℤ, pos, ◌+ℤ◌}
use postkeys.Base.Bytes.{Bytes, format_int}
use postkeys.Storage.BitField.{wrap64}
use postkeys.Storage.Tables.{Expiry, is_live, type_string, Db, put_at-same, set_meta}
use postkeys.Storage.Strings.{
  StringRow, put_string_rows, string_row, set_string, live_value, get, row_expiry, upsert_value,
  current_number, counted, incr,
}

string_row-set_string :
    (key : Bytes) (row : StringRow) (db : Db) → string_row key (set_string key row db) ≡ (row ∷ [])
unfolding string_row set_string put_string_rows
string_row-set_string key row db = put_at-same key (row ∷ []) (db.rows type_string)

get-set_string :
    (now : ℕ) (key v : Bytes) (e : Expiry) (db : Db)
    → get now key (set_string key (v, e) db) ≡ (if is_live now e then some v else none)
unfolding get live_value
get-set_string now key v e db = rw (string_row-set_string key (v, e) db) refl

-- The tables behind an INCR.
abbrev pub counted_db : Bytes → ℤ → Db → Db
counted_db key result db = upsert_value key (format_int result) (set_meta key type_string none db)

get-upsert :
    (now : ℕ) (key v w : Bytes) (e : Expiry) (db : Db)
    → string_row key db ≡ ((v, e) ∷ [])
    → get now key (upsert_value key w db) ≡ (if is_live now e then some w else none)
unfolding upsert_value row_expiry
get-upsert now key v w e db h = rw h (get-set_string now key w e db)

string_row-set_meta :
    (key : Bytes) (db : Db) → string_row key (set_meta key type_string none db) ≡ string_row key db
unfolding string_row set_meta
string_row-set_meta key db = refl

incr-missing :
    (now : ℕ) (key : Bytes) (delta : ℤ) (db : Db)
    → get now key db ≡ none
    → incr now key delta db
      ≡ some (wrap64 (pos 0 +ℤ delta), counted_db key (wrap64 (pos 0 +ℤ delta)) db)
unfolding incr counted current_number
incr-missing now key delta db h = rw h refl

get-expired :
    (now : ℕ) (key v : Bytes) (e : Expiry) (db : Db)
    → string_row key db ≡ ((v, e) ∷ [])
    → is_live now e ≡ false
    → get now key db ≡ none
unfolding get live_value
get-expired now key v e db h dead = rw (h, dead) refl

-- INCR of a string that has expired, but is still in the table, succeeds and counts from 0, and what it stored is not
-- found: neither by GET nor by the next INCR, which counts from 0 again.
pub get-incr-expired :
    (now : ℕ) (key v : Bytes) (e : Expiry) (delta : ℤ) (db : Db)
    → string_row key db ≡ ((v, e) ∷ [])
    → is_live now e ≡ false
    → let result = wrap64 (pos 0 +ℤ delta) in
      (incr now key delta db ≡ some (result, counted_db key result db))
      × ((get now key (counted_db key result db) ≡ none)
          × (incr now key delta (counted_db key result db)
              ≡ some (result, counted_db key result (counted_db key result db))))
get-incr-expired now key v e delta db h dead =
    let result = wrap64 (pos 0 +ℤ delta) in
    let counted = set_meta key type_string none db in
    let hidden =
      get-upsert now key v (format_int result) e counted (string_row-set_meta key db ∙ h)
      ∙ ap (λ b. if b then some (format_int result) else none) dead in
    (
      incr-missing now key delta db (get-expired now key v e db h dead),
      (hidden, incr-missing now key delta (counted_db key result db) hidden),
    )
