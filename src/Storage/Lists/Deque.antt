-- ===== src/Storage/Lists/Deque.antt =====
-- The pushes to a list against a list of values.
use mathlib.Core.Path.{subst}
use postkeys.Base.{
  ℕ, suc, ◌≡◌, refl, sym, ap, false, Option, none, some, List, [], ◌∷◌, ◌++◌, map, append-nil,
  length,
}
use postkeys.Base.Int.{ℤ, pos, negsuc, ◌+ℤ◌}
use postkeys.Base.Bytes.{Bytes}
use postkeys.Storage.Tables.{
  type_list, Db, put_at-same, get_key_type, live_type, is_live, set_meta, same_type,
}
use postkeys.Storage.Lists.{
  Row, value_of, Result, ok, is_other_type, list_rows, set_list, put_list_rows, l_push, r_push,
  pushed, rows_below, rows_above, insert_rows, min_index, max_index,
}
use postkeys.Storage.Lists.Order.{
  IsSorted, push_rows_left, insert_rows-below, insert_rows-above, min_index-bound, max_index-bound,
}

-- The values of a list, from the left.
abbrev pub items : Bytes → Db → List Bytes
items key db = map value_of (list_rows key db)

-- The key is missing or a list, and its rows stand in the order of their indices.
abbrev pub IsList : ℕ → Bytes → Db → Type 0
IsList now key db = (is_other_type now key db ≡ false) × IsSorted (list_rows key db)

pub list_rows-set_list :
    (key : Bytes) (rows : List Row) (db : Db) → list_rows key (set_list key rows db) ≡ rows
unfolding list_rows set_list put_list_rows
list_rows-set_list key rows db = put_at-same key rows (db.rows type_list)

pub items-set_list :
    (key : Bytes) (rows : List Row) (db : Db) → items key (set_list key rows db) ≡ map value_of rows
items-set_list key rows db = ap (map value_of) (list_rows-set_list key rows db)

-- Other rows leave the type of the key.
pub IsList-set_list :
    (now : ℕ) (key : Bytes) (rows : List Row) (db : Db)
    → is_other_type now key db ≡ false
    → IsSorted rows
    → IsList now key (set_list key rows db)
unfolding is_other_type get_key_type set_list
IsList-set_list now key rows db h s =
    (h, subst (λ x. IsSorted x) (sym (list_rows-set_list key rows db)) s)

pub is_other_type-set_meta :
    (now : ℕ) (key : Bytes) (db : Db)
    → is_other_type now key (set_meta key type_list none db) ≡ false
unfolding is_other_type get_key_type set_meta live_type same_type is_live
is_other_type-set_meta now key db =
    rw (put_at-same key (some (record { key_type = type_list; expires_at = none })) db.meta) refl

-- One push after the other, each to the left.
abbrev pub push_left : List Bytes → List Bytes → List Bytes
push_left [] xs = xs
push_left (v ∷ values) xs = push_left values (v ∷ xs)

values-below :
    (i : ℤ) (values : List Bytes) (rows : List Row)
    → map value_of (push_rows_left (rows_below i values) rows)
      ≡ push_left values (map value_of rows)
unfolding rows_below
values-below i [] rows = refl
values-below i (v ∷ values) rows =
    values-below (i +ℤ negsuc 0) values (((i +ℤ negsuc 0, v), none) ∷ rows)

values-above :
    (i : ℤ) (values : List Bytes) (rows : List Row)
    → map value_of (rows ++ rows_above i values) ≡ map value_of rows ++ values
unfolding rows_above
values-above i values [] = go i values
  where
    go : (i : ℤ) (values : List Bytes) → map value_of (rows_above i values) ≡ values
    go i [] = refl
    go i (v ∷ values) = ap (λ t. v ∷ t) (go (i +ℤ pos 1) values)
values-above i values (r ∷ rows) = ap (λ t. value_of r ∷ t) (values-above i values rows)

pub length-values : (rows : List Row) → length (map value_of rows) ≡ length rows
length-values [] = refl
length-values (r ∷ rows) = ap suc (length-values rows)

-- The key holds a list of values.
abbrev pub Holds : ℕ → Bytes → List Bytes → Db → Type 0
Holds now key xs db = IsList now key db × (items key db ≡ xs)

pub Holds-set_list :
    (now : ℕ) (key : Bytes) (rows : List Row) (db : Db)
    → is_other_type now key db ≡ false
    → IsSorted rows
    → Holds now key (map value_of rows) (set_list key rows db)
Holds-set_list now key rows db h s =
    (IsList-set_list now key rows db h s, items-set_list key rows db)

pushed-Holds :
    (now : ℕ) (key : Bytes) (rows : List Row) (db : Db)
    → IsSorted rows
    → Holds now key (map value_of rows) (set_list key rows (set_meta key type_list none db))
pushed-Holds now key rows db s =
    Holds-set_list now key rows (set_meta key type_list none db) (is_other_type-set_meta now key db)
      s

-- A push replies with the new length and leaves the values in their new order.
abbrev pub Pushes : ℕ → Bytes → Result (ℕ × Db) → List Bytes → Type 0
Pushes now key result xs =
    (after : Db) × ((result ≡ ok (length xs, after)) × Holds now key xs after)

pushed-Pushes :
    (now : ℕ) (key : Bytes) (o : Option (List Row)) (rows : List Row) (db : Db)
    → o ≡ some rows
    → IsSorted rows
    → Pushes now key (pushed key o db) (map value_of rows)
unfolding pushed
pushed-Pushes now key o rows db e s = rw e (
  set_list key rows (set_meta key type_list none db),
  (
    ap (λ n. ok (n, set_list key rows (set_meta key type_list none db))) (sym (length-values rows)),
    pushed-Holds now key rows db s,
  ),
)

pub l_push-Pushes :
    (now : ℕ) (key : Bytes) (values : List Bytes) (db : Db)
    → IsList now key db
    → Pushes now key (l_push now key values db) (push_left values (items key db))
unfolding l_push
l_push-Pushes now key [] db h =
    rw h.0 (db, (ap (λ n. ok (n, db)) (sym (length-values (list_rows key db))), (h, refl)))
l_push-Pushes now key (v ∷ values) db h =
    let rows : List Row = list_rows key db in
    let i : ℤ = min_index (pos 0) rows in
    let inserted = insert_rows-below i (v ∷ values) rows h.1 (min_index-bound (pos 0) rows h.1) in
    rw h.0 (
      subst
        (λ xs.
          Pushes now key (pushed key (insert_rows (rows_below i (v ∷ values)) (some rows)) db) xs)
        (values-below i (v ∷ values) rows)
        (pushed-Pushes now key (insert_rows (rows_below i (v ∷ values)) (some rows))
          (push_rows_left (rows_below i (v ∷ values)) rows) db inserted.0 inserted.1))

pub r_push-Pushes :
    (now : ℕ) (key : Bytes) (values : List Bytes) (db : Db)
    → IsList now key db
    → Pushes now key (r_push now key values db) (items key db ++ values)
unfolding r_push
r_push-Pushes now key [] db h =
    rw (h.0, append-nil (items key db))
      (db, (ap (λ n. ok (n, db)) (sym (length-values (list_rows key db))), (h, refl)))
r_push-Pushes now key (v ∷ values) db h =
    let rows : List Row = list_rows key db in
    let i : ℤ = max_index (negsuc 0) rows in
    let inserted =
      insert_rows-above i (v ∷ values) rows h.1 (max_index-bound (negsuc 0) rows h.1) in
    rw h.0 (
      subst
        (λ xs.
          Pushes now key (pushed key (insert_rows (rows_above i (v ∷ values)) (some rows)) db) xs)
        (values-above i (v ∷ values) rows)
        (pushed-Pushes now key (insert_rows (rows_above i (v ∷ values)) (some rows))
          (rows ++ rows_above i (v ∷ values)) db inserted.0 inserted.1))
