-- ===== src/Storage/Lists/Assign.antt =====
-- LSET and RPOPLPUSH of a list onto itself, against a list of values.
use mathlib.Core.Path.{subst}
use postkeys.Base.{
  ℕ, zero, suc, ◌≡◌, refl, sym, ap, ◌∙◌, false, not, ◌||◌, inl, inr, Bool-cases, Option, none, some,
  List, [], ◌∷◌, map, ◌==◌, compare_numbers, if◌then◌else◌, All, length, set,
}
use postkeys.Base.Int.{ℤ, pos, negsuc, ltb_ℤ, ◌+ℤ◌, pos_part}
use postkeys.Base.Bytes.{Bytes}
use postkeys.Storage.Tables.{Meta, Db, set_meta}
use postkeys.Storage.Lists.{
  Row, index_of, value_of, Result, ok, failed, ListError, no_such_key, index_out_of_range,
  is_other_type, list_rows, set_list, min_index, insert_rows, insert_into, rows_below, stored_value,
  push_value, ensure_meta, pushed_left, r_pop_l_push, r_pop,
}
use postkeys.Storage.Lists.Access.{from_end, set_value, l_set}
use postkeys.Storage.Lists.Order.{IsBefore, IsSorted, insert_rows-below, min_index-bound}
use postkeys.Storage.Lists.Deque.{
  items, IsList, Holds, length-values, Holds-set_list, is_other_type-set_meta,
}
use postkeys.Storage.Lists.Pop.{Pops, unsnoc, last_of, init_of, r_pop-Pops}

set_value-All :
    (P : ℤ → Type 0) (p : ℕ) (v : Bytes) (rows : List Row)
    → All (λ s. P (index_of s)) rows
    → All (λ s. P (index_of s)) (set_value p v rows)
unfolding set_value
set_value-All P p v [] h = tt
set_value-All P zero v (r ∷ rows) h = h
set_value-All P (suc p) v (r ∷ rows) h = (h.0, set_value-All P p v rows h.1)

set_value-IsSorted :
    (p : ℕ) (v : Bytes) (rows : List Row) → IsSorted rows → IsSorted (set_value p v rows)
unfolding set_value
set_value-IsSorted p v [] h = tt
set_value-IsSorted zero v (r ∷ rows) h = h
set_value-IsSorted (suc p) v (r ∷ rows) h =
    (set_value-All (λ i. IsBefore (index_of r) i) p v rows h.0, set_value-IsSorted p v rows h.1)

set_value-set :
    (p : ℕ) (v : Bytes) (rows : List Row)
    → map value_of (set_value p v rows) ≡ set (map value_of rows) p v
unfolding set_value
set_value-set p v [] = refl
set_value-set zero v (r ∷ rows) = refl
set_value-set (suc p) v (r ∷ rows) = ap (λ t. value_of r ∷ t) (set_value-set p v rows)

-- What LSET does to a list of values.
abbrev pub assign : ℤ → Bytes → List Bytes → Result (List Bytes)
assign index v xs =
    let i = from_end (length xs) index in
    if length xs == 0
    then failed no_such_key
    else if ltb_ℤ i (pos 0) || not (ltb_ℤ i (pos (length xs)))
    then failed index_out_of_range
    else ok (set xs (pos_part i) v)

-- Either both fail with the same error, or both succeed and the key holds the values.
pub data Matches (now : ℕ) (key : Bytes) : Result Db → Result (List Bytes) → Type 0 where
  both_failed : (e : ListError) → Matches now key (failed e) (failed e)
  both_ok : (db : Db) (xs : List Bytes) → Holds now key xs db → Matches now key (ok db) (ok xs)

pub l_set-Matches :
    (now : ℕ) (key : Bytes) (index : ℤ) (v : Bytes) (db : Db)
    → IsList now key db
    → Matches now key (l_set key index v db) (assign index v (items key db))
unfolding l_set
l_set-Matches now key index v db h =
    let rows : List Row = list_rows key db in
    let i : ℤ = from_end (length rows) index in
    subst
      (λ n. Matches now key (l_set key index v db) (
        if n == 0
        then failed no_such_key
        else if ltb_ℤ (from_end n index) (pos 0) || not (ltb_ℤ (from_end n index) (pos n))
        then failed index_out_of_range
        else ok (set (items key db) (pos_part (from_end n index)) v)))
      (sym (length-values rows))
      (elim (Bool-cases (length rows == 0)) [
        | inl a ↦ rw a (both_failed no_such_key)
        | inr a ↦ elim (Bool-cases (ltb_ℤ i (pos 0) || not (ltb_ℤ i (pos (length rows))))) [
          | inl b ↦ rw (a, b) (both_failed index_out_of_range)
          | inr b ↦
              rw (a, b)
                (both_ok (set_list key (set_value (pos_part i) v rows) db)
                  (set (items key db) (pos_part i) v)
                  (subst (λ xs. Holds now key xs (set_list key (set_value (pos_part i) v rows) db))
                    (set_value-set (pos_part i) v rows)
                    (Holds-set_list now key (set_value (pos_part i) v rows) db h.0
                      (set_value-IsSorted (pos_part i) v rows h.1))))
        ]
      ])

is_other_type-ensure_meta :
    (now : ℕ) (key : Bytes) (db : Db)
    → is_other_type now key db ≡ false
    → is_other_type now key (ensure_meta key (db.meta key) db) ≡ false
unfolding ensure_meta set_meta
is_other_type-ensure_meta now key db h = go (db.meta key) h
  where
    go :
        (m : Option Meta)
        → is_other_type now key db ≡ false
        → is_other_type now key (ensure_meta key m db) ≡ false
    go none h = is_other_type-set_meta now key db
    go (some m) h = h

-- A push of one value at the left.
abbrev Pushed : ℕ → Bytes → Bytes → Db → Result (Option Bytes × Db) → Type 0
Pushed now key v db result =
    (after : Db) × ((result ≡ ok (some v, after)) × Holds now key (v ∷ items key db) after)

push_value-Pushed :
    (now : ℕ) (key v : Bytes) (db : Db)
    → IsList now key db
    → Pushed now key v db (push_value key v db)
unfolding push_value stored_value insert_rows rows_below insert_into
push_value-Pushed now key v db h =
    let rows : List Row = list_rows key db in
    let r : Row = ((min_index (pos 0) rows +ℤ negsuc 0, v), none) in
    let inserted =
      insert_rows-below (min_index (pos 0) rows) (v ∷ []) rows h.1
        (min_index-bound (pos 0) rows h.1) in
    let ensured : Db = ensure_meta key (db.meta key) db in
    (
      set_list key (r ∷ rows) ensured,
      (
        ap (λ o. stored_value key v o db) inserted.0,
        Holds-set_list now key (r ∷ rows) ensured (is_other_type-ensure_meta now key db h.0)
            inserted.1,
      ),
    )

-- The last value, moved to the front.
abbrev pub rotate : List Bytes → Option Bytes × List Bytes
rotate [] = (none, [])
rotate (x ∷ xs) = (some (last_of x xs), last_of x xs ∷ init_of x xs)

abbrev pub Rotates : ℕ → Bytes → Result (Option Bytes × Db) → Option Bytes × List Bytes → Type 0
Rotates now key result expected =
    (after : Db) × ((result ≡ ok (expected.0, after)) × Holds now key expected.1 after)

some-none : (v : Bytes) → let o : Option Bytes = some v in o ≡ none → ⊥
some-none v e = cc

same_value : (v w : Bytes) → some v ≡ some w → v ≡ w
same_value v w e = cc

pub r_pop_l_push-Rotates :
    (now : ℕ) (key : Bytes) (db : Db)
    → IsList now key db
    → Rotates now key (r_pop_l_push key key db) (rotate (items key db))
unfolding r_pop_l_push pushed_left
r_pop_l_push-Rotates now key db h = go (items key db) (r_pop key db) (r_pop-Pops now key db h)
  where
    go :
        (xs : List Bytes) (result : Option Bytes × Db)
        → Pops now key result (unsnoc xs)
        → Rotates now key (pushed_left key result) (rotate xs)
    go [] (none, after) h = (after, (refl, h.1))
    go [] (some v, after) h = absurd (some-none v h.0)
    go (x ∷ xs) (none, after) h = absurd (some-none (last_of x xs) (sym h.0))
    go (x ∷ xs) (some v, after) h =
        let put = push_value-Pushed now key v after h.1.0 in
        (
          put.0,
          (
            put.1.0 ∙ ap (λ o. ok (o, put.0)) h.0,
            (
              put.1.1.0,
              put.1.1.1
                  ∙ (ap (λ t. t ∷ items key after) (same_value v (last_of x xs) h.0)
                      ∙ ap (λ t. last_of x xs ∷ t) h.1.1),
            ),
          ),
        )
