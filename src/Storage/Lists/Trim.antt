-- ===== src/Storage/Lists/Trim.antt =====
-- LRANGE and LTRIM against the positions of a range, as the two indices name them.
use mathlib.Core.Path.{subst}
use postkeys.Base.{
  ℕ, zero, suc, ◌+◌, ◌-◌, ◌≡◌, refl, sym, ap, ◌∙◌, arith, true, false, ◌||◌, inl, inr, Bool-cases,
  Option, none, some, List, [], ◌∷◌, map, ltb, ◌==◌, compare_numbers, All, length, take, drop,
}
use postkeys.Base.Int.{ℤ}
use postkeys.Base.Bytes.{Bytes}
use postkeys.Storage.Tables.{Db, put_at, put_at-same, get_key_type, live_type, same_type}
use postkeys.Storage.Lists.{Row, index_of, value_of, is_other_type, list_rows, set_list}
use postkeys.Storage.Lists.Access.{
  from_end, bounded_range, limit_offset, range_values, keep_positions, trimmed, l_trim,
}
use postkeys.Storage.Lists.Order.{IsBefore, IsSorted}
use postkeys.Storage.Lists.Deque.{items, IsList, Holds, length-values, Holds-set_list}
use postkeys.Storage.Lists.Ends.{
  between, range_of, bounds, bounded_range-bounds, Ends, empty, filled, ends, none-between,
  keep-between, limit_offset-keep, take-nil,
}

whole : (rows : List Row) → 0 + length (map value_of rows) ≡ length rows
whole rows = omega (arith, length-values rows)

range_values-ends :
    (lo hi : ℤ) (rows : List Row)
    → Ends (length rows) lo hi
    → range_values (bounds (length rows) lo hi) rows ≡ between lo hi 0 (map value_of rows)
unfolding range_values
range_values-ends lo hi rows (empty e f) =
    rw e (sym (none-between lo hi (length rows) 0 (map value_of rows) (whole rows) f))
range_values-ends lo hi rows (filled a b le e f) = rw e (
    ap (map value_of) (limit_offset-keep a b rows le)
    ∙ keep-between lo hi (length rows) 0 a b rows (omega arith) f)

range_values-nil : (o : Option (ℕ × ℕ)) → range_values o [] ≡ []
unfolding range_values limit_offset
range_values-nil none = refl
range_values-nil (some (a, b)) =
    ap (map value_of) (ap (take (b - a + 1)) (drop-nil a) ∙ take-nil (b - a + 1))
  where
    drop-nil : (a : ℕ) → let none_left : List Row = [] in drop a none_left ≡ none_left
    drop-nil zero = refl
    drop-nil (suc a) = refl

-- The values that LRANGE finds.
pub range_values-range_of :
    (start stop : ℤ) (rows : List Row)
    → range_values (bounded_range (length rows) start stop) rows
      ≡ range_of start stop (map value_of rows)
range_values-range_of start stop [] = range_values-nil (bounded_range 0 start stop)
range_values-range_of start stop (r ∷ rows) =
    let total : ℕ = suc (length rows) in
    ap (λ o. range_values o (r ∷ rows)) (bounded_range-bounds total start stop)
    ∙ (range_values-ends (from_end total start) (from_end total stop) (r ∷ rows)
          (ends total (from_end total start) (from_end total stop) (omega arith))
        ∙ ap (λ n. between (from_end n start) (from_end n stop) 0 (map value_of (r ∷ rows)))
            (sym (length-values (r ∷ rows))))

keep-All :
    (P : Row → Type 0) (p a b : ℕ) (rows : List Row)
    → All P rows
    → All P (keep_positions p a b rows)
unfolding keep_positions
keep-All P p a b [] h = tt
keep-All P p a b (r ∷ rows) h = elim (Bool-cases (ltb p a || ltb b p)) [
  | inl k ↦ rw k (keep-All P (suc p) a b rows h.1)
  | inr k ↦ rw k (h.0, keep-All P (suc p) a b rows h.1)
]

keep-IsSorted : (p a b : ℕ) (rows : List Row) → IsSorted rows → IsSorted (keep_positions p a b rows)
unfolding keep_positions
keep-IsSorted p a b [] h = tt
keep-IsSorted p a b (r ∷ rows) h = elim (Bool-cases (ltb p a || ltb b p)) [
  | inl k ↦ rw k (keep-IsSorted (suc p) a b rows h.1)
  | inr k ↦ rw k (
    keep-All (λ s. IsBefore (index_of r) (index_of s)) (suc p) a b rows h.0,
    keep-IsSorted (suc p) a b rows h.1,
  )
]

-- A key without a meta row is of no type.
is_other_type-deleted :
    (now : ℕ) (key : Bytes) (db : Db)
    → is_other_type now key (record db { meta = put_at key none db.meta }) ≡ false
unfolding is_other_type get_key_type live_type same_type
is_other_type-deleted now key db = rw (put_at-same key none db.meta) refl

trimmed-Holds :
    (now : ℕ) (key : Bytes) (lo hi : ℤ) (db : Db)
    → IsList now key db
    → Ends (length (list_rows key db)) lo hi
    → Holds now key
        (between lo hi 0 (items key db))
        (trimmed key (bounds (length (list_rows key db)) lo hi) db)
unfolding trimmed
trimmed-Holds now key lo hi db h (empty e f) =
    rw
      (
        e,
        none-between lo hi (length (list_rows key db)) 0 (items key db) (whole (list_rows key db))
            f,
      )
      (Holds-set_list now key [] (record db { meta = put_at key none db.meta })
        (is_other_type-deleted now key db) tt)
trimmed-Holds now key lo hi db h (filled a b le e f) =
    let rows : List Row = list_rows key db in
    rw e (
      subst (λ xs. Holds now key xs (set_list key (keep_positions 0 a b rows) db))
        (keep-between lo hi (length rows) 0 a b rows (omega arith) f)
        (Holds-set_list now key (keep_positions 0 a b rows) db h.0 (keep-IsSorted 0 a b rows h.1)))

range_of-none :
    (start stop : ℤ) (rows : List Row)
    → (length rows == 0) ≡ true
    → map value_of rows ≡ range_of start stop (map value_of rows)
range_of-none start stop [] h = refl
range_of-none start stop (r ∷ rows) h = absurd (ground arith)

-- LTRIM leaves the values of the range.
pub l_trim-Holds :
    (now : ℕ) (key : Bytes) (start stop : ℤ) (db : Db)
    → IsList now key db
    → Holds now key (range_of start stop (items key db)) (l_trim key start stop db)
unfolding l_trim
l_trim-Holds now key start stop db h = elim (Bool-cases (length (list_rows key db) == 0)) [
  | inl k ↦ rw k (h, range_of-none start stop (list_rows key db) k)
  | inr k ↦
      let rows : List Row = list_rows key db in
      let total : ℕ = length rows in
      rw (k, bounded_range-bounds total start stop)
        (subst
          (λ n.
            Holds now key (between (from_end n start) (from_end n stop) 0 (items key db))
              (trimmed key (bounds total (from_end total start) (from_end total stop)) db))
          (sym (length-values rows))
          (trimmed-Holds now key (from_end total start) (from_end total stop) db h
            (ends total (from_end total start) (from_end total stop) (ground arith))))
]
