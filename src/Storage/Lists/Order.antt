-- ===== src/Storage/Lists/Order.antt =====
-- The indices of a list ascend, and where they do, an insertion at an end puts a row at that end.
use mathlib.Core.Path.{subst}
use postkeys.Base.{
  ◌≡◌, refl, ap, ◌∙◌, arith, true, false, none, some, List, [], ◌∷◌, ◌++◌, append_assoc, append-nil,
  All,
}
use postkeys.Base.Int.{ℤ, pos, negsuc, ◌+ℤ◌, ltb_ℤ}
use postkeys.Base.Bytes.{Bytes}
use postkeys.Storage.Lists.{
  Row, index_of, min_index, max_index, prepend, insert_row, insert_into, insert_rows, rows_below,
  rows_above,
}

abbrev pub IsBefore : ℤ → ℤ → Type 0
IsBefore a b = ltb_ℤ a b ≡ true

-- Every index is above the one before it.
abbrev pub IsSorted : List Row → Type 0
IsSorted [] = Unit
IsSorted (r ∷ rows) = All (λ s. IsBefore (index_of r) (index_of s)) rows × IsSorted rows

IsBefore-trans : (a b c : ℤ) → IsBefore a b → IsBefore b c → IsBefore a c
IsBefore-trans a b c h k = ground arith

IsBefore-less : (i : ℤ) → IsBefore (i +ℤ negsuc 0) i
unfolding ◌+ℤ◌
IsBefore-less i = ground arith

IsBefore-more : (i : ℤ) → IsBefore i (i +ℤ pos 1)
unfolding ◌+ℤ◌
IsBefore-more i = ground arith

before-not : (a b : ℤ) → IsBefore a b → ltb_ℤ b a ≡ false
before-not a b h = ground arith

All-map :
    {P Q : Row → Type 0} → ((r : Row) → P r → Q r) → (rows : List Row) → All P rows → All Q rows
All-map f [] h = tt
All-map f (r ∷ rows) h = (f r h.0, All-map f rows h.1)

-- A row below all others comes first, and a row above all others last.
insert_row-first :
    (r : Row) (rows : List Row)
    → All (λ s. IsBefore (index_of r) (index_of s)) rows
    → insert_row r rows ≡ some (r ∷ rows)
unfolding insert_row
insert_row-first r [] h = refl
insert_row-first r (s ∷ rows) h = rw h.0 refl

insert_row-last :
    (r : Row) (rows : List Row)
    → All (λ s. IsBefore (index_of s) (index_of r)) rows
    → insert_row r rows ≡ some (rows ++ (r ∷ []))
unfolding insert_row prepend
insert_row-last r [] h = refl
insert_row-last r (s ∷ rows) h =
    rw (before-not (index_of s) (index_of r) h.0, h.0, insert_row-last r rows h.1) refl

All-append : (P : Row → Type 0) (xs ys : List Row) → All P xs → All P ys → All P (xs ++ ys)
All-append P [] ys h k = k
All-append P (x ∷ xs) ys h k = (h.0, All-append P xs ys h.1 k)

-- A row behind a sorted list.
IsSorted-snoc :
    (rows : List Row) (r : Row)
    → IsSorted rows
    → All (λ s. IsBefore (index_of s) (index_of r)) rows
    → IsSorted (rows ++ (r ∷ []))
IsSorted-snoc [] r h a = (tt, tt)
IsSorted-snoc (s ∷ rows) r h a = (
  All-append (λ t. IsBefore (index_of s) (index_of t)) rows (r ∷ []) h.0 (a.0, tt),
  IsSorted-snoc rows r h.1 a.1,
)

-- What LPUSH inserts comes before the rows, the last first.
abbrev pub push_rows_left : List Row → List Row → List Row
push_rows_left [] rows = rows
push_rows_left (r ∷ new) rows = push_rows_left new (r ∷ rows)

pub insert_rows-below :
    (i : ℤ) (values : List Bytes) (rows : List Row)
    → IsSorted rows
    → All (λ s. ltb_ℤ (index_of s) i ≡ false) rows
    → (insert_rows (rows_below i values) (some rows)
        ≡ some (push_rows_left (rows_below i values) rows))
      × IsSorted (push_rows_left (rows_below i values) rows)
unfolding insert_rows rows_below insert_into
insert_rows-below i [] rows h a = (refl, h)
insert_rows-below i (v ∷ values) rows h a =
    let r : Row = ((i +ℤ negsuc 0, v), none) in
    let below =
      All-map {P = λ s. ltb_ℤ (index_of s) i ≡ false} {Q = λ s. IsBefore (index_of r) (index_of s)}
        (λ s k. below_not i (index_of s) k) rows a in
    let next =
      insert_rows-below (i +ℤ negsuc 0) values (r ∷ rows) (below, h)
        (
          not_self (i +ℤ negsuc 0),
          All-map {P = λ s. IsBefore (index_of r) (index_of s)}
              {Q = λ s. ltb_ℤ (index_of s) (index_of r) ≡ false}
              (λ s k. before-not (index_of r) (index_of s) k) rows below,
        ) in
    (
      ap (insert_rows (rows_below (i +ℤ negsuc 0) values)) (insert_row-first r rows below) ∙ next.0,
      next.1,
    )
  where
    not_self : (i : ℤ) → ltb_ℤ i i ≡ false
    not_self i = ground arith

    below_not : (i j : ℤ) → ltb_ℤ j i ≡ false → IsBefore (i +ℤ negsuc 0) j
    below_not i j h = not_before i j (i +ℤ negsuc 0) (IsBefore-less i) h
      where
        not_before : (i j k : ℤ) → IsBefore k i → ltb_ℤ j i ≡ false → IsBefore k j
        not_before i j k h n = ground arith

-- What RPUSH inserts comes behind the rows, in order.
pub insert_rows-above :
    (i : ℤ) (values : List Bytes) (rows : List Row)
    → IsSorted rows
    → All (λ s. ltb_ℤ i (index_of s) ≡ false) rows
    → (insert_rows (rows_above i values) (some rows) ≡ some (rows ++ rows_above i values))
      × IsSorted (rows ++ rows_above i values)
unfolding insert_rows rows_above insert_into
insert_rows-above i [] rows h a = rw (append-nil rows) (refl, h)
insert_rows-above i (v ∷ values) rows h a =
    let r : Row = ((i +ℤ pos 1, v), none) in
    let above =
      All-map {P = λ s. ltb_ℤ i (index_of s) ≡ false} {Q = λ s. IsBefore (index_of s) (index_of r)}
        (λ s k. above_not i (index_of s) k) rows a in
    let behind : List Row = rows ++ (r ∷ []) in
    let next = insert_rows-above (i +ℤ pos 1) values behind (IsSorted-snoc rows r h above) (
      All-append (λ s. ltb_ℤ (index_of r) (index_of s) ≡ false) rows (r ∷ [])
        (All-map {P = λ s. IsBefore (index_of s) (index_of r)}
          {Q = λ s. ltb_ℤ (index_of r) (index_of s) ≡ false}
          (λ s k. before-not (index_of s) (index_of r) k) rows above)
        (not_self (i +ℤ pos 1), tt)) in
    (
      ap (insert_rows (rows_above (i +ℤ pos 1) values)) (insert_row-last r rows above)
          ∙ (next.0 ∙ ap some (append_assoc rows (r ∷ []) (rows_above (i +ℤ pos 1) values))),
      subst (λ x. IsSorted x) (append_assoc rows (r ∷ []) (rows_above (i +ℤ pos 1) values)) next.1,
    )
  where
    not_self : (i : ℤ) → ltb_ℤ i i ≡ false
    not_self i = ground arith

    above_not : (i j : ℤ) → ltb_ℤ i j ≡ false → IsBefore j (i +ℤ pos 1)
    above_not i j h = not_before i j (i +ℤ pos 1) (IsBefore-more i) h
      where
        not_before : (i j k : ℤ) → IsBefore i k → ltb_ℤ i j ≡ false → IsBefore j k
        not_before i j k h n = ground arith

-- The bounds that the pushes read.
pub min_index-bound :
    (d : ℤ) (rows : List Row)
    → IsSorted rows
    → All (λ s. ltb_ℤ (index_of s) (min_index d rows) ≡ false) rows
unfolding min_index
min_index-bound d [] h = tt
min_index-bound d (r ∷ rows) h = (
  ground arith,
  All-map {P = λ s. IsBefore (index_of r) (index_of s)}
      {Q = λ s. ltb_ℤ (index_of s) (index_of r) ≡ false}
      (λ s k. before-not (index_of r) (index_of s) k) rows h.0,
)

max_index-above :
    (r : Row) (rows : List Row)
    → IsSorted (r ∷ rows)
    → ltb_ℤ (max_index (index_of r) rows) (index_of r) ≡ false
unfolding max_index
max_index-above r [] h = ground arith
max_index-above r (s ∷ rows) h =
    not_below (index_of r) (index_of s) (max_index (index_of s) rows) h.0.0
      (max_index-above s rows h.1)
  where
    not_below : (a b c : ℤ) → IsBefore a b → ltb_ℤ c b ≡ false → ltb_ℤ c a ≡ false
    not_below a b c h k = ground arith

pub max_index-bound :
    (d : ℤ) (rows : List Row)
    → IsSorted rows
    → All (λ s. ltb_ℤ (max_index d rows) (index_of s) ≡ false) rows
unfolding max_index
max_index-bound d [] h = tt
max_index-bound d (r ∷ rows) h = (max_index-above r rows h, max_index-bound (index_of r) rows h.1)
