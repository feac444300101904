-- ===== src/Storage/Lists/Pop.antt =====
-- The pops of a list against a list of values.
use mathlib.Core.Path.{subst}
use postkeys.Base.{ℕ, ◌≡◌, refl, ap, Option, none, some, List, [], ◌∷◌, map, All}
use postkeys.Base.Bytes.{Bytes}
use postkeys.Storage.Tables.{Db}
use postkeys.Storage.Lists.{
  Row, index_of, value_of, list_rows, set_list, l_pop, r_pop, pop_first, pop_last, last_row,
  without_last,
}
use postkeys.Storage.Lists.Order.{IsBefore, IsSorted}
use postkeys.Storage.Lists.Deque.{items, IsList, Holds, Holds-set_list}

-- The first value and the others, and the last value and the others.
abbrev pub uncons : List Bytes → Option Bytes × List Bytes
uncons [] = (none, [])
uncons (x ∷ xs) = (some x, xs)

abbrev pub last_of : Bytes → List Bytes → Bytes
last_of x [] = x
last_of x (y ∷ xs) = last_of y xs

abbrev pub init_of : Bytes → List Bytes → List Bytes
init_of x [] = []
init_of x (y ∷ xs) = x ∷ init_of y xs

abbrev pub unsnoc : List Bytes → Option Bytes × List Bytes
unsnoc [] = (none, [])
unsnoc (x ∷ xs) = (some (last_of x xs), init_of x xs)

-- A pop replies with a value, or nil, and leaves the others.
abbrev pub Pops : ℕ → Bytes → Option Bytes × Db → Option Bytes × List Bytes → Type 0
Pops now key result expected = (result.0 ≡ expected.0) × Holds now key expected.1 result.1

pub l_pop-Pops :
    (now : ℕ) (key : Bytes) (db : Db)
    → IsList now key db
    → Pops now key (l_pop key db) (uncons (items key db))
unfolding l_pop pop_first
l_pop-Pops now key db h = go (list_rows key db) refl h.1
  where
    go :
        (rows : List Row)
        → list_rows key db ≡ rows
        → IsSorted rows
        → Pops now key (pop_first key rows db) (uncons (map value_of rows))
    go [] e s = (refl, (h, ap (map value_of) e))
    go (r ∷ rows) e s = (refl, Holds-set_list now key rows db h.0 s.1)

last-value :
    (r : Row) (rows : List Row)
    → value_of (last_row r rows) ≡ last_of (value_of r) (map value_of rows)
unfolding last_row
last-value r [] = refl
last-value r (s ∷ rows) = last-value s rows

init-values :
    (r : Row) (rows : List Row)
    → map value_of (without_last r rows) ≡ init_of (value_of r) (map value_of rows)
unfolding without_last
init-values r [] = refl
init-values r (s ∷ rows) = ap (λ t. value_of r ∷ t) (init-values s rows)

All-without_last :
    (P : Row → Type 0) (r : Row) (rows : List Row) → All P (r ∷ rows) → All P (without_last r rows)
unfolding without_last
All-without_last P r [] h = tt
All-without_last P r (s ∷ rows) h = (h.0, All-without_last P s rows h.1)

IsSorted-without_last :
    (r : Row) (rows : List Row) → IsSorted (r ∷ rows) → IsSorted (without_last r rows)
unfolding without_last
IsSorted-without_last r [] h = tt
IsSorted-without_last r (s ∷ rows) h = (
  All-without_last (λ t. IsBefore (index_of r) (index_of t)) s rows h.0,
  IsSorted-without_last s rows h.1,
)

pub r_pop-Pops :
    (now : ℕ) (key : Bytes) (db : Db)
    → IsList now key db
    → Pops now key (r_pop key db) (unsnoc (items key db))
unfolding r_pop pop_last
r_pop-Pops now key db h = go (list_rows key db) refl h.1
  where
    go :
        (rows : List Row)
        → list_rows key db ≡ rows
        → IsSorted rows
        → Pops now key (pop_last key rows db) (unsnoc (map value_of rows))
    go [] e s = (refl, (h, ap (map value_of) e))
    go (r ∷ rows) e s = (
      ap some (last-value r rows),
      subst (λ xs. Holds now key xs (set_list key (without_last r rows) db)) (init-values r rows)
          (Holds-set_list now key (without_last r rows) db h.0 (IsSorted-without_last r rows s)),
    )
